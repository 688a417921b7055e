-- ===== src/Engine/Compact.antt =====
-- The compactions that the engine runs, and the changes of its version set.
use enigma.Prelude.{◌+◌, Bool, true, Option, none, some, List, [], ◌∷◌, map, if◌then◌else◌}
use enigma.Error.{Result, ok, err, fault, error, bad_config, is_stale_version}
use enigma.Io.{Io, pure, returns, ◌>>=◌, ◌>>◌}
use enigma.Sstable.{SstFooter}
use enigma.VersionSet.{SstableId, SstableMeta, VersionSet, VersionEdit, apply}
use enigma.Compaction.TombstoneGc.{sort_ids}
use enigma.Compaction.Policy.{CompactionCandidate}
use enigma.Engine.{Services, Policy, Dazzle, call, mint_sst_id}

-- `CompactionTask`
pub record CompactionTask : Type 0 where
  pub inputs : List SstableId
  pub output_id : SstableId
  pub can_drop_tombstone : Bool

-- The metadata of a table from its footer.
abbrev pub meta_of : SstableId → SstFooter → SstableMeta
meta_of id footer = record {
  id = id;
  size_bytes = footer.size_bytes;
  entry_count = footer.entry_count;
  max_sequence = footer.highest_sequence;
}

module _ {D : Type 0} where
  -- `Dazzle::sst_meta_to_vector`
  abbrev pub sst_meta_to_vector : Dazzle D → List SstableMeta
  sst_meta_to_vector st =
      map (λ (f : SstableId × SstableMeta). f.1) st.version_set.current_version.files

  -- The set that an edit made is the engine's, and what became reclaimable is the result.
  abbrev pub after_apply : Result (List SstableId × VersionSet) → Io (Dazzle D) (List SstableId)
  after_apply (ok (ids, set)) st =
      (record st { version_set = set; next_address = st.next_address + 1 }, ok ids)
  after_apply (err e) st = (st, err e)
  after_apply fault st = (st, fault)

  -- `version_set_->apply(edit)`. No other call holds a version meanwhile.
  unfoldable pub apply_edit : VersionEdit → Io (Dazzle D) (List SstableId)
  apply_edit edit st = after_apply (apply [] st.next_address edit st.version_set) st

  -- `Dazzle::set_compaction_policy`
  unfoldable pub set_compaction_policy : Option Policy → Io (Dazzle D) (Unit {0})
  set_compaction_policy none st = (st, err (error bad_config "Compaction policy was not specified"))
  set_compaction_policy (some policy) st = (record st { policy = policy }, ok tt)

module _ {D R W : Type 0} (t : Services D R W) where
  -- A failed `engine_.remove` is logged, and no more.
  abbrev unless_fault : D × Result (Unit {0}) → D × Result (Unit {0})
  unless_fault (d, err e) = (d, ok tt)
  unless_fault (d, r) = (d, r)

  -- One round of the loop of `Dazzle::reclaim`.
  abbrev pub reclaim_file : SstableId → Io D (Unit {0})
  reclaim_file id d = unless_fault (t.remove_sst id (t.evict id d))

  -- `Dazzle::reclaim`, without its logging.
  unfoldable pub reclaim : List SstableId → Io D (Unit {0})
  reclaim [] = pure tt
  reclaim (id ∷ ids) = reclaim_file id >> reclaim ids

  -- `Dazzle::install_flushed_sst`
  unfoldable pub install_flushed_sst : SstableMeta → Io (Dazzle D) (Unit {0})
  install_flushed_sst meta = do
    reclaimable ← apply_edit (record { removed = []; added = meta ∷ []; next_sst_id = none })
    call (reclaim reclaimable)

  -- `Dazzle::install`
  unfoldable pub install : CompactionTask → Io (Dazzle D) (Unit {0})
  install task = do
    reader ← call (t.get task.output_id)
    footer ← returns (t.footer reader)
    reclaimable ← apply_edit (record {
      removed = task.inputs;
      added = meta_of task.output_id footer ∷ [];
      next_sst_id = none;
    })
    call (reclaim reclaimable)

  -- What `run_task` makes of the result of `install`.
  abbrev pub after_install :
      SstableId → Dazzle D × Result (Unit {0}) → Dazzle D × Result (Option SstableId)
  after_install id (st, ok u) = (st, ok (some id))
  after_install id (st, err e) = (st, if is_stale_version e then ok none else err e)
  after_install id (st, fault) = (st, fault)

  abbrev pub try_install : CompactionTask → Io (Dazzle D) (Option SstableId)
  try_install task st = after_install task.output_id (install task st)

  -- `Dazzle::execute`
  abbrev pub execute : CompactionTask → Io D SstableId
  execute task = t.compact task.inputs task.output_id task.can_drop_tombstone

  -- `Dazzle::run_task`
  unfoldable pub run_task : CompactionTask → Io (Dazzle D) (Option SstableId)
  run_task task = call (execute task) >>= λ id. try_install task

  -- The rest of the two compactions, with what is chosen.
  abbrev pub run_minted : List SstableId → Bool → Io (Dazzle D) (Option SstableId)
  run_minted inputs can_drop = do
    output_id ← mint_sst_id
    run_task (record { inputs = inputs; output_id = output_id; can_drop_tombstone = can_drop })

  abbrev pub after_pick : Option CompactionCandidate → Io (Dazzle D) (Option SstableId)
  after_pick none st = (st, ok none)
  after_pick (some candidate) st = run_minted candidate.inputs candidate.can_drop_tombstone st

  -- `Dazzle::do_compact_work`
  unfoldable pub do_compact_work : Io (Dazzle D) (Option SstableId)
  do_compact_work st = after_pick (st.policy (sst_meta_to_vector st)) st

  -- Every table is an input.
  abbrev pub compact_all : List SstableMeta → Io (Dazzle D) (Option SstableId)
  compact_all [] st = (st, ok none)
  compact_all (m ∷ metas) st =
      run_minted (sort_ids (map (λ (x : SstableMeta). x.id) (m ∷ metas))) true st

  -- `Dazzle::compact_now`
  unfoldable pub compact_now : Io (Dazzle D) (Option SstableId)
  compact_now st = compact_all (sst_meta_to_vector st) st
