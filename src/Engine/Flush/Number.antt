-- ===== src/Engine/Flush/Number.antt =====
-- A flush, with its compaction, leaves the counter of writes alone.
use enigma.Memtable.{count, sub64}
use enigma.Prelude.{
  ℕ, ◌+◌, ◌%◌, ◌^◌, ◌==◌, Bool, Bool-cases, inl, inr, true, false, Option, none, some, List, [],
  ◌∷◌, ◌≡◌, refl, ◌∙◌,
}
use enigma.Error.{Result, ok, err, fault}
use enigma.Io.{Io, after, ◌>>◌}
use enigma.VersionSet.{SstableId, SstableMeta, VersionEdit, VersionSet, apply}
use enigma.Compaction.Policy.{CompactionCandidate}
use enigma.Engine.{Services, Dazzle, with_disk, call}
use enigma.Engine.Compact.{
  CompactionTask, meta_of, after_apply, apply_edit, install_flushed_sst, install, after_install,
  run_task, execute, after_pick, do_compact_work, sst_meta_to_vector,
}
use enigma.Engine.Flush.{
  flush_entries, flush, flush_when, unless_fault, try_compact, write_table, rotate,
}

module _ {D : Type 0} where
  -- The method leaves the counter of writes.
  abbrev pub Leaves : {A : Type 0} → Io (Dazzle D) A → Type 0
  Leaves io = (st : Dazzle D) → (io st).0.lsn ≡ st.lsn

  lsn-after :
      {A B : Type 0} (n : ℕ) (x : Dazzle D × Result A) (rest : A → Io (Dazzle D) B)
      → x.0.lsn ≡ n
      → ((a : A) → Leaves (rest a))
      → (after x rest).0.lsn ≡ n
  lsn-after n (s, fault) rest e l = e
  lsn-after n (s, err x) rest e l = e
  lsn-after n (s, ok a) rest e l = l a s ∙ e

  lsn-after_apply :
      (o : Result (List SstableId × VersionSet)) (st : Dazzle D) → (after_apply o st).0.lsn ≡ st.lsn
  lsn-after_apply (ok (ids, set)) st = refl
  lsn-after_apply (err e) st = refl
  lsn-after_apply fault st = refl

  lsn-apply_edit : (edit : VersionEdit) → Leaves (apply_edit edit)
  lsn-apply_edit edit st =
      unfold apply_edit in lsn-after_apply (apply [] st.next_address edit st.version_set) st

module _ {D R W : Type 0} (t : Services D R W) where
  lsn-after_install :
      (id : SstableId) (x : Dazzle D × Result (Unit {0})) → (after_install t id x).0.lsn ≡ x.0.lsn
  lsn-after_install id (st, ok u) = refl
  lsn-after_install id (st, err e) = refl
  lsn-after_install id (st, fault) = refl

  lsn-unless_fault : (x : Dazzle D × Result (Option SstableId)) → (unless_fault t x).0.lsn ≡ x.0.lsn
  lsn-unless_fault (st, ok id) = refl
  lsn-unless_fault (st, err e) = refl
  lsn-unless_fault (st, fault) = refl

  lsn-install_flushed_sst : (meta : SstableMeta) → Leaves (install_flushed_sst t meta)
  unfolding install_flushed_sst
  lsn-install_flushed_sst meta st =
      let edit : VersionEdit = record { removed = []; added = meta ∷ []; next_sst_id = none } in
      lsn-after st.lsn (apply_edit edit st) _ (lsn-apply_edit edit st) (λ ids s. refl)

  lsn-install : (task : CompactionTask) → Leaves (install t task)
  unfolding install
  lsn-install task st =
      lsn-after st.lsn (with_disk st (t.get task.output_id st.disk)) _ refl (λ reader s.
        lsn-after s.lsn (s, t.footer reader) _ refl
          (λ footer s'.
            let edit : VersionEdit = record {
              removed = task.inputs;
              added = meta_of task.output_id footer ∷ [];
              next_sst_id = none;
            } in
            lsn-after s'.lsn (apply_edit edit s') _ (lsn-apply_edit edit s') (λ ids s''. refl)))

  lsn-run_task : (task : CompactionTask) → Leaves (run_task t task)
  unfolding run_task
  lsn-run_task task st =
      lsn-after st.lsn (with_disk st (execute t task st.disk)) _ refl
        (λ id s. lsn-after_install task.output_id (install t task s) ∙ lsn-install task s)

  lsn-after_pick : (c : Option CompactionCandidate) → Leaves (after_pick t c)
  lsn-after_pick none st = refl
  lsn-after_pick (some c) st =
      lsn-run_task
        (record {
          inputs = c.inputs;
          output_id = st.next_sst_seq;
          can_drop_tombstone = c.can_drop_tombstone;
        })
        (record st { next_sst_seq = (st.next_sst_seq + 1) % 2 ^ 64 })

  lsn-try_compact : Leaves (try_compact t)
  lsn-try_compact st =
      lsn-unless_fault (do_compact_work t st)
      ∙ (unfold do_compact_work in lsn-after_pick (st.policy (sst_meta_to_vector st)) st)

  lsn-end : (n : ℕ) → Leaves (call (t.remove_wal n) >> try_compact t)
  lsn-end n st =
      lsn-after st.lsn (with_disk st (t.remove_wal n st.disk)) _ refl (λ u. lsn-try_compact)

  lsn-flush_entries : Leaves (flush_entries t)
  unfolding flush_entries
  lsn-flush_entries st =
      let id = st.next_sst_seq in
      let m : Dazzle D = record st { next_sst_seq = (id + 1) % 2 ^ 64 } in
      lsn-after st.lsn
        (with_disk m
          (write_table t id (count st.active_memtable) st.active_memtable.entries st.disk))
        _ refl
        (λ u s. lsn-after s.lsn (with_disk s (t.get id s.disk)) _ refl (λ reader s.
          let n : Dazzle D = record s { next_wal_seq = (s.next_wal_seq + 1) % 2 ^ 64 } in
          lsn-after s.lsn (with_disk n (t.create_wal s.next_wal_seq s.disk)) _ refl (λ v s1.
            lsn-after s1.lsn (s1, t.footer reader) _ refl
              (λ footer s2.
                lsn-after s2.lsn (install_flushed_sst t (meta_of id footer) s2) _
                  (lsn-install_flushed_sst (meta_of id footer) s2)
                  (λ w s3. lsn-end (sub64 s.next_wal_seq 1) (rotate t s.next_wal_seq s3))))))

  lsn-flush : Leaves (flush t)
  unfolding flush
  lsn-flush st = elim (Bool-cases (count st.active_memtable == 0)) [
    | inl none_there ↦ rw none_there refl
    | inr some_there ↦ rw some_there (lsn-flush_entries st)
  ]

  pub lsn-flush_when : (condition : Bool) → Leaves (flush_when t condition)
  lsn-flush_when true st = lsn-flush st
  lsn-flush_when false st = refl
