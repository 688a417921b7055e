-- ===== src/Engine/Open/Numbered.antt =====
-- `Dazzle::recover`: the order of the replay, the flush and the removal of the logs, and the number
-- that the next write gets.
use enigma.Prelude.{ℕ, ◌≤◌, ◌<◌, List, ◌≡◌, ◌⊎◌, All}
use enigma.Error.{Result, ok}
use enigma.Io.{Fails}
use enigma.Wal.Record.{WalRecord}
use enigma.Wal.Reader.{Read}
use enigma.Compaction.Policy.{sort_by}
use enigma.Engine.{Services, Dazzle}
use enigma.Engine.Calls.{on_disk}
use enigma.Engine.Recover.{Replay}
use enigma.Engine.Open.{below, numbers, remove_wals, flush_if_any}

-- The old log files, in the order in which they are replayed.
abbrev pub old_files : {D R W : Type 0} → Services D R W → Dazzle D → List (ℕ × Result Read)
old_files t st =
    sort_by (λ (f : ℕ × Result Read). f.0) (below st.next_wal_seq (t.wal_files st.disk))

-- The engine with the replayed memtable.
abbrev pub replayed : {D : Type 0} → Dazzle D → Replay → Dazzle D
replayed st r = record st { active_memtable = r.active_memtable }

module _ {D R W : Type 0} (t : Services D R W) where
  -- The engine after a recovery that succeeded: the flush, and then the removal of the logs, were done,
  -- and the next write is numbered above all the records.
  pub record IsNumbered (st : Dazzle D) (p : Replay) (rs : List WalRecord) (st' : Dazzle D)
      (highest : ℕ) : Type 0 where
    pub flushed : Dazzle D
    pub flushes : flush_if_any t (replayed st p) ≡ (flushed, ok tt)
    pub removes : remove_wals t (numbers (old_files t st)) flushed.disk ≡ (st'.disk, ok tt)
    pub above : All (λ (r : WalRecord). (r.sequence ≤ highest) × (r.sequence < st'.lsn)) rs

  -- A recovery that failed: in the flush, with no log removed, or when a log was removed.
  abbrev pub IsUnfinished : Dazzle D → Replay → Dazzle D → Result ℕ → Type 0
  IsUnfinished st p st' r =
      Fails r
      × (((q : Result (Unit {0})) × (flush_if_any t (replayed st p) ≡ (st', q)) × Fails q)
          ⊎ ((st1 : Dazzle D) × (d : D) × (flush_if_any t (replayed st p) ≡ (st1, ok tt))
              × (st' ≡ on_disk st1 d)))
