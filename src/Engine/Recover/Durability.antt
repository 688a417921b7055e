-- ===== src/Engine/Recover/Durability.antt =====
-- A recovery restores what the logs hold.
use enigma.Prelude.{
  ℕ, zero, suc, ◌≤◌, ◌<◌, Option, none, some, List, [], ◌∷◌, ◌++◌, replicate, ◌≡◌, refl, ap, sym,
  ◌∙◌, inl, inr, arith, length, map, All, ◌==◌, Bool-cases, if◌then◌else◌, subst,
}
use mathlib.Core.Option.{some-injective}
use enigma.Error.{Result, ok, err, fault, ok-injective}
use enigma.Storage.{Key, key_ord}
use enigma.SortedMap.{IsSorted}
use enigma.Memtable.{Memtable, get}
use enigma.Memtable.History as History
use enigma.Memtable.History.{Write, run, latest, get-run, run-IsSorted}
use enigma.Wal.Record.{WalRecord, delete_row}
use enigma.Wal.Reader.{Read, Reads, next, read_all, collect}
use enigma.Wal.Reader.Replay.{IsReadable, log, read_all-log}
use enigma.Engine.Recover.{Replay, replay_record, after_next, replay_log, after_log, replay_files}

-- The records of a log, one after the other.
unfoldable pub replay_records : Replay → List WalRecord → Replay
replay_records st [] = st
replay_records st (r ∷ rs) = replay_records (replay_record st r) rs

abbrev replayed : Replay → List WalRecord → Option (Result Replay)
replayed st rs = some (ok (replay_records st rs))

replay_step :
    (result : Result WalRecord) (later : Option (Result (List WalRecord)))
    (more : WalRecord → Option (Result Replay)) (st : Replay) {rs : List WalRecord}
    → collect result later ≡ some (ok rs)
    → ((r : WalRecord) (es : List WalRecord)
        → later ≡ some (ok es)
        → more r ≡ some (ok (replay_records (replay_record st r) es)))
    → after_next result st more ≡ some (ok (replay_records st rs))
unfolding replay_records
replay_step (err e) later more st h k = ap (replayed st) (ok-injective (some-injective _ _ h))
replay_step fault later more st h k = cc
replay_step (ok r) none more st h k = cc
replay_step (ok r) (some (err e)) more st h k = cc
replay_step (ok r) (some fault) more st h k = cc
replay_step (ok r) (some (ok es)) more st h k =
    k r es refl ∙ ap (replayed st) (ok-injective (some-injective _ _ h))

replay_log-read_all :
    (fuel : ℕ) (read : Read) (offset : ℕ) (st : Replay) {rs : List WalRecord}
    → read_all fuel read offset ≡ some (ok rs)
    → replay_log fuel read offset st ≡ some (ok (replay_records st rs))
unfolding read_all replay_log
replay_log-read_all zero read offset st h = cc
replay_log-read_all (suc fuel) read offset st h =
    replay_step (next read offset).0 (read_all fuel read (next read offset).1) _ st h
      (λ r es e. replay_log-read_all fuel read (next read offset).1 (replay_record st r) e)

-- The write of the memtable that a record stands for.
abbrev pub write_of : WalRecord → Write
write_of r =
    if r.op_type == delete_row
    then History.delete_row r.key r.sequence
    else History.put_row r.key r.value r.sequence

memtable-replay_record :
    (st : Replay) (r : WalRecord)
    → (replay_record st r).active_memtable ≡ History.apply st.active_memtable (write_of r)
memtable-replay_record st r = elim (Bool-cases (r.op_type == delete_row)) [
  | inl e ↦ unfold replay_record History.apply in rw e refl
  | inr e ↦ unfold replay_record History.apply in rw e refl
]

memtable-replay_records :
    (st : Replay) (rs : List WalRecord)
    → (replay_records st rs).active_memtable ≡ run st.active_memtable (map write_of rs)
unfolding replay_records run
memtable-replay_records st [] = refl
memtable-replay_records st (r ∷ rs) =
    memtable-replay_records (replay_record st r) rs
    ∙ ap (λ m. run m (map write_of rs)) (memtable-replay_record st r)

highest-replay_record :
    (st : Replay) (r : WalRecord)
    → (st.highest_sequence ≤ (replay_record st r).highest_sequence)
      × (r.sequence ≤ (replay_record st r).highest_sequence)
highest-replay_record st r = unfold replay_record in (ground arith, ground arith)

highest-replay_records :
    (st : Replay) (rs : List WalRecord)
    → (st.highest_sequence ≤ (replay_records st rs).highest_sequence)
      × All (λ (r : WalRecord). r.sequence ≤ (replay_records st rs).highest_sequence) rs
unfolding replay_records
highest-replay_records st [] = (omega arith, tt)
highest-replay_records st (r ∷ rs) =
    let (first, mine) = highest-replay_record st r in
    let (later, all) = highest-replay_records (replay_record st r) rs in
    (omega (arith, first, later), (omega (arith, mine, later), all))

-- No more than the largest of them.
highest-below :
    (b : ℕ) (st : Replay) (rs : List WalRecord)
    → st.highest_sequence < b
    → All (λ (r : WalRecord). r.sequence < b) rs
    → (replay_records st rs).highest_sequence < b
unfolding replay_records
highest-below b st [] h a = h
highest-below b st (r ∷ rs) h a =
    highest-below b (replay_record st r) rs (unfold replay_record in ground (arith, a.0)) a.1

-- The files hold the logs: each its records and zeros behind them.
abbrev pub Holds : ℕ → List (List WalRecord) → List (Result Read) → Type 0
Holds fuel [] [] = Unit
Holds fuel (rs ∷ logs) (ok read ∷ files) =
    ((z : ℕ) × Reads (log rs ++ replicate z 0) read × All IsReadable rs × (length rs < fuel))
    × Holds fuel logs files
Holds fuel _ _ = ⊥

abbrev pub all_records : List (List WalRecord) → List WalRecord
all_records [] = []
all_records (rs ∷ logs) = rs ++ all_records logs

replay_records-append :
    (st : Replay) (rs more : List WalRecord)
    → replay_records st (rs ++ more) ≡ replay_records (replay_records st rs) more
unfolding replay_records
replay_records-append st [] more = refl
replay_records-append st (r ∷ rs) more = replay_records-append (replay_record st r) rs more

replay_files-records :
    (fuel : ℕ) (logs : List (List WalRecord)) (files : List (Result Read)) (st : Replay)
    → Holds fuel logs files
    → replay_files fuel files st ≡ some (ok (replay_records st (all_records logs)))
unfolding replay_files
replay_files-records fuel [] [] st h = unfold replay_records in refl
replay_files-records fuel [] (f ∷ files) st h = absurd h
replay_files-records fuel (rs ∷ logs) [] st h = absurd h
replay_files-records fuel (rs ∷ logs) (err e ∷ files) st h = absurd h
replay_files-records fuel (rs ∷ logs) (fault ∷ files) st h = absurd h
replay_files-records fuel (rs ∷ logs) (ok read ∷ files) st ((z, reads, ready, few), h) =
    ap (λ l. after_log l (λ st'. replay_files fuel files st'))
      (replay_log-read_all fuel read 0 st (read_all-log rs z fuel read reads ready few))
    ∙ replay_files-records fuel logs files (replay_records st rs) h
    ∙ ap (λ x. some (ok x)) (sym (replay_records-append st rs (all_records logs)))

-- What a recovery makes of the memtable and of the sequence numbers.
pub record IsRecovered (st : Replay) (rs : List WalRecord) (st' : Replay) : Type 0 where
  pub contents :
      (j : Key) → get st'.active_memtable j ≡ latest j (get st.active_memtable j) (map write_of rs)
  pub highest : All (λ (r : WalRecord). r.sequence ≤ st'.highest_sequence) rs
  pub below :
      (b : ℕ)
      → st.highest_sequence < b
      → All (λ (r : WalRecord). r.sequence < b) rs
      → st'.highest_sequence < b
  pub sorted : IsSorted st.active_memtable.entries → IsSorted st'.active_memtable.entries

-- Replaying log files that hold the records that were appended to them, zeros behind them allowed,
-- succeeds with a fuel above the number of records of each file. Afterwards a look-up finds what the
-- last record of its key says, the files taken in order, and the highest sequence number is no
-- smaller than that of any record, and below every bound on them and on the one before; a sorted
-- memtable stays sorted.
pub replay_files-IsRecovered :
    (fuel : ℕ) (logs : List (List WalRecord)) (files : List (Result Read)) (st : Replay)
    → Holds fuel logs files
    → (st' : Replay) × (replay_files fuel files st ≡ some (ok st'))
      × IsRecovered st (all_records logs) st'
replay_files-IsRecovered fuel logs files st h =
    let rs = all_records logs in
    let st' = replay_records st rs in
    (
      st',
      replay_files-records fuel logs files st h,
      record {
        contents = λ j.
            ap (λ (m : Memtable). get m j) (memtable-replay_records st rs)
            ∙ get-run st.active_memtable (map write_of rs) j;
        highest = (highest-replay_records st rs).1;
        below = λ b h a. highest-below b st rs h a;
        sorted = λ s.
            subst (λ (m : Memtable). IsSorted m.entries) (sym (memtable-replay_records st rs))
              (run-IsSorted st.active_memtable (map write_of rs) s);
      },
    )
