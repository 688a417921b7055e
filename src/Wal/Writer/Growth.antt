-- ===== src/Wal/Writer/Growth.antt =====
-- What appending records makes of the log file.
use enigma.Prelude.{
  ℕ, ◌+◌, ◌<◌, some, List, [], ◌∷◌, ◌++◌, length, ◌≡◌, ap, sym, ◌∙◌, All, append_assoc, append-nil,
}
use enigma.Error.{ok}
use enigma.Wal.Record.{WalRecord, serialize_wal_record}
use enigma.Wal.Reader.Replay.{log}
use enigma.PosixIoEngine.{WriteCall}
use enigma.PosixIoEngine.Transfer.{IsWrite, append_complete}
use enigma.Wal.Writer.{after_append, append_record, then_append, append_records}

module _ (k : ℕ) (write : WriteCall) (w : IsWrite k write) where
  append_record_complete :
      (fuel : ℕ) (file : List ℕ) (r : WalRecord)
      → k + length (serialize_wal_record r) < fuel
      → append_record fuel write file r ≡ some (file ++ serialize_wal_record r, ok tt)
  append_record_complete fuel file r few =
      unfold append_record in
      ap after_append (append_complete k write w fuel file (serialize_wal_record r) few)

  -- Where `write` does not fail and is interrupted only in the first `k` calls of each append,
  -- appending records one by one succeeds and leaves their log at the end of the file, in order. A
  -- fuel above `k` and the size of each record together is enough.
  pub append_records-log :
      (fuel : ℕ) (file : List ℕ) (rs : List WalRecord)
      → All (λ (r : WalRecord). k + length (serialize_wal_record r) < fuel) rs
      → append_records fuel write file rs ≡ some (file ++ log rs, ok tt)
  unfolding append_records log
  append_records-log fuel file [] a = ap (λ l. some (l, ok tt)) (sym (append-nil file))
  append_records-log fuel file (r ∷ rs) a =
      ap (λ x. then_append x (λ grown. append_records fuel write grown rs))
        (append_record_complete fuel file r a.0)
      ∙ append_records-log fuel (file ++ serialize_wal_record r) rs a.1
      ∙ ap (λ l. some (l, ok tt)) (append_assoc file (serialize_wal_record r) (log rs))
