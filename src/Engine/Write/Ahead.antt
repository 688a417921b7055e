-- ===== src/Engine/Write/Ahead.antt =====
-- A write reaches the log before the memtable.
use enigma.Prelude.{ℕ, ◌+◌, ◌%◌, ◌^◌, Bool, List, ◌≡◌, ◌⊎◌, inl, inr, sym, ◌∙◌}
use enigma.Error.{Result, ok}
use enigma.Io.{after-after}
use enigma.Storage.{Key}
use enigma.Engine.{Services, Dazzle, with_disk}
use enigma.Engine.Calls.{on_disk, FailsAt, with_disk-cases}
use enigma.Engine.Write.{record_of, write_memtable, flush_if_full, put_or_remove}

-- The engine when a write has a number.
abbrev pub numbered : {D : Type 0} → Dazzle D → Dazzle D
numbered st = record st { lsn = (st.lsn + 1) % 2 ^ 64 }

-- The engine when a write has reached the memtable.
abbrev pub applied : {D : Type 0} → Key → List ℕ → Bool → Dazzle D → D → Dazzle D
applied key value remove st d = record (on_disk (numbered st) d) {
  active_memtable = write_memtable remove key value st.lsn st.active_memtable;
}

module _ {D R W : Type 0} (t : Services D R W) where
  -- The record of the write was appended to the log and synced, and then the memtable changed and was
  -- flushed if full.
  pub record IsLogged (key : Key) (value : List ℕ) (remove : Bool) (st st' : Dazzle D)
      (r : Result (Unit {0})) : Type 0 where
    pub d1 : D
    pub d2 : D
    pub d3 : D
    pub time : ℕ
    pub timed : t.timestamp st.disk ≡ (d1, ok time)
    pub appended :
        t.append_wal st.wal_writer (record_of remove time st.lsn key value) d1 ≡ (d2, ok tt)
    pub synced : t.sync_wal st.wal_writer d2 ≡ (d3, ok tt)
    pub rest : flush_if_full t (applied key value remove st d3) ≡ (st', r)

  -- For any services: a put or a removal either appended its record to the log and synced it before
  -- the memtable changed, and then came to what the flush comes to that a full memtable asks for; or it
  -- reports a failure, and nothing but the disk and the counter of writes changed.
  pub put_or_remove-IsLogged :
      (key : Key) (value : List ℕ) (remove : Bool) (st st' : Dazzle D) (r : Result (Unit {0}))
      → put_or_remove t key value remove st ≡ (st', r)
      → IsLogged key value remove st st' r ⊎ FailsAt (numbered st) st' r
  unfolding put_or_remove
  put_or_remove-IsLogged key value remove st st' r e =
      elim (with_disk-cases (numbered st) st' (t.timestamp st.disk) _ r e) [
        | inr failed ↦ inr failed
        | inl (d1, time, timed, e1) ↦
            let row = record_of remove time st.lsn key value in
            elim (with_disk-cases (on_disk (numbered st) d1) st' (t.append_wal st.wal_writer row d1)
              _ r
              (sym (
                  after-after
                    (with_disk (on_disk (numbered st) d1) (t.append_wal st.wal_writer row d1)) _ _)
                ∙ e1)) [
                  | inr failed ↦ inr failed
                  | inl (d2, u2, appended, e2) ↦
                      elim (with_disk-cases (on_disk (numbered st) d2) st'
                        (t.sync_wal st.wal_writer d2) _ r e2) [
                          | inr failed ↦ inr failed
                          | inl (d3, u3, synced, e3) ↦ inl (record {
                            d1 = d1;
                            d2 = d2;
                            d3 = d3;
                            time = time;
                            timed = timed;
                            appended = appended;
                            synced = synced;
                            rest = e3;
                          })
                        ]
                ]
      ]
