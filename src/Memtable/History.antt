-- ===== src/Memtable/History.antt =====
-- A memtable after any sequence of writes: the last write of each key counts, the entries are
-- sorted, and the byte counter is exact.
use enigma.Prelude.{
  ℕ, ◌^◌, ◌<◌, Option, some, List, [], ◌∷◌, ◌≡◌, refl, arith, ◌∙◌, leb, if◌then◌else◌,
}
use enigma.Storage.{Key, InternalValue, key_ord}
use enigma.SortedMap.{same, IsSorted}
use enigma.Memtable.{Memtable, empty, put, remove, get, should_flush}
use enigma.Memtable.Contents.{live, tombstone, get-put-remove, put-remove-IsSorted}
use enigma.Memtable.Size.{total_bytes, IsCounted, empty-IsCounted, put-IsCounted, remove-IsCounted}

pub data Write : Type 0 where
  put_row : Key → List ℕ → ℕ → Write
  delete_row : Key → ℕ → Write

unfoldable pub apply : Memtable → Write → Memtable
apply m (put_row key value sequence) = put m key value sequence
apply m (delete_row key sequence) = remove m key sequence

unfoldable pub run : Memtable → List Write → Memtable
run m [] = m
run m (w ∷ ws) = run (apply m w) ws

-- What the last write of `j` left, or what was there before.
unfoldable pub latest : Key → Option InternalValue → List Write → Option InternalValue
latest j before [] = before
latest j before (put_row key value sequence ∷ ws) =
    latest j (if same key j then some (live value sequence) else before) ws
latest j before (delete_row key sequence ∷ ws) =
    latest j (if same key j then some (tombstone sequence) else before) ws

-- `get` after any writes finds what the last write of that key left: its value, or a tombstone.
pub get-run : (m : Memtable) (ws : List Write) (j : Key) → get (run m ws) j ≡ latest j (get m j) ws
unfolding run latest apply
get-run m [] j = refl
get-run m (put_row key value sequence ∷ ws) j =
    rw (← (get-put-remove m key j value sequence).0) (get-run (put m key value sequence) ws j)
get-run m (delete_row key sequence ∷ ws) j =
    rw (← (get-put-remove m key j [] sequence).1) (get-run (remove m key sequence) ws j)

pub run-IsSorted :
    (m : Memtable) (ws : List Write) → IsSorted m.entries → IsSorted (run m ws).entries
unfolding run apply
run-IsSorted m [] s = s
run-IsSorted m (put_row key value sequence ∷ ws) s =
    run-IsSorted (put m key value sequence) ws (put-remove-IsSorted m key value sequence s).0
run-IsSorted m (delete_row key sequence ∷ ws) s =
    run-IsSorted (remove m key sequence) ws (put-remove-IsSorted m key [] sequence s).1

pub run-IsCounted : (m : Memtable) (ws : List Write) → IsCounted m → IsCounted (run m ws)
unfolding run apply
run-IsCounted m [] c = c
run-IsCounted m (put_row key value sequence ∷ ws) c =
    run-IsCounted (put m key value sequence) ws (put-IsCounted m key value sequence c)
run-IsCounted m (delete_row key sequence ∷ ws) c =
    run-IsCounted (remove m key sequence) ws (remove-IsCounted m key sequence c)

max-run : (m : Memtable) (ws : List Write) → (run m ws).max_memtable_size ≡ m.max_memtable_size
unfolding run apply put remove
max-run m [] = refl
max-run m (put_row key value sequence ∷ ws) = max-run (put m key value sequence) ws ∙ ground arith
max-run m (delete_row key sequence ∷ ws) = max-run (remove m key sequence) ws ∙ ground arith

-- A memtable that was filled by any writes, and whose keys and values take fewer than 2^64 bytes in
-- all, asks to be flushed exactly when those bytes have reached the configured threshold.
pub should_flush-run :
    (flush_after : ℕ) (ws : List Write)
    → total_bytes (run (empty flush_after) ws).entries < 2 ^ 64
    → should_flush (run (empty flush_after) ws)
      ≡ leb flush_after (total_bytes (run (empty flush_after) ws).entries)
unfolding should_flush
should_flush-run flush_after ws h =
    let c = run-IsCounted (empty flush_after) ws (empty-IsCounted flush_after) in
    let e : (run (empty flush_after) ws).bytes ≡ total_bytes (run (empty flush_after) ws).entries =
      omega (arith, c.counted) in
    rw (max-run (empty flush_after) ws, e)
