-- ===== src/Storage.antt =====
-- include/enigmadb/storage/key.h and storage/dazzle_db/internal_value.h: keys are byte strings in
-- lexicographic order; a stored value has its bytes, a tombstone flag and a sequence number.
use enigma.Prelude.{ℕ, List, Bool}
use enigma.Prelude.Ord.{Ord, compare_bytes, compare_bytes-IsLawful}

abbrev pub Key : Type 0
Key = List ℕ

-- `Key::operator<=>`
instance abbrev pub key_ord : Ord Key
key_ord = record { cmp = compare_bytes; laws = compare_bytes-IsLawful }

pub record InternalValue : Type 0 where
  pub bytes : List ℕ
  pub is_tombstone : Bool
  pub sequence : ℕ
