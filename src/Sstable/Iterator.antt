-- ===== src/Sstable/Iterator.antt =====
-- src/storage/dazzle_db/sstable/sstable_iterator.cpp. Where `next` ends in an error, its key, value and
-- offset may be half updated; they are left as they were here, since nothing reads them then.
pub mod Oversized
pub mod Load
pub mod Steps
pub mod Drain
use enigma.Prelude.{
  ℕ, ◌+◌, ◌-◌, Bool, true, false, Option, none, some, List, [], ◌∷◌, ◌++◌, length, take, drop,
  replicate, get_elem?, leb, if◌then◌else◌,
}
use enigma.Error.{Result, Error, ok, err, fault, in_range, ◌>>=◌}
use enigma.Storage.{Key, InternalValue}
use enigma.Sstable.{IndexEntry}
use enigma.Sstable.Block.{next_messages, read_head, read_tail}
use enigma.Sstable.Reader.{SstReader}

pub record SstIterator : Type 0 where
  pub reader : SstReader
  pub current_block_idx : ℕ
  pub block_buffer : List ℕ
  pub block_offset : ℕ
  pub current_key : Key
  pub current_value : InternalValue
  pub error : Option Error
  pub valid : Bool

-- `SSTableIterator::status`
abbrev pub status : SstIterator → Result (Unit {0})
status it = elim it.error [ some e ↦ err e | none ↦ ok tt ]

-- `SSTableIterator::set_error`
abbrev pub set_error : SstIterator → Error → SstIterator
set_error it e = record it { error = some e; valid = false }

-- `block_buffer_.resize(n)`
abbrev pub resize : List ℕ → ℕ → List ℕ
resize buffer n = take n buffer ++ replicate (n - length buffer) 0

-- What a block's read makes of the iterator, and what `load_block` returns.
abbrev pub after_read : SstIterator → Result (List ℕ) → Result (SstIterator × Bool)
after_read it fault = fault
after_read it (err e) = ok (set_error it e, false)
after_read it (ok bytes) =
    ok (record it { block_buffer = bytes ++ drop (length bytes) it.block_buffer }, true)

-- `SSTableIterator::load_block`
unfoldable pub load_block : SstIterator → Result (SstIterator × Bool)
load_block it = in_range (get_elem? it.reader.index_entries it.current_block_idx) >>= λ entry.
    after_read
      (record it { block_buffer = resize it.block_buffer entry.block_size; block_offset = 0 })
      (it.reader.read entry.block_size entry.block_offset)

-- The entry at the offset becomes the current one.
abbrev pub after_entry : SstIterator → Result (Key × InternalValue × ℕ) → Result SstIterator
after_entry it fault = fault
after_entry it (err e) = ok (set_error it e)
after_entry it (ok (key, value, offset)) =
    ok (record it { current_key = key; current_value = value; block_offset = offset; valid = true })

-- The entry at an offset of a block, and the offset behind it.
unfoldable pub read_entry : List ℕ → ℕ → ℕ → Result (Key × InternalValue × ℕ)
read_entry block size offset = read_head next_messages block size offset >>= λ h.
    read_tail block size h.1 h.2 >>= λ value. ok (h.0, value, h.1 + h.2 + 9)

-- `next` from the check of the buffer on.
abbrev pub decode_at : SstIterator → List ℕ → Result SstIterator
decode_at it [] = ok (record it { valid = false })
decode_at it (b ∷ bs) =
    in_range (get_elem? it.reader.index_entries it.current_block_idx) >>= λ entry.
    after_entry it (read_entry it.block_buffer entry.block_size it.block_offset)

unfoldable pub decode_entry : SstIterator → Result SstIterator
decode_entry it = decode_at it it.block_buffer

-- `if (!load_block()) return;`
abbrev pub after_load : SstIterator × Bool → Result SstIterator
after_load (it, false) = ok it
after_load (it, true) = decode_entry it

-- The next block, where there is one.
abbrev pub next_block : SstIterator → Result SstIterator
next_block it =
    let moved : SstIterator = record it { current_block_idx = it.current_block_idx + 1 } in
    if leb (length it.reader.index_entries) moved.current_block_idx
    then ok (record moved { valid = false })
    else load_block moved >>= after_load

-- `next`, where no error stands.
abbrev pub advance : SstIterator → List ℕ → Result SstIterator
advance it [] = decode_entry it
advance it (b ∷ bs) = in_range (get_elem? it.reader.index_entries it.current_block_idx) >>= λ entry.
    if leb entry.block_size it.block_offset then next_block it else decode_entry it

-- `if (error_.has_value()) return;`
abbrev pub unless_failed : SstIterator → Option Error → Result SstIterator
unless_failed it (some e) = ok it
unless_failed it none = advance it it.block_buffer

-- `SSTableIterator::next`
unfoldable pub next : SstIterator → Result SstIterator
next it = unless_failed it it.error

-- `if (!load_block()) return; next();`
abbrev pub after_first : SstIterator × Bool → Result SstIterator
after_first (it, false) = ok it
after_first (it, true) = next it

abbrev pub rewound : SstIterator → SstIterator
rewound it = record it {
  current_block_idx = 0;
  block_buffer = [];
  block_offset = 0;
  error = none;
  valid = false;
}

abbrev pub seek : SstIterator → List IndexEntry → Result SstIterator
seek it [] = ok it
seek it (entry ∷ entries) = load_block it >>= after_first

-- `SSTableIterator::seek_to_first`
unfoldable pub seek_to_first : SstIterator → Result SstIterator
seek_to_first it = seek (rewound it) it.reader.index_entries
