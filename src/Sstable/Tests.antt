-- ===== src/Sstable/Tests.antt =====
-- Tables of a few entries.
use enigma.Prelude.{
  ℕ, ◌<◌, ◌≡◌, refl, arith, Bool, true, false, Option, none, some, List, [], ◌∷◌, ◌++◌, length,
  replicate, length-replicate, take, drop,
}
use enigma.Error.{ok}
use enigma.Storage.{InternalValue, key_ord}
use enigma.SortedMap.{find}
use enigma.Memtable.Contents.{live, tombstone}
use enigma.BloomFilter.{BloomFilter}
use enigma.BloomFilter.Membership.{IsSized}
use enigma.Sstable.{IndexEntry, SstFooter}
use enigma.Sstable.Block.Entries.{IsStorable, entries_bytes}
use enigma.Sstable.Reader.{scan_block}
use enigma.Sstable.Reader.Scan.{scan_block-find}
use enigma.Sstable.Reader.{decode_index}
use enigma.Sstable.Reader.Index.{decode_index-index_block}
use enigma.Sstable.Writer.Finish.{index_block}
use enigma.Sstable.Writer.{SstWriter, Output, new_writer, add}
use enigma.Sstable.Writer.Blocks.{Entries, blocks_bytes, index_of, all_entries}
use enigma.Sstable.Writer.Added.{IsStored}
use enigma.Sstable.Writer.Entries.{add_each, add_each-IsStored}
use enigma.Sstable.Iterator.{SstIterator, seek_to_first}
use enigma.Sstable.Iterator.Steps.{drain}
use enigma.Sstable.Iterator.Drain.{AreStorable, drain-seek_to_first_table}
use enigma.Sstable.Iterator.Oversized.{empty_block, IsEnded, seek_to_first-oversized}

abbrev two_entries : Entries
two_entries = (1 ∷ [], live (10 ∷ 11 ∷ []) 1) ∷ (2 ∷ [], tombstone 2) ∷ []

scan_block-find_example :
    scan_block 3 (2 ∷ []) (entries_bytes two_entries) (length (entries_bytes two_entries)) 0
    ≡ some (ok (find (2 ∷ []) two_entries))
unfolding enigma.Prelude.Ord.compare_bytes
scan_block-find_example =
    scan_block-find 3 (2 ∷ []) two_entries ((refl, tt), (tt, tt))
      (
        record { key_length = omega arith; value_length = omega arith; sequence = omega arith },
        (
          record { key_length = omega arith; value_length = omega arith; sequence = omega arith },
          tt,
        ),
      )
      (omega arith)

abbrev whole_writes : Output
whole_writes = record {
  append = λ file bytes. (file ++ bytes, ok (length bytes));
  sync_all = ok tt;
  sync_directory = λ path. ok tt;
}

abbrev filter : BloomFilter
filter = record { bit_count = 16; num_hashes = 2; bit_array = 0 ∷ 0 ∷ [] }

filter-IsSized : IsSized filter
filter-IsSized = record { bits = refl; some_bits = omega arith }

add_each-IsStored_example :
    (w : SstWriter) × (bs : List Entries) × (pending : Entries) × (add_each whole_writes two_entries
        (new_writer [] filter)
      ≡ (w, ok tt))
    × IsStored w bs pending
    × (all_entries bs ++ pending ≡ two_entries)
add_each-IsStored_example =
    add_each-IsStored whole_writes (λ file bytes. refl) [] filter two_entries filter-IsSized

abbrev footer : SstFooter
footer = record {
  index_block_offset = 0;
  index_block_size = 0;
  filter_block_offset = 0;
  filter_block_size = 3;
  entry_count = 1;
  format_version = 4;
  highest_sequence = 1;
  size_bytes = 0;
}

-- An iterator on a table whose only listed block is the empty one.
abbrev iterator : SstIterator
iterator = record {
  reader = record {
    read = λ count offset. ok (take count (drop offset []));
    index_entries = empty_block ∷ [];
    bloom_filter = filter;
    footer = footer;
  };
  current_block_idx = 0;
  block_buffer = [];
  block_offset = 0;
  current_key = [];
  current_value = live [] 0;
  error = none;
  valid = false;
}

abbrev large : InternalValue
large = live (replicate 4096 1) 1

seek_to_first-oversized_example :
    ((w : SstWriter) × (add whole_writes (1 ∷ []) large (new_writer [] filter) ≡ (w, ok tt))
      × (w.index_entries ≡ empty_block ∷ []))
    × ((it' : SstIterator) × (seek_to_first iterator ≡ ok it') × IsEnded it')
seek_to_first-oversized_example =
    seek_to_first-oversized whole_writes [] filter (1 ∷ []) large iterator [] []
      (λ file bytes. refl) filter-IsSized (omega (arith, length-replicate {A = ℕ} 4096 1)) refl
      (λ count offset. refl)

-- An iterator on a table of two blocks with two entries each.
abbrev two_blocks : List Entries
two_blocks = two_entries ∷ two_entries ∷ []

abbrev table_iterator : SstIterator
table_iterator = record iterator {
  reader = record {
    read = λ count offset. ok (take count (drop offset (blocks_bytes two_blocks ++ [])));
    index_entries = index_of 0 two_blocks;
    bloom_filter = filter;
    footer = footer;
  };
}

two_blocks-AreStorable : AreStorable (all_entries two_blocks)
unfolding all_entries
two_blocks-AreStorable = (one, (two, (one, (two, tt))))
  where
    one : IsStorable (1 ∷ []) (live (10 ∷ 11 ∷ []) 1)
    one = record { key_length = omega arith; value_length = omega arith; sequence = omega arith }

    two : IsStorable (2 ∷ []) (tombstone 2)
    two = record { key_length = omega arith; value_length = omega arith; sequence = omega arith }

drain-seek_to_first_table_example :
    drain 5 (seek_to_first table_iterator) ≡ some (ok (all_entries two_blocks))
unfolding all_entries
drain-seek_to_first_table_example =
    drain-seek_to_first_table 5 table_iterator two_blocks [] refl (λ count offset. refl)
      ((λ e. ground arith), ((λ e. ground arith), tt)) two_blocks-AreStorable (omega arith)

abbrev two_index_entries : List IndexEntry
two_index_entries =
    record { first_key = 1 ∷ []; block_offset = 0; block_size = 300 }
    ∷ record { first_key = 2 ∷ 0 ∷ []; block_offset = 300; block_size = 70 }
    ∷ []

decode_index-index_block_example :
    decode_index 3
      (index_block two_index_entries ++ (4 ∷ 255 ∷ []))
      (length (index_block two_index_entries))
      0
    ≡ some (ok (two_index_entries, length (index_block two_index_entries)))
decode_index-index_block_example =
    decode_index-index_block 3 two_index_entries (4 ∷ 255 ∷ [])
      (
        record { key_length = omega arith; offset = omega arith; size = omega arith },
        (record { key_length = omega arith; offset = omega arith; size = omega arith }, tt),
      )
      (omega arith)
