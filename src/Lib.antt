-- ===== src/Lib.antt =====
-- EnigmaDB, a log-structured storage engine. A write is appended to the write-ahead log
-- (src/storage/dazzle_db/wal) and put into the memtable (src/storage/dazzle_db/memtable); a full
-- memtable becomes an SSTable, and SSTables are merged by a merge iterator
-- (src/storage/dazzle_db/merge_iterator.cpp). Keys are byte strings, made of the fields of a row by
-- src/catalog/key_encoding.cpp. Integers on disk are big-endian (src/encoding.cpp), and blocks and
-- records carry a checksum (src/crc32.cpp).
--
-- Which file models which part:
--   Prelude     shared names, tests, lists, orders and bitwise operations
--   Error       include/enigmadb/error.h and result.h; `fault` is a run whose behaviour is undefined
--   Encoding    src/encoding.cpp: encode_uint8 to encode_uint64, decode_uint8 to decode_uint64,
--               encode_bytes; a write of `n` bytes is `encode_loop n`, a read `decode_loop n`
--   Crc32       src/crc32.cpp: compute_crc_32 with its table
--   Catalog     src/catalog/key_encoding.cpp: encode_composite_key and decode_composite_key
--   Storage     include/enigmadb/storage/key.h and storage/dazzle_db/internal_value.h
--   SortedMap   std::map, as a sorted association list
--   Memtable    src/storage/dazzle_db/memtable/memtable.cpp: put, remove, get, should_flush
--   Wal         Record is src/storage/dazzle_db/wal/wal_record.cpp, Writer is wal_writer.cpp, Reader is
--               wal_reader.cpp and the loop of Dazzle::recover over one log file
--   MergeIterator   src/storage/dazzle_db/merge_iterator.cpp: seek_to_first, next, status
--   VersionSet  include/enigmadb/storage/dazzle_db/core/version_set.h: apply, append_version and
--               purge_obsolete_files, with the readers that hold shared pointers to versions
--   Compaction  src/storage/dazzle_db/compaction: compaction.cpp over the operations of `Tables`,
--               TombstoneGc is tombstone_gc.cpp and Policy is compaction_policy.cpp
--   Hash        src/hash.cpp: Hash
--   BloomFilter src/bloom_filter.cpp: add, may_contain and the loop of from_keys
--   Sstable     src/storage/dazzle_db/sstable: Writer (add and flush_block; Finish is its finish),
--               Reader (create and get) and Iterator are the classes of those names, Block the
--               decoding of one entry
--   Io          the style of methods that return a Result and change an object
--   Engine      src/storage/dazzle_db/dazzle_engine.cpp, one call at a time, over the operations of
--               `Services`: Lookup is Version::lookup and Dazzle::get, Compact the compactions and the
--               changes of versions, Flush, Write (put and remove) and Open (recover and open) are the
--               methods of those names, Recover the replay of the log files, Calls the cases of a call of a
--               service, Memory a disk in memory for the tests
--   PosixIoEngine   src/io/posix_io_engine.cpp: read and append
--   Hlc         src/hlc.cpp: TimestampGenerator::next as interleaved steps of threads
-- State is passed explicitly: a method that changes its object returns the new one. Native integers
-- are naturals, and a sum or difference that can wrap has its `% 2 ^ w` written out. File reads go
-- through a parameter of type `Read`, of which `Reads` states the documented behaviour.
--
-- Fuel: the loop over a log takes one round for each record, so a fuel above their number, or above
-- the number of bytes of the file, is enough; the loops of the merge iterator take one round for each
-- entry that the sources still hold, which `heap_size` counts; a loop over a table's iterator takes
-- one for each entry of the table and one more; the loops around system calls take one round for each
-- byte and each interrupted call at most.
--
-- Not modelled: logging, the system calls under the POSIX I/O engine, locks, the constructors that open
-- files. The caches are outside the development: the engine
-- reaches the tables through the operations of `Services`, of which nothing is taken for granted.
pub mod BloomFilter
pub mod Catalog
pub mod Compaction
pub mod Crc32
pub mod Encoding
pub mod Engine
pub mod Error
pub mod Hash
pub mod Hlc
pub mod Io
pub mod Memtable
pub mod MergeIterator
pub mod PosixIoEngine
pub mod Prelude
pub mod SortedMap
pub mod Sstable
pub mod Storage
pub mod VersionSet
pub mod Wal
