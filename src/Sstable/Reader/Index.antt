-- ===== src/Sstable/Reader/Index.antt =====
-- The index block: what `SSTableWriter::finish` writes, and what `SSTableReader::create` reads of it.
use enigma.Prelude.{
  ℕ, zero, suc, ◌+◌, ◌^◌, ◌<◌, ◌≡◌, refl, sym, ◌∙◌, ap, subst, arith, true, false, some, List, [],
  ◌∷◌, ◌++◌, length, leb, ltb, length-append, append_assoc, All,
}
use enigma.Error.{ok}
use enigma.Encoding.{
  Buffer, encode_uint32, encode_uint64, encode_bytes, decode_uint32, decode_uint64,
}
use enigma.Encoding.Write.{
  be_bytes, length-be_bytes, Filled, fresh-Filled, write_bytes-Filled, encode_loop-Filled,
}
use enigma.Encoding.Segment.{At, At-first, At-second, At-whole, At-uint32, At-uint64}
use enigma.Sstable.{IndexEntry, slice}
use enigma.Sstable.Block.Entries.{At-slice, le→leb}
use enigma.Sstable.Writer.Finish.{index_size, write_index, index_block}
use enigma.Sstable.Reader.{decode_index_entry, decode_index}

-- The numbers of an index entry fit their fields.
pub record IsIndexable (e : IndexEntry) : Type 0 where
  pub key_length : length e.first_key < 2 ^ 32
  pub offset : e.block_offset < 2 ^ 64
  pub size : e.block_size < 2 ^ 32

abbrev place_bytes : IndexEntry → List ℕ
place_bytes e = be_bytes 8 e.block_offset ++ be_bytes 4 e.block_size

abbrev index_entry_bytes : IndexEntry → List ℕ
index_entry_bytes e = be_bytes 4 (length e.first_key) ++ (e.first_key ++ place_bytes e)

unfoldable index_bytes : List IndexEntry → List ℕ
index_bytes [] = []
index_bytes (e ∷ es) = index_entry_bytes e ++ index_bytes es

length-index_entry_bytes :
    (e : IndexEntry) → length (index_entry_bytes e) ≡ 4 + length e.first_key + 8 + 4
length-index_entry_bytes e = omega (
  arith,
  length-be_bytes 4 (length e.first_key),
  length-be_bytes 8 e.block_offset,
  length-be_bytes 4 e.block_size,
  length-append (be_bytes 4 (length e.first_key)) (e.first_key ++ place_bytes e),
  length-append e.first_key (place_bytes e),
  length-append (be_bytes 8 e.block_offset) (be_bytes 4 e.block_size),
)

length-index_bytes : (es : List IndexEntry) → length (index_bytes es) ≡ index_size es
unfolding index_bytes index_size
length-index_bytes [] = refl
length-index_bytes (e ∷ es) = omega (
  arith,
  length-index_entry_bytes e,
  length-append (index_entry_bytes e) (index_bytes es),
  length-index_bytes es,
)

write_index-Filled :
    (es : List IndexEntry) (buffer : Buffer) (at : ℕ) (written : List ℕ) (room : ℕ)
    → room ≡ index_size es
    → Filled (buffer, at) written room
    → write_index es buffer at ≡ written ++ index_bytes es
unfolding write_index encode_uint32 encode_uint64 encode_bytes index_size index_bytes
write_index-Filled [] buffer at written room e f = f.contents ∙ rw e refl
write_index-Filled (x ∷ es) buffer at written room e f =
    let k = length x.first_key in
    let n = index_size es in
    let f1 = encode_loop-Filled 4 k _ _ _ _ (k + 12 + n) (omega (arith, e)) f in
    let f2 = write_bytes-Filled x.first_key _ _ _ _ (12 + n) (omega arith) f1 in
    let f3 = encode_loop-Filled 8 x.block_offset _ _ _ _ (4 + n) (omega arith) f2 in
    let f4 = encode_loop-Filled 4 x.block_size _ _ _ _ n (omega arith) f3 in
    write_index-Filled es _ _ _ n refl f4 ∙ simp append_assoc

index_block-bytes : (es : List IndexEntry) → index_block es ≡ index_bytes es
unfolding index_block
index_block-bytes es =
    write_index-Filled es _ 0 [] (index_size es) refl (fresh-Filled (index_size es))

decode_index_entry-steps :
    (buffer : Buffer) (size offset key_len block_offset block_size : ℕ) {key : List ℕ}
    → leb (offset + 4) size ≡ true
    → decode_uint32 buffer offset ≡ some key_len
    → leb (offset + 4 + key_len + 8 + 4) size ≡ true
    → slice buffer (offset + 4) key_len ≡ some key
    → decode_uint64 buffer (offset + 4 + key_len) ≡ some block_offset
    → decode_uint32 buffer (offset + 4 + key_len + 8) ≡ some block_size
    → decode_index_entry buffer size offset
      ≡ ok (
        (record { first_key = key; block_offset = block_offset; block_size = block_size }),
        offset + 4 + key_len + 8 + 4,
      )
decode_index_entry-steps buffer size offset key_len block_offset block_size e1 e2 e3 e4 e5 e6 =
    unfold decode_index_entry in ground arith

decode_index_entry-At :
    (buffer : Buffer) (size offset : ℕ) (e : IndexEntry)
    → IsIndexable e
    → offset + length (index_entry_bytes e) < suc size
    → At buffer offset (index_entry_bytes e)
    → decode_index_entry buffer size offset ≡ ok (e, offset + length (index_entry_bytes e))
decode_index_entry-At buffer size offset e s fits a =
    let k = length e.first_key in
    let n = length-index_entry_bytes e in
    let n4 = length-be_bytes 4 k in
    let a1 = At-second buffer offset (be_bytes 4 k) _ a in
    let a2 = At-second buffer _ e.first_key _ a1 in
    let a3 = At-second buffer _ (be_bytes 8 e.block_offset) _ a2 in
    decode_index_entry-steps buffer size offset k e.block_offset e.block_size
      (le→leb _ _ (omega (arith, fits, n)))
      (At-uint32 k buffer offset s.key_length (At-first buffer offset (be_bytes 4 k) _ a))
      (le→leb _ _ (omega (arith, fits, n)))
      (At-slice buffer (offset + 4) e.first_key (
        subst (λ o. At buffer o e.first_key) (omega (arith, n4))
          (At-first buffer _ e.first_key _ a1)))
      (At-uint64 e.block_offset buffer (offset + 4 + k) s.offset (
        subst (λ o. At buffer o (be_bytes 8 e.block_offset)) (omega (arith, n4))
          (At-first buffer _ (be_bytes 8 e.block_offset) _ a2)))
      (At-uint32 e.block_size buffer (offset + 4 + k + 8) s.size (
        subst (λ o. At buffer o (be_bytes 4 e.block_size))
          (omega (arith, n4, length-be_bytes 8 e.block_offset)) a3))
    ∙ ap (λ o. ok (e, o)) (omega (arith, n))

decode_index-more :
    (fuel : ℕ) (buffer : Buffer) (size offset offset' : ℕ) (e : IndexEntry) (es : List IndexEntry)
    → ltb offset size ≡ true
    → decode_index_entry buffer size offset ≡ ok (e, offset')
    → decode_index fuel buffer size offset' ≡ some (ok (es, size))
    → decode_index (suc fuel) buffer size offset ≡ some (ok (e ∷ es, size))
decode_index-more fuel buffer size offset offset' e es more here later =
    unfold decode_index in rw (more, here, later) refl

decode_index-end :
    (fuel : ℕ) (buffer : Buffer) (size offset : ℕ)
    → ltb offset size ≡ false
    → offset ≡ size
    → decode_index (suc fuel) buffer size offset ≡ some (ok ([], size))
decode_index-end fuel buffer size offset over same =
    unfold decode_index in rw over (ap (λ o. some (ok ([], o))) same)

decode_index-At :
    (fuel : ℕ) (buffer : Buffer) (size offset : ℕ) (es : List IndexEntry)
    → All IsIndexable es
    → offset + length (index_bytes es) ≡ size
    → At buffer offset (index_bytes es)
    → length es < fuel
    → decode_index fuel buffer size offset ≡ some (ok (es, size))
unfolding index_bytes
decode_index-At zero buffer size offset es fit ends a less = absurd (omega arith)
decode_index-At (suc fuel) buffer size offset [] fit ends a less =
    decode_index-end fuel buffer size offset (ground arith) (omega (arith, ends))
decode_index-At (suc fuel) buffer size offset (e ∷ es) fit ends a less =
    let n = length-append (index_entry_bytes e) (index_bytes es) in
    let k = length-index_entry_bytes e in
    let inside : offset < size = omega (arith, ends, n, k) in
    decode_index-more fuel buffer size offset (offset + length (index_entry_bytes e)) e es
      (ground arith)
      (decode_index_entry-At buffer size offset e fit.0 (omega (arith, ends, n))
        (At-first buffer offset (index_entry_bytes e) (index_bytes es) a))
      (decode_index-At fuel buffer size (offset + length (index_entry_bytes e)) es fit.1
        (omega (arith, ends, n)) (At-second buffer offset (index_entry_bytes e) (index_bytes es) a)
        (omega (arith, less)))

-- Where the numbers of the entries of an index fit their fields, reading the index block that was
-- written for them, with any bytes behind it, gives the entries back, and the offset behind the block;
-- a fuel above the number of the entries is enough.
pub decode_index-index_block :
    (fuel : ℕ) (es : List IndexEntry) (behind : List ℕ)
    → All IsIndexable es
    → length es < fuel
    → decode_index fuel (index_block es ++ behind) (length (index_block es)) 0
      ≡ some (ok (es, length (index_block es)))
decode_index-index_block fuel es behind fit less =
    let e = index_block-bytes es in
    decode_index-At fuel (index_block es ++ behind) (length (index_block es)) 0 es fit
      (omega (arith, ap length e))
      (subst (λ b. At (b ++ behind) 0 (index_bytes es)) (sym e)
        (At-whole [] (index_bytes es) behind))
      less
