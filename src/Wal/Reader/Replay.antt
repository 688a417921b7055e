-- ===== src/Wal/Reader/Replay.antt =====
-- Reading back a log that was written record by record.
use enigma.Prelude.{
  ℕ, zero, suc, ◌+◌, ◌-◌, ◌^◌, ◌≡◌, ◌<◌, ◌≤◌, refl, ap, sym, ◌∙◌, arith, List, [], ◌∷◌, ◌++◌,
  length, take, drop, replicate, append-nil, append_assoc, min, length-replicate, replicate-add,
  drop-add, take-length-append, drop-length-append, some, All, ltb, ◌==◌, false, le→ltb_false,
}
use enigma.Error.{Error, ok, err, error, err_eof}
use enigma.Encoding.{decode_uint32}
use enigma.Encoding.Write.{be_bytes}
use enigma.Encoding.RoundTrip.{decode_loop-fits}
use enigma.Crc32.{compute_crc_32}
use enigma.Wal.Record.{WalRecord, serialize_wal_record}
use enigma.Wal.Record.Layout.{body, length-body, serialize_wal_record-layout}
use enigma.Wal.Record.RoundTrip.{IsStorable, deserialize_wal_record-serialize_wal_record}
use enigma.Wal.Reader.{Read, Reads, overlay, record_size, next, read_all, prepend}

-- A record whose total size, header included, fits the 32 bits in which the reader adds it up.
pub record IsReadable (r : WalRecord) : Type 0 where
  pub storable : IsStorable r
  pub size : 33 + length r.key + length r.value < 2 ^ 32

-- The file after the records were appended one by one.
unfoldable pub log : List WalRecord → List ℕ
log [] = []
log (r ∷ rs) = serialize_wal_record r ++ log rs

pub length-serialize : (r : WalRecord) → length (serialize_wal_record r) ≡ length (body r) + 8
unfolding be_bytes
length-serialize r = rw (serialize_wal_record-layout r) (omega arith)

-- The first eight bytes of a record give its body length.
header_length :
    (r : WalRecord) (back : List ℕ)
    → IsStorable r
    → (length (take 8 (serialize_wal_record r ++ back)) ≡ 8)
      × (decode_uint32 (overlay (take 8 (serialize_wal_record r ++ back)) 9) 0
          ≡ some (length (body r)))
unfolding be_bytes decode_uint32
header_length r back s = rw (serialize_wal_record-layout r) (
  refl,
  decode_loop-fits 4 (length (body r)) [] (be_bytes 4 (compute_crc_32 (body r)) ++ (0 ∷ []))
      (omega (arith, length-body r, s.size)),
)

take_all :
    (r : WalRecord) (back : List ℕ)
    → take (length (body r) + 8) (serialize_wal_record r ++ back) ≡ serialize_wal_record r
take_all r back = rw (← length-serialize r) (take-length-append (serialize_wal_record r) back)

overlay_all :
    (r : WalRecord)
    → overlay (serialize_wal_record r) (length (body r) + 8) ≡ serialize_wal_record r
overlay_all r =
    let e : length (body r) + 8 - length (serialize_wal_record r) ≡ 0 =
      omega (arith, length-serialize r) in
    rw (e, append-nil)

-- `next`, at the place where a record begins, returns that record and moves past it.
pub next-serialize :
    (file : List ℕ) (read : Read) (offset : ℕ) (r : WalRecord) (back : List ℕ)
    → Reads file read
    → drop offset file ≡ serialize_wal_record r ++ back
    → IsReadable r
    → next read offset ≡ (ok r, offset + (length (body r) + 8))
unfolding next
next-serialize file read offset r back h at ready =
    let size : record_size (length (body r)) ≡ length (body r) + 8 =
      omega (arith, length-body r, ready.size) in
    let head : read 8 offset ≡ ok (take 8 (serialize_wal_record r ++ back)) =
      h 8 offset ∙ ap (λ l. ok (take 8 l)) at in
    let whole : read (length (body r) + 8) offset ≡ ok (serialize_wal_record r) =
      h (length (body r) + 8) offset
      ∙ ap (λ l. ok (take (length (body r) + 8) l)) at
      ∙ ap ok (take_all r back) in
    let (eight, field) = header_length r back ready.storable in
    let long : ltb (length (body r)) 25 ≡ false =
      le→ltb_false (length (body r)) 25 (omega (arith, length-body r)) in
    rw (
      head,
      field,
      eight,
      long,
      size,
      whole,
      overlay_all r,
      deserialize_wal_record-serialize_wal_record r ready.storable,
    )

take-replicate : (n z : ℕ) → take n (replicate {A = ℕ} z 0) ≡ replicate (min n z) 0
take-replicate zero z = let e : min zero z ≡ zero = omega arith in rw e
take-replicate (suc n) zero = let e : min (suc n) zero ≡ zero = omega arith in rw e
take-replicate (suc n) (suc z) =
    let e : min (suc n) (suc z) ≡ suc (min n z) = omega arith in
    rw e (ap (λ (l : List ℕ). 0 ∷ l) (take-replicate n z))

overlay-zeros : (m size : ℕ) → m ≤ size → overlay (replicate m 0) size ≡ replicate size 0
overlay-zeros m size h =
    let l = length-replicate {A = ℕ} m 0 in
    let e : m + (size - m) ≡ size = omega arith in
    rw l (sym (replicate-add {A = ℕ} m (size - m) 0) ∙ ap (λ k. replicate k 0) e)

no_length : decode_uint32 (replicate 9 0) 0 ≡ some 0
unfolding decode_uint32
no_length = refl

-- The two ways in which a log ends.
abbrev pub ending : ℕ → Error
ending zero = error err_eof "end of WAL file"
ending (suc z) = error err_eof "wal reader encountered eof"

-- Where the file ends, or goes on with zeros, there is no further record.
pub next-zeros :
    (file : List ℕ) (read : Read) (offset z : ℕ)
    → Reads file read
    → drop offset file ≡ replicate z 0
    → next read offset ≡ (err (ending z), offset)
unfolding next
next-zeros file read offset zero h at =
    let head : read 8 offset ≡ ok [] = h 8 offset ∙ ap (λ l. ok (take 8 l)) at in rw head
next-zeros file read offset (suc z) h at =
    let m = min 8 (suc z) in
    let head : read 8 offset ≡ ok (replicate m 0) =
      h 8 offset ∙ ap (λ l. ok (take 8 l)) at ∙ ap ok (take-replicate 8 (suc z)) in
    let field : decode_uint32 (overlay (replicate m 0) 9) 0 ≡ some 0 =
      rw (overlay-zeros m 9 (omega arith)) no_length in
    let some_bytes : (length (replicate {A = ℕ} m 0) == 0) ≡ false =
      rw (length-replicate {A = ℕ} m 0) (ground arith) in
    rw (head, field, some_bytes)

drop-serialize :
    (file : List ℕ) (offset : ℕ) (r : WalRecord) (back : List ℕ)
    → drop offset file ≡ serialize_wal_record r ++ back
    → drop (offset + (length (body r) + 8)) file ≡ back
drop-serialize file offset r back at =
    drop-add offset (length (body r) + 8) file
    ∙ ap (drop (length (body r) + 8)) at
    ∙ ap (λ n. drop n (serialize_wal_record r ++ back)) (sym (length-serialize r))
    ∙ drop-length-append (serialize_wal_record r) back

read_all_step :
    (fuel : ℕ) (read : Read) (offset : ℕ) {offset' : ℕ} {r : WalRecord} {rs : List WalRecord}
    → next read offset ≡ (ok r, offset')
    → read_all fuel read offset' ≡ some (ok rs)
    → read_all (suc fuel) read offset ≡ some (ok (r ∷ rs))
read_all_step fuel read offset {r = r} now later = unfold read_all in rw now (ap (prepend r) later)

read_all-from :
    (rs : List WalRecord) (fuel : ℕ) (file : List ℕ) (read : Read) (offset z : ℕ)
    → Reads file read
    → drop offset file ≡ log rs ++ replicate z 0
    → All IsReadable rs
    → length rs < fuel
    → read_all fuel read offset ≡ some (ok rs)
read_all-from rs zero file read offset z h at ready few = absurd (omega arith)
read_all-from [] (suc fuel) file read offset z h at ready few =
    unfold read_all log in rw (next-zeros file read offset z h at)
read_all-from (r ∷ rs) (suc fuel) file read offset z h at ready few =
    let rest = log rs ++ replicate z 0 in
    let at' : drop offset file ≡ serialize_wal_record r ++ rest =
      at ∙ unfold log in append_assoc (serialize_wal_record r) (log rs) (replicate z 0) in
    let now = next-serialize file read offset r rest h at' ready.0 in
    let later =
      read_all-from rs fuel file read (offset + (length (body r) + 8)) z h
        (drop-serialize file offset r rest at') ready.1 (omega arith) in
    read_all_step fuel read offset now later

-- Reading a log to its end gives back the records that were appended, in order, also where the file
-- was left with zeros behind them, provided each record's size fits 32 bits. A fuel above the
-- number of records is enough.
pub read_all-log :
    (rs : List WalRecord) (z fuel : ℕ) (read : Read)
    → Reads (log rs ++ replicate z 0) read
    → All IsReadable rs
    → length rs < fuel
    → read_all fuel read 0 ≡ some (ok rs)
read_all-log rs z fuel read h ready few =
    read_all-from rs fuel (log rs ++ replicate z 0) read 0 z h refl ready few
