-- ===== src/Catalog/KeyEncoding/RoundTrip.antt =====
-- Encoding and decoding of composite keys are inverse to one another.
use enigma.Prelude.{
  ℕ, zero, suc, Option, some, List, [], ◌∷◌, ◌++◌, ◌==◌, ◌≡◌, refl, arith, append_assoc, append-nil,
  ap, subst, ◌∙◌, Bool-cases, inl, inr,
}
use enigma.Error.{ok, >>=-eq-ok, or_err, or_err-eq-ok, ok-injective}
use enigma.Catalog.KeyEncoding.{
  CompositeKey, escape, encode_composite_key, decode_field, decode_composite_key,
}

escape-zero : (field : List ℕ) → escape (zero ∷ field) ≡ 0x00 ∷ 0xFF ∷ escape field
unfolding escape
escape-zero field = refl

escape-suc : (b : ℕ) (field : List ℕ) → escape (suc b ∷ field) ≡ suc b ∷ escape field
unfolding escape
escape-suc b field = ground arith

-- A field and its terminator are read back, and what follows is left.
pub decode_field-escape :
    (field target rest : List ℕ)
    → decode_field target (escape field ++ (0x00 ∷ 0x01 ∷ rest)) ≡ some (target ++ field, rest)
unfolding decode_field
decode_field-escape [] target rest = unfold escape in rw append-nil
decode_field-escape (zero ∷ field) target rest = rw (escape-zero field) (
    decode_field-escape field (target ++ (0 ∷ [])) rest
    ∙ ap (λ t. some (t, rest)) (append_assoc target (0 ∷ []) field))
decode_field-escape (suc b ∷ field) target rest = rw (escape-suc b field) (
    decode_field-escape field (target ++ (suc b ∷ [])) rest
    ∙ ap (λ t. some (t, rest)) (append_assoc target (suc b ∷ []) field))

-- Whatever `decode_field` accepts begins with an escaped field and its terminator.
pub decode_field_sound :
    (it target target' rest : List ℕ)
    → decode_field target it ≡ some (target', rest)
    → (field : List ℕ) × (target' ≡ target ++ field) × (it ≡ escape field ++ (0x00 ∷ 0x01 ∷ rest))
unfolding decode_field
decode_field_sound [] target target' rest h = cc
decode_field_sound (zero ∷ []) target target' rest h = cc
decode_field_sound (zero ∷ next ∷ it) target target' rest h = elim (Bool-cases (next == 0xFF)) [
  | inl escaped ↦
      let h' : decode_field (target ++ (0 ∷ [])) it ≡ some (target', rest) = ground arith in
      let e : next ≡ 0xFF = ground arith in
      let (field, t, i) = decode_field_sound it (target ++ (0 ∷ [])) target' rest h' in
      (
        0 ∷ field,
        t ∙ append_assoc target (0 ∷ []) field,
        rw (escape-zero field, e) (ap (λ l. 0 ∷ 0xFF ∷ l) i),
      )
  | inr plain ↦ elim (Bool-cases (next == 0x01)) [
    | inl end ↦
        let h' : ◌≡◌ {A = Option (List ℕ × List ℕ)} (some (target, it)) (some (target', rest)) =
          ground arith in
        let e : next ≡ 0x01 = ground arith in
        ([], rw append-nil (ground arith), unfold escape in ground arith)
    | inr bad ↦ ground arith
  ]
]
decode_field_sound (suc b ∷ it) target target' rest h =
    let (field, t, i) = decode_field_sound it (target ++ (suc b ∷ [])) target' rest h in
    (
      suc b ∷ field,
      t ∙ append_assoc target (suc b ∷ []) field,
      rw (escape-suc b field) (ap (◌∷◌ (suc b)) i),
    )

abbrev pub encode : CompositeKey → List ℕ
encode k = encode_composite_key k.partition_key k.clustering_key k.column_name

encode-append :
    (k : CompositeKey) (rest : List ℕ)
    → encode k ++ rest
      ≡ escape k.partition_key
        ++ (0 ∷ 1 ∷ (escape k.clustering_key ++ (0 ∷ 1 ∷ (escape k.column_name ++ (0 ∷ 1 ∷ rest)))))
unfolding encode_composite_key
encode-append k rest = simp append_assoc

-- Decoding an encoded key gives the three fields back, whatever bytes follow it.
pub decode_composite_key-encode_composite_key :
    (k : CompositeKey) (rest : List ℕ) → decode_composite_key (encode k ++ rest) ≡ ok k
unfolding decode_composite_key
decode_composite_key-encode_composite_key k rest =
    let column = escape k.column_name ++ (0 ∷ 1 ∷ rest) in
    let clustering = escape k.clustering_key ++ (0 ∷ 1 ∷ column) in
    rw (encode-append k rest) (
      ground (
        arith,
        decode_field-escape k.partition_key [] clustering,
        decode_field-escape k.clustering_key [] column,
        decode_field-escape k.column_name [] rest,
      ))

assemble :
    (encoded p c n it it' rest : List ℕ) (k : CompositeKey)
    → encoded ≡ escape p ++ (0 ∷ 1 ∷ it)
    → it ≡ escape c ++ (0 ∷ 1 ∷ it')
    → it' ≡ escape n ++ (0 ∷ 1 ∷ rest)
    → record { partition_key = p; clustering_key = c; column_name = n } ≡ k
    → encoded ≡ encode k ++ rest
assemble encoded p c n it it' rest k e f g h =
    subst (λ x. encoded ≡ encode x ++ rest) h
      (rw (encode-append _ rest)
        (e ∙ ap (λ l. escape p ++ (0 ∷ 1 ∷ l)) (f ∙ ap (λ l. escape c ++ (0 ∷ 1 ∷ l)) g)))

-- A byte string is decoded to `k` only if it begins with the encoding of `k`: no other spelling is
-- accepted.
pub decode_composite_key_sound :
    (encoded : List ℕ) (k : CompositeKey)
    → decode_composite_key encoded ≡ ok k
    → (rest : List ℕ) × (encoded ≡ encode k ++ rest)
unfolding decode_composite_key
decode_composite_key_sound encoded k h =
    let ((p, it), ep, h1) = >>=-eq-ok (or_err _ (decode_field [] encoded)) _ h in
    let ((c, it'), ec, h2) = >>=-eq-ok (or_err _ (decode_field [] it)) _ h1 in
    let ((n, rest), en, h3) = >>=-eq-ok (or_err _ (decode_field [] it')) _ h2 in
    let (p', tp, ip) = decode_field_sound encoded [] p it (or_err-eq-ok _ _ ep) in
    let (c', tc, ic) = decode_field_sound it [] c it' (or_err-eq-ok _ _ ec) in
    let (n', tn, i_n) = decode_field_sound it' [] n rest (or_err-eq-ok _ _ en) in
    let same = ok-injective h3 in
    (rest, assemble encoded p c n it it' rest k (rw tp ip) (rw tc ic) (rw tn i_n) same)
