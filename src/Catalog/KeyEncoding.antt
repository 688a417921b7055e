-- ===== src/Catalog/KeyEncoding.antt =====
-- src/catalog/key_encoding.cpp: three byte strings in one key. A zero byte is escaped as 00 FF and
-- each field ends in 00 01.
pub mod RoundTrip
pub mod Order
mod Tests
use enigma.Prelude.{ℕ, zero, suc, Option, none, some, List, [], ◌∷◌, ◌++◌, ◌==◌, if◌then◌else◌}
use enigma.Error.{Result, ok, ◌>>=◌, or_err, error, read_err}

pub record CompositeKey : Type 0 where
  pub partition_key : List ℕ
  pub clustering_key : List ℕ
  pub column_name : List ℕ

-- `out.push_back(byte); if (byte == 0x00) out.push_back(0xFF);` for each byte of a field.
unfoldable pub escape : List ℕ → List ℕ
escape [] = []
escape (byte ∷ field) =
    let rest = escape field in if byte == 0x00 then byte ∷ 0xFF ∷ rest else byte ∷ rest

unfoldable pub encode_composite_key : List ℕ → List ℕ → List ℕ → List ℕ
encode_composite_key partition_key clustering_key column_name =
    escape partition_key
    ++ (0x00
        ∷ 0x01
        ∷ (escape clustering_key ++ (0x00 ∷ 0x01 ∷ (escape column_name ++ (0x00 ∷ 0x01 ∷ [])))))

-- The lambda `decode_field`: the bytes left of `it` and the target grow and shrink together; the
-- result is the filled target and what is left, or `none` for its `false`.
unfoldable pub decode_field : List ℕ → List ℕ → Option (List ℕ × List ℕ)
decode_field target [] = none
decode_field target (zero ∷ []) = none
decode_field target (zero ∷ next ∷ it) =
    let more = decode_field (target ++ (0x00 ∷ [])) it in
    if next == 0xFF then more else if next == 0x01 then some (target, it) else none
decode_field target (suc b ∷ it) = decode_field (target ++ (suc b ∷ [])) it

unfoldable pub decode_composite_key : List ℕ → Result CompositeKey
decode_composite_key encoded = do
  (partition_key, it) ← or_err (error read_err "Malformed partition key") (decode_field [] encoded)
  (clustering_key, it') ← or_err (error read_err "Malformed clustering key") (decode_field [] it)
  (column_name, it'') ← or_err (error read_err "Malformed column name") (decode_field [] it')
  ok (record {
    partition_key = partition_key;
    clustering_key = clustering_key;
    column_name = column_name;
  })
