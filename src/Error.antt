-- ===== src/Error.antt =====
-- include/enigmadb/error.h and result.h: error codes, errors, and the result of a fallible call.
use enigma.Prelude.{Option, none, some, String, Bool, true, false, ◌≡◌, refl, arith}

-- ERROR_CODES
pub data ErrorCode : Type 0 where
  none_code unexpected_err file_descriptor_err fsync_err close_err bad_config : ErrorCode
  write_err read_err read_out_of_range err_eof fstat_err bad_magic bad_file : ErrorCode
  structure_empty stale_version : ErrorCode

pub record Error : Type 0 where
  pub code : ErrorCode
  pub message : String

abbrev pub error : ErrorCode → String → Error
error code message = record { code = code; message = message }

-- `Error::is_stale_version`, the one checker that the sources call.
abbrev pub is_stale_version : Error → Bool
is_stale_version e = stale e.code
  where
    stale : ErrorCode → Bool
    stale ErrorCode.stale_version = true
    stale _ = false

-- `ExpectResult<T, Error>`. `fault` is no C++ value: the call does not return, since the code read
-- or wrote outside an object, and its behaviour is undefined from there on, or since an exception left it.
pub data Result {κ} (A : Type κ) : Type κ where
  fault : Result A
  err : Error → Result A
  ok : A → Result A

abbrev pub has_value {κ} : {A : Type κ} → Result A → Bool
has_value (ok a) = true
has_value _ = false

-- `if (!b) return err(e);`
abbrev pub guard : Bool → Error → Result (Unit {0})
guard false e = err e
guard true e = ok tt

-- `if (!r.has_value()) return err(r.error());` and then the rest on `r.value()`.
infixl 5 ◌>>=◌ ◌>>◌
abbrev pub ◌>>=◌ {ℓ κ} : {A : Type ℓ} {B : Type κ} → Result A → (A → Result B) → Result B
fault >>= rest = fault
err e >>= rest = err e
ok a >>= rest = rest a

abbrev pub ◌>>◌ {κ} : {B : Type κ} → Result (Unit {0}) → Result B → Result B
first >> rest = first >>= λ _. rest

-- A read that is in range, or a fault.
abbrev pub in_range {ℓ} : {A : Type ℓ} → Option A → Result A
in_range none = fault
in_range (some a) = ok a

-- The value of an optional, or an error where there is none.
abbrev pub or_err {ℓ} : {A : Type ℓ} → Error → Option A → Result A
or_err e none = err e
or_err e (some a) = ok a

-- A successful chain went through a successful first step.
pub >>=-eq-ok {ℓ κ} :
    {A : Type ℓ} {B : Type κ} (first : Result A) (rest : A → Result B) {b : B}
    → (first >>= rest) ≡ ok b
    → (a : A) × (first ≡ ok a) × (rest a ≡ ok b)
>>=-eq-ok fault rest h = cc
>>=-eq-ok (err e) rest h = cc
>>=-eq-ok (ok a) rest h = (a, refl, h)

pub or_err-eq-ok {ℓ} :
    {A : Type ℓ} (e : Error) (o : Option A) {a : A} → or_err e o ≡ ok a → o ≡ some a
or_err-eq-ok e none h = cc
or_err-eq-ok e (some a) h = ground arith

pub ok-injective {ℓ} : {A : Type ℓ} {a b : A} → ok a ≡ ok b → a ≡ b
ok-injective h = ground arith
