-- ===== src/Io.antt =====
-- Calls that change a state and may fail: the style of `Result<T>` methods on an object.
use enigma.Prelude.{◌≡◌, refl}
use enigma.Error.{Result, ok, err, fault}

abbrev pub Io : Type 0 → Type 0 → Type 0
Io S A = S → S × Result A

abbrev pub pure : {S A : Type 0} → A → Io S A
pure a s = (s, ok a)

-- What follows a call, where it returned a value.
abbrev pub after : {S A B : Type 0} → S × Result A → (A → Io S B) → S × Result B
after (s, fault) rest = (s, fault)
after (s, err e) rest = (s, err e)
after (s, ok a) rest = rest a s

-- `if (!r.has_value()) return err(r.error());` and then the rest on `r.value()`.
infixl 5 ◌>>=◌ ◌>>◌
abbrev pub ◌>>=◌ : {S A B : Type 0} → Io S A → (A → Io S B) → Io S B
(call >>= rest) s = after (call s) rest

abbrev pub ◌>>◌ : {S B : Type 0} → Io S (Unit {0}) → Io S B → Io S B
(call >> rest) s = after (call s) (λ u. rest)

-- What a call that cannot fail does to the state.
abbrev pub modify : {S : Type 0} → (S → S) → Io S (Unit {0})
modify f s = (f s, ok tt)

abbrev pub returns : {S A : Type 0} → Result A → Io S A
returns r s = (s, r)

-- The result is an error or a fault.
abbrev pub Fails : {A : Type 0} → Result A → Type 0
Fails fault = Unit
Fails (err e) = Unit
Fails (ok a) = ⊥

pub after-after :
    {S A B C : Type 0} (x : S × Result A) (f : A → Io S B) (g : B → Io S C)
    → after (after x f) g ≡ after x (λ a s. after (f a s) g)
after-after (s, fault) f g = refl
after-after (s, err e) f g = refl
after-after (s, ok a) f g = refl
