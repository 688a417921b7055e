-- ===== src/Engine/Calls.antt =====
-- A call of a service in a method of the engine, by what it comes to.
use enigma.Prelude.{◌≡◌, refl, sym, ap, ◌⊎◌, inl, inr, subst}
use enigma.Error.{Result, ok, err, fault}
use enigma.Io.{Io, Fails, after}
use enigma.Engine.{Dazzle, with_disk}

module _ {D : Type 0} where
  -- The engine on another disk.
  abbrev pub on_disk : Dazzle D → D → Dazzle D
  on_disk st d = record st { disk = d }

  -- A method that failed, with nothing changed but the disk.
  abbrev pub FailsAt : {B : Type 0} → Dazzle D → Dazzle D → Result B → Type 0
  FailsAt st st' r = (d : D) × (st' ≡ on_disk st d) × Fails r

  ended :
      {B : Type 0} (st st' : Dazzle D) (d : D) (x r : Result B)
      → Fails x
      → ◌≡◌ {A = Dazzle D × Result B} (on_disk st d, x) (st', r)
      → FailsAt st st' r
  ended {B} st st' d x r f e = (
    d,
    sym (ap (λ (o : Dazzle D × Result B). o.0) e),
    subst Fails (ap (λ (o : Dazzle D × Result B). o.1) e) f,
  )

  pub with_disk-cases :
      {A B : Type 0} (st st' : Dazzle D) (o : D × Result A) (rest : A → Io (Dazzle D) B)
      (r : Result B)
      → after (with_disk st o) rest ≡ (st', r)
      → ((d : D) × (a : A) × (o ≡ (d, ok a)) × (rest a (on_disk st d) ≡ (st', r)))
        ⊎ FailsAt st st' r
  with_disk-cases st st' (d, fault) rest r e = inr (ended st st' d fault r tt e)
  with_disk-cases st st' (d, err x) rest r e = inr (ended st st' d (err x) r tt e)
  with_disk-cases st st' (d, ok a) rest r e = inl (d, a, refl, e)

  -- The last call of a method.
  pub with_disk-last :
      {A : Type 0} (st st' : Dazzle D) (o : D × Result A) (r : Result A)
      → with_disk st o ≡ (st', r)
      → (d : D) × (o ≡ (d, r)) × (st' ≡ on_disk st d)
  with_disk-last {A} st st' (d, x) r e = (
    d,
    ap (λ y. (d, y)) (ap (λ (o : Dazzle D × Result A). o.1) e),
    sym (ap (λ (o : Dazzle D × Result A). o.0) e),
  )

  -- A result that is there already.
  pub returns-cases :
      {A B : Type 0} (st st' : Dazzle D) (o : Result A) (rest : A → Io (Dazzle D) B) (r : Result B)
      → after (st, o) rest ≡ (st', r)
      → ((a : A) × (o ≡ ok a) × (rest a st ≡ (st', r))) ⊎ ((st ≡ st') × Fails r)
  returns-cases {B = B} st st' fault rest r e = inr (
    ap (λ (o : Dazzle D × Result B). o.0) e,
    subst Fails (ap (λ (o : Dazzle D × Result B). o.1) e) tt,
  )
  returns-cases {B = B} st st' (err x) rest r e = inr (
    ap (λ (o : Dazzle D × Result B). o.0) e,
    subst Fails (ap (λ (o : Dazzle D × Result B). o.1) e) tt,
  )
  returns-cases st st' (ok a) rest r e = inl (a, refl, e)

  -- A method within another.
  pub after-cases :
      {A B : Type 0} (x : Dazzle D × Result A) (rest : A → Io (Dazzle D) B) (st' : Dazzle D)
      (r : Result B)
      → after x rest ≡ (st', r)
      → ((s : Dazzle D) × (a : A) × (x ≡ (s, ok a)) × (rest a s ≡ (st', r)))
        ⊎ ((q : Result A) × (x ≡ (st', q)) × Fails q × Fails r)
  after-cases {B = B} (s, fault) rest st' r e = inr (
    fault,
    ap (λ (o : Dazzle D × Result B). (o.0, fault)) e,
    tt,
    subst Fails (ap (λ (o : Dazzle D × Result B). o.1) e) tt,
  )
  after-cases {B = B} (s, err x) rest st' r e = inr (
    err x,
    ap (λ (o : Dazzle D × Result B). (o.0, err x)) e,
    tt,
    subst Fails (ap (λ (o : Dazzle D × Result B). o.1) e) tt,
  )
  after-cases (s, ok a) rest st' r e = inl (s, a, refl, e)
