-- ===== src/Engine/Lookup/Newest.antt =====
-- Which table of a version answers a look-up: the one with the highest number that has the key or
-- fails, whatever the tables are.
use enigma.Prelude.{
  ◌⊎◌, ◌<◌, Option, none, some, List, [], ◌∷◌, ◌++◌, ◌≡◌, ◌≢◌, subst, All, refl, sym, ◌∙◌, ap,
  arith, inl, inr,
}
use mathlib.Core.List.{reverse, reverse_aux}
use enigma.Prelude.Ord.{nat_ord}
use enigma.Error.{Result, ok, err, fault}
use enigma.Io.{Io, ◌>>=◌, after, after-after}
use enigma.Storage.{Key, InternalValue}
use enigma.SortedMap.{Above, IsSorted}
use enigma.VersionSet.{SstableId, SstableMeta, Version}
use enigma.VersionSet.Install.{Under}
use enigma.Engine.{Services}
use enigma.Engine.Lookup.{or_else, lookup_tables, lookup_internal}

-- The numbers fall strictly.
abbrev Falls : List (SstableId × SstableMeta) → Type 0
Falls [] = Unit
Falls ((id, meta) ∷ files) = Under id files × Falls files

-- One table is opened and read.
abbrev pub read_table :
    {D R W : Type 0} → Services D R W → SstableId → Key → Io D (Option InternalValue)
read_table t id key = t.get id >>= λ reader. t.read reader key

-- The tables are read one after the other, from the first disk to the second, and each lacks the key.
abbrev pub LackAll :
    {D R W : Type 0} → Services D R W → Key → List (SstableId × SstableMeta) → D → D → Type 0
LackAll t key [] d d' = d ≡ d'
LackAll {D = D} t key (f ∷ files) d d' =
    (d1 : D) × (read_table t f.0 key d ≡ (d1, ok none)) × LackAll t key files d1 d'

-- One table comes to the result, an entry of the key or a failure; the tables before it have higher
-- numbers and lack the key, those behind it have lower numbers.
pub record IsAnswer {D R W : Type 0} (t : Services D R W) (key : Key)
    (files : List (SstableId × SstableMeta)) (d d' : D) (r : Result (Option InternalValue))
    : Type 0 where
  pub before : List (SstableId × SstableMeta)
  pub id : SstableId
  pub meta : SstableMeta
  pub behind : List (SstableId × SstableMeta)
  pub reached : D
  pub split : files ≡ before ++ ((id, meta) ∷ behind)
  pub lack : LackAll t key before d reached
  pub answers : read_table t id key reached ≡ (d', r)
  pub found : r ≢ ok none
  pub higher : All (λ (f : SstableId × SstableMeta). id < f.0) before
  pub lower : Under id behind

-- All tables lack the key, or one of them answers.
abbrev pub IsNewest :
    {D R W : Type 0}
    → Services D R W
    → Key
    → List (SstableId × SstableMeta)
    → D
    → D
    → Result (Option InternalValue)
    → Type 0
IsNewest t key files d d' r =
    ((r ≡ ok none) × LackAll t key files d d') ⊎ IsAnswer t key files d d' r

Under-middle :
    (id i : SstableId) (meta : SstableMeta) (before behind : List (SstableId × SstableMeta))
    → Under id (before ++ ((i, meta) ∷ behind))
    → i < id
Under-middle id i meta [] behind u = u.0
Under-middle id i meta (f ∷ before) behind u = Under-middle id i meta before behind u.1

module _ {D R W : Type 0} (t : Services D R W) where
  stops :
      (key : Key) (id : SstableId) (meta : SstableMeta) (files : List (SstableId × SstableMeta))
      (d d' : D) (r : Result (Option InternalValue))
      → Under id files
      → read_table t id key d ≡ (d', r)
      → r ≢ ok none
      → IsNewest t key ((id, meta) ∷ files) d d' r
  stops key id meta files d d' r u g n = inr (record {
    before = [];
    id = id;
    meta = meta;
    behind = files;
    reached = d;
    split = refl;
    lack = refl;
    answers = g;
    found = n;
    higher = tt;
    lower = u;
  })

  goes_on :
      (key : Key) (id : SstableId) (meta : SstableMeta) (files : List (SstableId × SstableMeta))
      (d d1 d' : D) (r : Result (Option InternalValue))
      → Under id files
      → read_table t id key d ≡ (d1, ok none)
      → IsNewest t key files d1 d' r
      → IsNewest t key ((id, meta) ∷ files) d d' r
  goes_on key id meta files d d1 d' r u g (inl (e, all)) = inl (e, (d1, g, all))
  goes_on key id meta files d d1 d' r u g (inr a) = inr (record {
    before = (id, meta) ∷ a.before;
    id = a.id;
    meta = a.meta;
    behind = a.behind;
    reached = a.reached;
    split = ap (λ l. (id, meta) ∷ l) a.split;
    lack = (d1, g, a.lack);
    answers = a.answers;
    found = a.found;
    higher = (Under-middle id a.id a.meta a.before a.behind (subst (Under id) a.split u), a.higher);
    lower = a.lower;
  })

  lookup_tables-none : (key : Key) (d : D) → lookup_tables t [] key d ≡ (d, ok none)
  lookup_tables-none key d = unfold lookup_tables in refl

  pub lookup_tables-some :
      (key : Key) (id : SstableId) (meta : SstableMeta) (files : List (SstableId × SstableMeta))
      (d : D)
      → lookup_tables t ((id, meta) ∷ files) key d
        ≡ after (read_table t id key d) (λ found. or_else t found (lookup_tables t files key))
  lookup_tables-some key id meta files d =
      unfold lookup_tables in
      sym (
        after-after (t.get id d) (λ reader. t.read reader key)
          (λ found. or_else t found (lookup_tables t files key)))

  lookup_tables-IsNewest :
      (key : Key) (files : List (SstableId × SstableMeta)) (d d' : D)
      (r : Result (Option InternalValue))
      → Falls files
      → lookup_tables t files key d ≡ (d', r)
      → IsNewest t key files d d' r
  lookup_tables-IsNewest key [] d d' r falls e =
      let same = sym e ∙ lookup_tables-none key d in
      inl (
        ap (λ (o : D × Result (Option InternalValue)). o.1) same,
        sym (ap (λ (o : D × Result (Option InternalValue)). o.0) same),
      )
  lookup_tables-IsNewest key ((id, meta) ∷ files) d d' r falls e =
      by_table (λ d1 e'. lookup_tables-IsNewest key files d1 d' r falls.1 e')
        (read_table t id key d) refl (sym (lookup_tables-some key id meta files d) ∙ e)
    where
      by_table :
          ((d1 : D) → lookup_tables t files key d1 ≡ (d', r) → IsNewest t key files d1 d' r)
          → (o : D × Result (Option InternalValue)) → read_table t id key d ≡ o
          → after o (λ found. or_else t found (lookup_tables t files key)) ≡ (d', r)
          → IsNewest t key ((id, meta) ∷ files) d d' r
      by_table later (d1, ok none) h e' =
          goes_on key id meta files d d1 d' r falls.0 h (later d1 e')
      by_table later (d1, ok (some v)) h e' =
          let same : ok (some v) ≡ r = ap (λ (o : D × Result (Option InternalValue)). o.1) e' in
          stops key id meta files d d' r falls.0 (h ∙ e')
            (λ n. let x : ok (some v) ≡ ok none = same ∙ n in ground arith)
      by_table later (d1, err x) h e' =
          let same : err x ≡ r = ap (λ (o : D × Result (Option InternalValue)). o.1) e' in
          stops key id meta files d d' r falls.0 (h ∙ e')
            (λ n. let y : err x ≡ ok none = same ∙ n in ground arith)
      by_table later (d1, fault) h e' =
          let same : fault ≡ r = ap (λ (o : D × Result (Option InternalValue)). o.1) e' in
          stops key id meta files d d' r falls.0 (h ∙ e')
            (λ n. let y : fault ≡ ok none = same ∙ n in ground arith)

Under-below :
    (id : SstableId) (meta : SstableMeta) (files acc : List (SstableId × SstableMeta))
    → Above id files
    → All (λ (f : SstableId × SstableMeta). Under f.0 acc) files
    → All (λ (f : SstableId × SstableMeta). Under f.0 ((id, meta) ∷ acc)) files
Under-below id meta [] acc a h = tt
Under-below id meta (f ∷ files) acc a h =
    ((ground (arith, a.0), h.0), Under-below id meta files acc a.1 h.1)

Falls-reverse_aux :
    (files acc : List (SstableId × SstableMeta))
    → IsSorted files
    → Falls acc
    → All (λ (f : SstableId × SstableMeta). Under f.0 acc) files
    → Falls (reverse_aux files acc)
Falls-reverse_aux [] acc s falls h = falls
Falls-reverse_aux ((id, meta) ∷ files) acc s falls h =
    Falls-reverse_aux files ((id, meta) ∷ acc) s.1 (h.0, falls)
      (Under-below id meta files acc s.0 h.1)

Under-nil :
    (files : List (SstableId × SstableMeta))
    → All (λ (f : SstableId × SstableMeta). Under f.0 []) files
Under-nil [] = tt
Under-nil (f ∷ files) = (tt, Under-nil files)

-- In a version whose files are sorted by number, on any services: `lookup_internal` reads the tables by
-- falling number, and either each of them lacks the key, and so does the result; or the result is what
-- the first table comes to that does not lack the key, an entry of the key or a failure, and the tables
-- with higher numbers, which were read before it, lack the key.
pub lookup_internal-IsNewest :
    {D R W : Type 0} (t : Services D R W) (v : Version) (key : Key) (d d' : D)
    (r : Result (Option InternalValue))
    → IsSorted v.files
    → lookup_internal t v key d ≡ (d', r)
    → IsNewest t key (reverse v.files) d d' r
unfolding lookup_internal
lookup_internal-IsNewest t v key d d' r s e =
    lookup_tables-IsNewest t key (reverse v.files) d d' r
      (Falls-reverse_aux v.files [] s tt (Under-nil v.files)) e
