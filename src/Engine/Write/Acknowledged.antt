-- ===== src/Engine/Write/Acknowledged.antt =====
-- What `get` finds after writes that were acknowledged, while the memtable has room.
use enigma.Prelude.{
  ℕ, ◌+◌, ◌^◌, ◌<◌, ◌||◌, if◌then◌else◌, Bool, true, false, Option, none, some, List, [], ◌∷◌, ◌≡◌,
  refl, sym, ◌∙◌, ap, subst, arith, length, Bool-cases, inl, inr,
}
use enigma.Error.{Result, Error, ok, err}
use enigma.Io.{Io, pure, ◌>>◌}
use enigma.Storage.{Key, InternalValue, key_ord}
use enigma.SortedMap.{same}
use enigma.Memtable
use enigma.Memtable.{Memtable, should_flush}
use enigma.Memtable.Contents.{live, tombstone, get-put-remove, entries-put, entries-remove}
use enigma.Memtable.Size.{
  total_bytes, total_bytes-insert, IsCounted, put-IsCounted, remove-IsCounted,
}
use enigma.Engine.{Services, Dazzle}
use enigma.Engine.Calls.{after-cases}
use enigma.Engine.Lookup.{get, visible}
use enigma.Engine.Write.{write_memtable, put_or_remove, put, remove}
use enigma.Engine.Write.Ahead.{applied, put_or_remove-IsLogged}

pub data Operation : Type 0 where
  put_key : Key → List ℕ → Operation
  remove_key : Key → Operation

unfoldable pub perform : {D R W : Type 0} → Services D R W → Operation → Io (Dazzle D) (Unit {0})
perform t (put_key key value) = put t key value
perform t (remove_key key) = remove t key

unfoldable pub perform_all :
    {D R W : Type 0} → Services D R W → List Operation → Io (Dazzle D) (Unit {0})
perform_all t [] = pure tt
perform_all t (o ∷ os) = perform t o >> perform_all t os

-- What the last operation on the key left, or what was there before.
unfoldable pub expected : Key → Option (List ℕ) → List Operation → Option (List ℕ)
expected j before [] = before
expected j before (put_key key value ∷ os) =
    expected j (if same key j then some value else before) os
expected j before (remove_key key ∷ os) = expected j (if same key j then none else before) os

-- Whether an operation is on the key.
unfoldable pub names : Key → List Operation → Bool
names j [] = false
names j (put_key key value ∷ os) = same key j || names j os
names j (remove_key key ∷ os) = same key j || names j os

-- The key bytes and value bytes of all operations.
unfoldable pub operation_bytes : List Operation → ℕ
operation_bytes [] = 0
operation_bytes (put_key key value ∷ os) = length key + length value + operation_bytes os
operation_bytes (remove_key key ∷ os) = length key + operation_bytes os

-- The entry that a write leaves.
abbrev entry_of : Bool → List ℕ → ℕ → InternalValue
entry_of true value sequence = tombstone sequence
entry_of false value sequence = live value sequence

-- The memtable has counted its bytes, and has room for so many more.
record HasRoom (m : Memtable) (more : ℕ) : Type 0 where
  counted : IsCounted m
  room : total_bytes m.entries + more < m.max_memtable_size
  small : total_bytes m.entries + more < 2 ^ 64

-- What a write makes of the memtable.
record IsWritten (key : Key) (value : List ℕ) (remove : Bool) (sequence : ℕ) (m m' : Memtable)
    (more : ℕ) : Type 0 where
  room : HasRoom m' more
  contents :
      (j : Key)
      → Memtable.get m' j
        ≡ (if same key j then some (entry_of remove value sequence) else Memtable.get m j)

unfull : (m : Memtable) (more : ℕ) → HasRoom m more → should_flush m ≡ false
unfolding should_flush
unfull m more h = ground (arith, h.room, h.small, h.counted.counted)

written :
    (key : Key) (value : List ℕ) (remove : Bool) (sequence : ℕ) (m : Memtable) (more : ℕ)
    → HasRoom m (length key + length value + more)
    → IsWritten key value remove sequence m (write_memtable remove key value sequence m) more
written key value false sequence m more h = record {
  room =
      let grown = total_bytes-insert key (live value sequence) m.entries h.counted.sorted in
      let entries = ap total_bytes (entries-put m key value sequence) in
      let limit : (Memtable.put m key value sequence).max_memtable_size ≡ m.max_memtable_size =
        unfold Memtable.put in ground arith in
      record {
        counted = put-IsCounted m key value sequence h.counted;
        room = omega (arith, grown, entries, limit, h.room);
        small = omega (arith, grown, entries, h.small);
      };
  contents = λ j. (get-put-remove m key j value sequence).0;
}
written key value true sequence m more h = record {
  room =
      let grown = total_bytes-insert key (tombstone sequence) m.entries h.counted.sorted in
      let entries = ap total_bytes (entries-remove m key sequence) in
      let limit : (Memtable.remove m key sequence).max_memtable_size ≡ m.max_memtable_size =
        unfold Memtable.remove in ground arith in
      record {
        counted = remove-IsCounted m key sequence h.counted;
        room = omega (arith, grown, entries, limit, h.room);
        small = omega (arith, grown, entries, h.small);
      };
  contents = λ j. (get-put-remove m key j value sequence).1;
}

-- What an operation writes.
abbrev is_removal : Operation → Bool
is_removal (put_key key value) = false
is_removal (remove_key key) = true

abbrev key_of : Operation → Key
key_of (put_key key value) = key
key_of (remove_key key) = key

abbrev value_of : Operation → List ℕ
value_of (put_key key value) = value
value_of (remove_key key) = []

-- The entry that an operation writes, and what it shows.
abbrev entry_by : Operation → ℕ → InternalValue
entry_by o sequence = entry_of (is_removal o) (value_of o) sequence

operation_bytes-cons :
    (o : Operation) (os : List Operation)
    → operation_bytes (o ∷ os) ≡ length (key_of o) + length (value_of o) + operation_bytes os
unfolding operation_bytes
operation_bytes-cons (put_key key value) os = refl
operation_bytes-cons (remove_key key) os = omega arith

expected-cons :
    (j : Key) (before : Option (List ℕ)) (o : Operation) (os : List Operation) (sequence : ℕ)
    → expected j before (o ∷ os)
      ≡ expected j (if same (key_of o) j then visible (some (entry_by o sequence)) else before) os
unfolding expected
expected-cons j before (put_key key value) os sequence = refl
expected-cons j before (remove_key key) os sequence = refl

names-cons :
    (j : Key) (o : Operation) (os : List Operation)
    → names j (o ∷ os) ≡ (same (key_of o) j || names j os)
unfolding names
names-cons j (put_key key value) os = refl
names-cons j (remove_key key) os = refl

refused : (x : Error) → ◌≡◌ {A = Result (Unit {0})} (err x) (ok tt) → ⊥
refused x e = ground arith

module _ {D R W : Type 0} (t : Services D R W) where
  put_or_remove-IsWritten :
      (key : Key) (value : List ℕ) (remove : Bool) (st st' : Dazzle D) (more : ℕ)
      → HasRoom st.active_memtable (length key + length value + more)
      → put_or_remove t key value remove st ≡ (st', ok tt)
      → IsWritten key value remove st.lsn st.active_memtable st'.active_memtable more
  put_or_remove-IsWritten key value remove st st' more h e =
      elim (put_or_remove-IsLogged t key value remove st st' (ok tt) e) [
        | inr (d, changed, fails) ↦ absurd fails
        | inl logged ↦
            let after_write = applied key value remove st logged.d3 in
            let w = written key value remove st.lsn st.active_memtable more h in
            let stays : (after_write, ok tt) ≡ (st', ok tt) =
              rw (unfull after_write.active_memtable more w.room) at logged.rest in
            subst
              (λ (s : Dazzle D).
                IsWritten key value remove st.lsn st.active_memtable s.active_memtable more)
              (ap (λ (o : Dazzle D × Result (Unit {0})). o.0) stays) w
      ]

  perform-IsWritten :
      (o : Operation) (st st' : Dazzle D) (more : ℕ)
      → HasRoom st.active_memtable (length (key_of o) + length (value_of o) + more)
      → perform t o st ≡ (st', ok tt)
      → IsWritten
          (key_of o)
          (value_of o)
          (is_removal o)
          st.lsn
          st.active_memtable
          st'.active_memtable
          more
  unfolding perform put remove
  perform-IsWritten (put_key key []) st st' more h e =
      absurd (refused _ (ap (λ (o : Dazzle D × Result (Unit {0})). o.1) e))
  perform-IsWritten (put_key key (b ∷ value)) st st' more h e =
      put_or_remove-IsWritten key (b ∷ value) false st st' more h e
  perform-IsWritten (remove_key key) st st' more h e =
      put_or_remove-IsWritten key [] true st st' more h e

  HasRoom-cons :
      (o : Operation) (os : List Operation) (m : Memtable)
      → HasRoom m (operation_bytes (o ∷ os))
      → HasRoom m (length (key_of o) + length (value_of o) + operation_bytes os)
  HasRoom-cons o os m h = subst (HasRoom m) (operation_bytes-cons o os) h

  -- What the memtable has under the key is what the operations leave of what it had.
  get-performed :
      (j : Key) (os : List Operation) (st st' : Dazzle D) (v : InternalValue)
      → HasRoom st.active_memtable (operation_bytes os)
      → perform_all t os st ≡ (st', ok tt)
      → Memtable.get st.active_memtable j ≡ some v
      → (w : InternalValue) × (Memtable.get st'.active_memtable j ≡ some w)
        × (visible (some w) ≡ expected j (visible (some v)) os)
  unfolding perform_all
  get-performed j [] st st' v h e g = (
    v,
    ap (λ (o : Dazzle D × Result (Unit {0})). Memtable.get o.0.active_memtable j) (sym e) ∙ g,
    unfold expected in refl,
  )
  get-performed j (o ∷ os) st st' v h e g = elim (after-cases (perform t o st) _ st' (ok tt) e) [
    | inr (q, failed, fq, fr) ↦ absurd fr
    | inl (s, u, first, rest) ↦
        let w =
          perform-IsWritten o st s (operation_bytes os) (HasRoom-cons o os st.active_memtable h)
            first in
        elim (Bool-cases (same (key_of o) j)) [
          | inl hit ↦
              let (x, g', e') =
                get-performed j os s st' (entry_by o st.lsn) w.room rest
                  (w.contents j ∙ rw hit refl) in
              (x, g', e' ∙ sym (expected-cons j (visible (some v)) o os st.lsn ∙ rw hit refl))
          | inr missed ↦
              let (x, g', e') =
                get-performed j os s st' v w.room rest (w.contents j ∙ rw missed g) in
              (x, g', e' ∙ sym (expected-cons j (visible (some v)) o os st.lsn ∙ rw missed refl))
        ]
  ]

  get-named :
      (j : Key) (os : List Operation) (st st' : Dazzle D)
      → HasRoom st.active_memtable (operation_bytes os)
      → perform_all t os st ≡ (st', ok tt)
      → names j os ≡ true
      → (w : InternalValue) × (Memtable.get st'.active_memtable j ≡ some w)
        × (visible (some w) ≡ expected j none os)
  unfolding perform_all
  get-named j [] st st' h e n = absurd (unfold names in ground arith)
  get-named j (o ∷ os) st st' h e n = elim (after-cases (perform t o st) _ st' (ok tt) e) [
    | inr (q, failed, fq, fr) ↦ absurd fr
    | inl (s, u, first, rest) ↦
        let w =
          perform-IsWritten o st s (operation_bytes os) (HasRoom-cons o os st.active_memtable h)
            first in
        elim (Bool-cases (same (key_of o) j)) [
          | inl hit ↦
              let (x, g', e') =
                get-performed j os s st' (entry_by o st.lsn) w.room rest
                  (w.contents j ∙ rw hit refl) in
              (x, g', e' ∙ sym (expected-cons j none o os st.lsn ∙ rw hit refl))
          | inr missed ↦
              let later : names j os ≡ true = (rw missed refl) ∙ sym (names-cons j o os) ∙ n in
              let (x, g', e') = get-named j os s st' w.room rest later in
              (x, g', e' ∙ sym (expected-cons j none o os st.lsn ∙ rw missed refl))
        ]
  ]

  -- On any services, where the memtable has counted its bytes and has room for the bytes of all the
  -- operations below its threshold: after puts and removals that all reported success, `get` of a key
  -- that one of them is on returns the value of the last put of the key, or nothing if a removal of it
  -- came later, without a change of the engine.
  pub get-perform_all :
      (j : Key) (os : List Operation) (st st' : Dazzle D)
      → IsCounted st.active_memtable
      → total_bytes st.active_memtable.entries + operation_bytes os
        < st.active_memtable.max_memtable_size
      → total_bytes st.active_memtable.entries + operation_bytes os < 2 ^ 64
      → perform_all t os st ≡ (st', ok tt)
      → names j os ≡ true
      → get t j st' ≡ (st', ok (expected j none os))
  get-perform_all j os st st' c room small e n =
      let (w, g, v) =
        get-named j os st st' (record { counted = c; room = room; small = small }) e n in
      let found : get t j st' ≡ (st', ok (visible (some w))) = unfold get in rw g in
      found ∙ ap (λ x. (st', ok x)) v
