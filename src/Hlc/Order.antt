-- ===== src/Hlc/Order.antt =====
-- Every timestamp is larger than those returned before it.
use enigma.Prelude.{
  ℕ, ◌+◌, ◌*◌, ◌%◌, ◌^◌, ◌≤◌, ◌<◌, List, [], ◌∷◌, ◌≡◌, refl, inl, inr, arith, length, All,
  Bool-cases, leb, ◌==◌, bit_or, subst,
}
use enigma.Prelude.Bits.{bit_or-shifted}
use enigma.Hlc.{
  candidate, Pc, Pc.outside, Pc.loading, Pc.counting, Pc.swapping, System, update, Step,
  Step.read_clock, Step.load, Step.count, Step.swap, Step.swap_fails, initial, Reach, Reach.start,
  Reach.later,
}

-- The list falls strictly from its head on, which is at most `top`.
unfoldable pub Falls : List ℕ → Type 0
Falls [] = Unit
Falls (a ∷ l) = All (λ b. b < a) l × Falls l

-- What a thread holds is in bounds: a wall time under the limit, and a candidate above `prev` that is
-- at most the bound and one for each timestamp returned.
abbrev IsBounded : ℕ → ℕ → Pc → Type 0
IsBounded limit n outside = Unit
IsBounded limit n (loading wall) = (m : ℕ) × (wall ≡ m * 2 ^ 16) × (m < limit)
IsBounded limit n (counting wall prev) =
    ((m : ℕ) × (wall ≡ m * 2 ^ 16) × (m < limit)) × (prev ≤ limit * 2 ^ 16 + n)
IsBounded limit n (swapping wall prev new) =
    ((m : ℕ) × (wall ≡ m * 2 ^ 16) × (m < limit)) × (prev < new) × (new ≤ limit * 2 ^ 16 + (n + 1))

record IsOrdered (limit : ℕ) (s : System) : Type 0 where
  below : All (λ b. b ≤ s.state.last_returned) s.returned
  falls : Falls s.returned
  last : s.state.last_returned ≤ limit * 2 ^ 16 + length s.returned
  threads : (i : ℕ) → IsBounded limit (length s.returned) (s.pc i)

candidate-bounds :
    (limit m counter prev n : ℕ)
    → m < limit
    → prev ≤ limit * 2 ^ 16 + n
    → limit * 2 ^ 16 + (n + 1) < 2 ^ 64
    → (prev < candidate (m * 2 ^ 16) counter prev)
      × (candidate (m * 2 ^ 16) counter prev ≤ limit * 2 ^ 16 + (n + 1))
candidate-bounds limit m counter prev n h p room =
    let low = bit_or-shifted 16 m (counter % 2 ^ 16) (omega arith) in
    elim (Bool-cases (leb (bit_or (m * 2 ^ 16) (counter % 2 ^ 16)) prev)) [
      | inl old ↦ unfold candidate in rw old (omega arith, omega arith)
      | inr new ↦ unfold candidate in rw new (ground (arith, low), ground (arith, low))
    ]

IsBounded-grow : (limit n : ℕ) (p : Pc) → IsBounded limit n p → IsBounded limit (n + 1) p
IsBounded-grow limit n outside b = tt
IsBounded-grow limit n (loading wall) b = b
IsBounded-grow limit n (counting wall prev) (b, p) = (b, omega arith)
IsBounded-grow limit n (swapping wall prev new) (b, p, q) = (b, p, omega arith)

-- One thread moves on, the others stay where they are.
update-IsBounded :
    (limit n : ℕ) (pc : ℕ → Pc) (i : ℕ) (p : Pc)
    → IsBounded limit n p
    → ((j : ℕ) → IsBounded limit n (pc j))
    → (j : ℕ) → IsBounded limit n (update pc i p j)
update-IsBounded limit n pc i p b all j = elim (Bool-cases (i == j)) [
  | inl e ↦ unfold update in rw e b
  | inr e ↦ unfold update in rw e (all j)
]

All-below : (a b : ℕ) (l : List ℕ) → a < b → All (λ x. x ≤ a) l → All (λ x. x < b) l
All-below a b [] h k = tt
All-below a b (x ∷ l) h (k, ks) = (omega arith, All-below a b l h ks)

All-at_most : (a : ℕ) (l : List ℕ) → All (λ x. x < a) l → All (λ x. x ≤ a) l
All-at_most a [] k = tt
All-at_most a (x ∷ l) (k, ks) = (omega arith, All-at_most a l ks)

initial-IsOrdered : (limit : ℕ) → IsOrdered limit initial
initial-IsOrdered limit = record {
  below = tt;
  falls = unfold Falls in tt;
  last = omega arith;
  threads = λ i. tt;
}

-- What thread `i` holds, where it is known where it stands.
held :
    (limit : ℕ) (s : System) (i : ℕ) {p : Pc}
    → IsOrdered limit s
    → s.pc i ≡ p
    → IsBounded limit (length s.returned) p
held limit s i o e = subst (IsBounded limit (length s.returned)) e (o.threads i)

Step-IsOrdered :
    (limit : ℕ) (s t : System)
    → Step limit s t
    → limit * 2 ^ 16 + length t.returned + 1 < 2 ^ 64
    → IsOrdered limit s
    → IsOrdered limit t
Step-IsOrdered limit s _ (read_clock i millis e h) room o = record {
  below = o.below;
  falls = o.falls;
  last = o.last;
  threads = update-IsBounded limit _ s.pc i _ (millis % 2 ^ 48, refl, h) o.threads;
}
Step-IsOrdered limit s _ (load i wall e) room o = record {
  below = o.below;
  falls = o.falls;
  last = o.last;
  threads = update-IsBounded limit _ s.pc i _ (held limit s i o e, o.last) o.threads;
}
Step-IsOrdered limit s _ (count i wall prev e) room o =
    let ((m, w, h), p) = held limit s i o e in
    let c =
      candidate-bounds limit m s.state.logical_counter prev (length s.returned) h p (omega arith) in
    let new : IsBounded limit (length s.returned)
        (swapping wall prev (candidate wall s.state.logical_counter prev)) =
      ((m, w, h), rw w c.0, rw w c.1) in
    record {
      below = o.below;
      falls = o.falls;
      last = o.last;
      threads = update-IsBounded limit _ s.pc i _ new o.threads;
    }
Step-IsOrdered limit s _ (swap i wall prev new e same) room o =
    let (b, p, q) = held limit s i o e in
    let above = All-below s.state.last_returned new s.returned (omega arith) o.below in
    record {
      below = (omega arith, All-at_most new s.returned above);
      falls = unfold Falls in (above, o.falls);
      last = omega arith;
      threads = update-IsBounded limit _ s.pc i outside tt (λ j.
          subst (λ n. IsBounded limit n (s.pc j)) (omega arith)
            (IsBounded-grow limit (length s.returned) (s.pc j) (o.threads j)));
    }
Step-IsOrdered limit s _ (swap_fails i wall prev new e) room o = record {
  below = o.below;
  falls = o.falls;
  last = o.last;
  threads = update-IsBounded limit _ s.pc i _ (held limit s i o e).0 o.threads;
}

length_before : (limit : ℕ) (s t : System) → Step limit s t → length s.returned ≤ length t.returned
length_before limit s _ (read_clock i millis e h) = omega arith
length_before limit s _ (load i wall e) = omega arith
length_before limit s _ (count i wall prev e) = omega arith
length_before limit s _ (swap i wall prev new e same) = omega arith
length_before limit s _ (swap_fails i wall prev new e) = omega arith

Reach-IsOrdered :
    (limit : ℕ) (s : System)
    → Reach limit s
    → limit * 2 ^ 16 + length s.returned + 1 < 2 ^ 64
    → IsOrdered limit s
Reach-IsOrdered limit _ start room = initial-IsOrdered limit
Reach-IsOrdered limit _ (later {s} {t} r step) room =
    Step-IsOrdered limit s t step room
      (Reach-IsOrdered limit s r (omega (arith, length_before limit s t step)))

-- However the calls of any number of threads interleave, each returned timestamp is larger than all
-- that were returned before it, as long as the clock stays under `limit` milliseconds and `limit`
-- times 2^16, the number of timestamps and one more stay under 2^64.
pub returned-Falls :
    (limit : ℕ) (s : System)
    → Reach limit s
    → limit * 2 ^ 16 + length s.returned + 1 < 2 ^ 64
    → Falls s.returned
returned-Falls limit s r room = (Reach-IsOrdered limit s r room).falls
