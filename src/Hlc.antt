-- ===== src/Hlc.antt =====
-- src/hlc.cpp: the timestamp generator that threads share. Its two atomics are 64 bits wide. A call
-- of `next` is a sequence of steps, one for each access to shared memory, and the steps of several
-- threads interleave.
pub mod Order
mod Tests
use enigma.Prelude.{
  ℕ, ◌+◌, ◌*◌, ◌%◌, ◌^◌, ◌<◌, List, [], ◌∷◌, ◌≡◌, leb, ◌==◌, if◌then◌else◌, bit_or,
}

-- `State`
pub record State : Type 0 where
  pub logical_counter : ℕ
  pub last_returned : ℕ

-- `(static_cast<uint64_t>(millis) & 0xFFFFFFFFFFFF) << 16`
abbrev pub wall_time : ℕ → ℕ
wall_time millis = millis % 2 ^ 48 * 2 ^ 16

-- `wallTime48 | (logicalCounter_++ & 0xFFFF)`, and one more than `prev` where that is no larger.
unfoldable pub candidate : ℕ → ℕ → ℕ → ℕ
candidate wall counter prev =
    let c = bit_or wall (counter % 2 ^ 16) in if leb c prev then (prev + 1) % 2 ^ 64 else c

-- Where a thread is in `next`.
pub data Pc : Type 0 where
  outside : Pc
  -- before `lastReturned_.load()`, with its `wallTime48`
  loading : ℕ → Pc
  -- before `logicalCounter_++`, with its `wallTime48` and `prev`
  counting : ℕ → ℕ → Pc
  -- before `compare_exchange_weak(prev, candidate)`
  swapping : ℕ → ℕ → ℕ → Pc

pub record System : Type 0 where
  pub state : State
  pub pc : ℕ → Pc
  -- the timestamps that were returned, the last one first
  pub returned : List ℕ

unfoldable pub update : (ℕ → Pc) → ℕ → Pc → ℕ → Pc
update pc i p j = if i == j then p else pc j

-- The steps of thread `i`, where the clock shows less than `limit` milliseconds (in 48 bits).
pub data Step (limit : ℕ) (s : System) : System → Type 0 where
  read_clock :
      (i millis : ℕ)
      → s.pc i ≡ outside
      → millis % 2 ^ 48 < limit
      → Step limit s (record s { pc = update s.pc i (loading (wall_time millis)) })
  load :
      (i wall : ℕ)
      → s.pc i ≡ loading wall
      → Step limit s (record s { pc = update s.pc i (counting wall s.state.last_returned) })
  count :
      (i wall prev : ℕ)
      → s.pc i ≡ counting wall prev
      → Step limit s (record s {
        state = record s.state { logical_counter = (s.state.logical_counter + 1) % 2 ^ 64 };
        pc = update s.pc i (swapping wall prev (candidate wall s.state.logical_counter prev));
      })
  swap :
      (i wall prev new : ℕ)
      → s.pc i ≡ swapping wall prev new
      → s.state.last_returned ≡ prev
      → Step limit s (record {
        state = record s.state { last_returned = new };
        pc = update s.pc i outside;
        returned = new ∷ s.returned;
      })
  -- the exchange fails, because of another thread or spuriously, and the loop starts again
  swap_fails :
      (i wall prev new : ℕ)
      → s.pc i ≡ swapping wall prev new
      → Step limit s (record s { pc = update s.pc i (loading wall) })

abbrev pub initial : System
initial = record {
  state = record { logical_counter = 0; last_returned = 0 };
  pc = λ _. outside;
  returned = [];
}

pub data Reach (limit : ℕ) : System → Type 0 where
  start : Reach limit initial
  later : {s t : System} → Reach limit s → Step limit s t → Reach limit t
