-- ===== src/Hlc/Tests.antt =====
-- A run of two threads, and the theorem at it.
use enigma.Prelude.{◌≡◌, refl, arith, [], ◌∷◌}
use enigma.Hlc.{
  candidate, wall_time, update, System, Step.read_clock, Step.load, Step.count, Step.swap,
  Step.swap_fails, Reach, Reach.start, Reach.later,
}
use enigma.Hlc.Order.{Falls, returned-Falls}

clock_stands_still : candidate (wall_time 1) 70000 80000 ≡ 80001
unfolding candidate
clock_stands_still = refl

-- Thread 0 takes its previous timestamp, thread 1 returns first, and the exchange of thread 0 fails
-- and is tried again.
unfoldable race : (t : System) × Reach 10 t × (t.returned ≡ 327682 ∷ 327680 ∷ [])
unfolding update candidate
race =
    let h1 = later start (read_clock 0 5 refl (omega arith)) in
    let h2 = later h1 (load 0 (wall_time 5) refl) in
    let h3 = later h2 (read_clock 1 5 refl (omega arith)) in
    let h4 = later h3 (load 1 (wall_time 5) refl) in
    let h5 = later h4 (count 1 (wall_time 5) 0 refl) in
    let h6 = later h5 (swap 1 (wall_time 5) 0 327680 refl refl) in
    let h7 = later h6 (count 0 (wall_time 5) 0 refl) in
    let h8 = later h7 (swap_fails 0 (wall_time 5) 0 327681 refl) in
    let h9 = later h8 (load 0 (wall_time 5) refl) in
    let h10 = later h9 (count 0 (wall_time 5) 327680 refl) in
    (_, later h10 (swap 0 (wall_time 5) 327680 327682 refl refl), refl)

returned-Falls_example : Falls race.0.returned
unfolding race
returned-Falls_example = returned-Falls 10 race.0 race.1 (omega arith)
