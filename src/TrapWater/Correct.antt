-- ===== src/TrapWater/Correct.antt =====
-- The results of `trap` in 42-2.cpp and 42.cpp.
use code_c.Base.{
  ℕ, zero, suc, ◌+◌, ◌-◌, ◌≤◌, ◌<◌, ◌≡◌, refl, ap, sym, ◌⊎◌, ◌∙◌, List, arith, dec_le, ℕ_discrete,
  lt→ltb, le→leb, gt→leb, length, get_or, set, replicate, length-set, length-replicate,
  get_or-set_self, get_or-set_ne,
}
use code_c.TrapWater.{raise, trap_loop, trap, level_loop, sum_loop, trap_with_levels}
use code_c.TrapWater.Levels.{level, water, water_last}
use code_c.TrapWater.Pointers.{Meets, start-Meets, left_level, left_Meets, right_level, right_Meets}

trap_loop-water :
    (m : ℕ) (height : List ℕ) (i e val result : ℕ)
    → e ≡ i + m
    → e ≤ length height
    → Meets height i e val
    → trap_loop m height i e val result ≡ result + water height i m
unfolding trap_loop water
trap_loop-water zero height i e val result gap bound state = omega arith
trap_loop-water (suc m) height i e val result gap bound state =
    elim (dec_le (get_or height i 0) (get_or height (e - 1) 0)) [
      | yes low ↦
          rw (lt→ltb i e room, le→leb (get_or height i 0) (get_or height (e - 1) 0) low)
            (omega (
              arith,
              left_level height i e val state room bound low,
              ap (λ t. water height t m) next,
              trap_loop-water m height (i + 1) e left (result + (left - get_or height i 0))
                  (omega arith) bound (left_Meets height i e val state room bound low),
            ))
      | no high ↦
          rw (lt→ltb i e room, gt→leb (get_or height i 0) (get_or height (e - 1) 0) (omega arith))
            (omega (
              arith,
              right_level height i e val state room bound (omega arith),
              water_last height i m (e - 1) (omega arith),
              trap_loop-water m height i (e - 1) right (result + (right - get_or height (e - 1) 0))
                  (omega arith) (omega arith)
                  (right_Meets height i e val state room bound (omega arith)),
            ))
    ]
  where
    left : ℕ
    left = raise val (get_or height i 0)

    right : ℕ
    right = raise val (get_or height (e - 1) 0)

    room : i < e
    room = omega arith

    next : i + 1 ≡ suc i
    next = omega arith

-- `trap` of 42-2.cpp returns, for every row, the sum over its walls of what the lower of the highest
-- wall up to it and the highest wall from it on is above it.
pub trap-water : (height : List ℕ) → trap height ≡ water height 0 (length height)
unfolding trap
trap-water height = omega (
  arith,
  trap_loop-water (length height) height 0 (length height) 0 0 (omega arith) (omega arith)
      (start-Meets height),
)

level_loop-outside :
    (m : ℕ) (height : List ℕ) (i e val : ℕ) (h : List ℕ) (k : ℕ)
    → e ≡ i + m
    → (k < i) ⊎ (e ≤ k)
    → get_or (level_loop m height i e val h) k 0 ≡ get_or h k 0
unfolding level_loop
level_loop-outside zero height i e val h k gap out = refl
level_loop-outside (suc m) height i e val h k gap out =
    elim (dec_le (get_or height i 0) (get_or height (e - 1) 0)) [
      | yes low ↦
          rw (lt→ltb i e room, le→leb (get_or height i 0) (get_or height (e - 1) 0) low)
            (level_loop-outside m height (i + 1) e left (set h i left) k (omega arith) (omega arith)
              ∙ get_or-set_ne h i k left 0 (omega arith))
      | no high ↦
          rw (lt→ltb i e room, gt→leb (get_or height i 0) (get_or height (e - 1) 0) (omega arith))
            (level_loop-outside m height i (e - 1) right (set h (e - 1) right) k (omega arith)
                (omega arith)
              ∙ get_or-set_ne h (e - 1) k right 0 (omega arith))
    ]
  where
    left : ℕ
    left = raise val (get_or height i 0)

    right : ℕ
    right = raise val (get_or height (e - 1) 0)

    room : i < e
    room = omega arith

level_loop-level :
    (m : ℕ) (height : List ℕ) (i e val : ℕ) (h : List ℕ) (k : ℕ)
    → e ≡ i + m
    → e ≤ length height
    → length h ≡ length height
    → Meets height i e val
    → i ≤ k
    → k < e
    → get_or (level_loop m height i e val h) k 0 ≡ level height k
unfolding level_loop
level_loop-level zero height i e val h k gap bound size state from to = absurd (omega arith)
level_loop-level (suc m) height i e val h k gap bound size state from to =
    elim (dec_le (get_or height i 0) (get_or height (e - 1) 0)) [
      | yes low ↦
          rw (lt→ltb i e room, le→leb (get_or height i 0) (get_or height (e - 1) 0) low)
            (elim (ℕ_discrete i k) [
              | yes same ↦
                  level_loop-outside m height (i + 1) e left (set h i left) k (omega arith)
                    (omega arith)
                  ∙ rw (sym same) (
                      get_or-set_self h i left 0 (omega (arith, size))
                      ∙ sym (left_level height i e val state room bound low))
              | no other ↦
                  level_loop-level m height (i + 1) e left (set h i left) k (omega arith) bound
                    (omega (arith, size, length-set h i left))
                    (left_Meets height i e val state room bound low) (omega arith) to
            ])
      | no high ↦
          rw (lt→ltb i e room, gt→leb (get_or height i 0) (get_or height (e - 1) 0) (omega arith))
            (elim (ℕ_discrete (e - 1) k) [
              | yes same ↦
                  level_loop-outside m height i (e - 1) right (set h (e - 1) right) k (omega arith)
                    (omega arith)
                  ∙ rw (sym same) (
                      get_or-set_self h (e - 1) right 0 (omega (arith, size))
                      ∙ sym (right_level height i e val state room bound (omega arith)))
              | no other ↦
                  level_loop-level m height i (e - 1) right (set h (e - 1) right) k (omega arith)
                    (omega arith) (omega (arith, size, length-set h (e - 1) right))
                    (right_Meets height i e val state room bound (omega arith)) from (omega arith)
            ])
    ]
  where
    left : ℕ
    left = raise val (get_or height i 0)

    right : ℕ
    right = raise val (get_or height (e - 1) 0)

    room : i < e
    room = omega arith

sum_loop-water :
    (n i : ℕ) (h height : List ℕ) (result : ℕ)
    → ((k : ℕ) → i ≤ k → k < i + n → get_or h k 0 ≡ level height k)
    → sum_loop n i h height result ≡ result + water height i n
unfolding sum_loop water
sum_loop-water zero i h height result levels = omega arith
sum_loop-water (suc n) i h height result levels =
    let next : i + 1 ≡ suc i = omega arith in
    rw next (
      omega (
        arith,
        levels i (omega arith) (omega arith),
        sum_loop-water n (suc i) h height (result + (get_or h i 0 - get_or height i 0))
            (λ k from to. levels k (omega arith) (omega arith)),
      ))

-- The two versions agree: `trap` of 42.cpp, which writes the levels into a second vector and sums
-- the differences, returns for every row what `trap` of 42-2.cpp returns.
pub trap_with_levels-trap : (height : List ℕ) → trap_with_levels height ≡ trap height
unfolding trap_with_levels
trap_with_levels-trap height = omega (
  arith,
  trap-water height,
  sum_loop-water (length height) 0 h height 0 (λ k from to.
      level_loop-level (length height) height 0 (length height) 0 blank k (omega arith)
        (omega arith) (length-replicate (length height) 0) (start-Meets height) from (omega arith)),
)
  where
    blank : List ℕ
    blank = replicate (length height) 0

    h : List ℕ
    h = level_loop (length height) height 0 (length height) 0 blank
