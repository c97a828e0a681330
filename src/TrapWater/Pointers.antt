-- ===== src/TrapWater/Pointers.antt =====
-- What the two pointers of `trap` keep from round to round.
use code_c.Base.{ℕ, suc, ◌+◌, ◌-◌, ◌≤◌, ◌<◌, max, ◌≡◌, ap, sym, ◌∙◌, List, arith, length, get_or}
use code_c.TrapWater.{raise}
use code_c.TrapWater.Levels.{
  highest_to, highest_from, level, highest_to-zero, highest_from-length, highest_to-suc,
  highest_from-suc, highest_to_mono, highest_from_mono, get_or-le_to, get_or-le_from,
}

raise-max : (v h : ℕ) → raise v h ≡ max v h
unfolding raise
raise-max v h = ground arith

-- `val` is the highest wall left behind on both sides, and neither side is above what the other meets.
pub record Meets (height : List ℕ) (i e val : ℕ) : Type 0 where
  value : val ≡ max (highest_to height i) (highest_from height e)
  left_low : highest_to height i ≤ max (highest_from height e) (get_or height (e - 1) 0)
  right_low : highest_from height e ≤ max (highest_to height i) (get_or height i 0)

pub start-Meets : (height : List ℕ) → Meets height 0 (length height) 0
start-Meets height = record {
  value = omega (arith, highest_to-zero height, highest_from-length height);
  left_low = omega (arith, highest_to-zero height);
  right_low = omega (arith, highest_from-length height);
}

module _ (height : List ℕ) (i e val : ℕ) (state : Meets height i e val) (room : i < e)
    (bound : e ≤ length height) where
  fewer : highest_from height (e - 1) ≡ max (get_or height (e - 1) 0) (highest_from height e)
  fewer =
      let last : e ≡ suc (e - 1) = omega arith in
      highest_from-suc height (e - 1) (omega arith)
      ∙ ap (λ t. max (get_or height (e - 1) 0) (highest_from height t)) (sym last)

  pub left_level :
      get_or height i 0 ≤ get_or height (e - 1) 0 → level height i ≡ raise val (get_or height i 0)
  unfolding level
  left_level low = omega (
    arith,
    raise-max val (get_or height i 0),
    state.value,
    state.left_low,
    state.right_low,
    highest_to-suc height i (omega arith),
    highest_from-suc height i (omega arith),
    highest_from_mono height (e - i) i e (omega arith) bound,
    get_or-le_from height i (e - 1) (omega arith),
  )

  pub left_Meets :
      get_or height i 0 ≤ get_or height (e - 1) 0
      → Meets height (i + 1) e (raise val (get_or height i 0))
  left_Meets low =
      let next : i + 1 ≡ suc i = omega arith in
      rw next (record {
        value = omega (
          arith,
          raise-max val (get_or height i 0),
          state.value,
          highest_to-suc height i (omega arith),
        );
        left_low = omega (arith, state.left_low, highest_to-suc height i (omega arith));
        right_low = omega (arith, state.right_low, highest_to-suc height i (omega arith));
      })

  pub right_level :
      get_or height (e - 1) 0 < get_or height i 0
      → level height (e - 1) ≡ raise val (get_or height (e - 1) 0)
  unfolding level
  right_level low =
      let last : suc (e - 1) ≡ e = omega arith in
      rw last (
        omega (
          arith,
          raise-max val (get_or height (e - 1) 0),
          state.value,
          state.left_low,
          state.right_low,
          fewer,
          highest_to_mono height (e - i) i e (omega arith) bound,
          get_or-le_to height i e room bound,
        ))

  pub right_Meets :
      get_or height (e - 1) 0 < get_or height i 0
      → Meets height i (e - 1) (raise val (get_or height (e - 1) 0))
  right_Meets low = record {
    value = omega (arith, raise-max val (get_or height (e - 1) 0), state.value, fewer);
    left_low = omega (arith, state.left_low, fewer);
    right_low = omega (arith, state.right_low, fewer);
  }
