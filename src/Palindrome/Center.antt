-- ===== src/Palindrome/Center.antt =====
-- The outer loop of 214.cpp: the last axis around which the text is mirrored.
use code_c.Base.{
  ℕ, zero, suc, ◌+◌, ◌-◌, ◌/◌, ◌≤◌, ◌<◌, ◌≡◌, ◌≢◌, refl, ap, sym, ◌∙◌, some, List, Option-cases,
  subst, arith, get_or, inl, inr, ℕ_discrete, dec_lt,
}
use code_c.Palindrome.{mirror_loop, next_center, center_step, center_loop}
use code_c.Palindrome.Mirror.{Mirrored, Found, mirror_loop-Found, find_same-le, find_same_last}

-- The half that the loop over `j` looks at is enough.
half-Mirrored :
    (s : List ℕ) (i : ℕ)
    → ((j : ℕ) → j < i / 2 + 1 → get_or s j 0 ≡ get_or s (suc i - j) 0)
    → Mirrored s (suc i)
half-Mirrored s i h = λ j le. elim (dec_lt j (i / 2 + 1)) [
  | yes low ↦ h j low
  | no high ↦ elim (dec_lt (suc i - j) (i / 2 + 1)) [
    | yes low ↦
        let back : suc i - (suc i - j) ≡ j = omega arith in
        sym (h (suc i - j) low ∙ ap (λ k. get_or s k 0) back)
    | no middle ↦ ap (λ k. get_or s k 0) (omega arith)
  ]
]

-- `c` is the last place up to `top` up to which the text is mirrored.
abbrev pub IsCenter : List ℕ → ℕ → ℕ → Type 0
IsCenter s top c = (c ≤ top) × Mirrored s c × ((d : ℕ) → c < d → d ≤ top → ¬ Mirrored s d)

module _ (s : List ℕ) (i j : ℕ) (below : j < i / 2 + 1)
    (differ : get_or s j 0 ≢ get_or s (suc i - j) 0) where
  falls : next_center s (suc i) j < suc i
  unfolding next_center
  falls = omega (arith, find_same-le s (get_or s (suc i - j) 0) j)

  -- No axis is skipped.
  skipped : (d : ℕ) → next_center s (suc i) j < d → d ≤ suc i → ¬ Mirrored s d
  unfolding next_center
  skipped d lo hi m = elim (ℕ_discrete d (suc i)) [
    | yes e ↦ differ (m j (omega arith) ∙ ap (λ k. get_or s (k - j) 0) e)
    | no ne ↦
        let q_le = find_same-le s (get_or s (suc i - j) 0) j in
        let place : d - (d + j - suc i) ≡ suc i - j = omega arith in
        find_same_last s (get_or s (suc i - j) 0) j (d + j - suc i) (omega arith) (omega arith)
          (m (d + j - suc i) (omega arith) ∙ ap (λ k. get_or s k 0) place)
  ]

  from_next : (c : ℕ) → IsCenter s (next_center s (suc i) j) c → IsCenter s (suc i) c
  from_next c h = (
    omega (arith, h.0, falls),
    h.1,
    λ d lo hi. elim (dec_lt (next_center s (suc i) j) d) [
      | yes above ↦ skipped d above hi
      | no under ↦ h.2 d lo (omega arith)
    ],
  )

-- With more fuel than `i` the loop ends, at the last axis.
pub center_loop-IsCenter :
    (fuel : ℕ) (s : List ℕ) (i : ℕ)
    → i < fuel
    → (c : ℕ) × (center_loop fuel s i ≡ some c) × IsCenter s i c
unfolding center_loop center_step
center_loop-IsCenter zero s i h = absurd (omega arith)
center_loop-IsCenter (suc fuel) s zero h = (
  0,
  refl,
  (omega arith, λ j le. ap (λ k. get_or s k 0) (omega arith), λ d lo hi. absurd (omega arith)),
)
center_loop-IsCenter (suc fuel) s (suc i) h =
    let found = mirror_loop-Found s (suc i) (i / 2 + 1) in
    elim (Option-cases (mirror_loop s (suc i) (i / 2 + 1))) [
      | inl n ↦ (
        suc i,
        rw n refl,
        (
          omega arith,
          half-Mirrored s i (subst (Found s (suc i) (i / 2 + 1)) n found),
          λ d lo hi. absurd (omega arith),
        ),
      )
      | inr (j, e) ↦
          let (below, differ) = subst (Found s (suc i) (i / 2 + 1)) e found in
          let (c, ends, center) =
            center_loop-IsCenter fuel s (next_center s (suc i) j)
              (omega (arith, falls s i j below differ)) in
          (c, rw e ends, from_next s i j below differ c center)
    ]
