-- ===== src/Palindrome/Mirror.antt =====
-- The two inner loops of 214.cpp.
use code_c.Base.{
  ℕ, zero, suc, ◌-◌, ◌≤◌, ◌<◌, ◌≡◌, ◌≢◌, ap, sym, ◌∙◌, Option, none, some, List, ◌==◌, ==_iff,
  arith, get_or, Bool-cases, inl, inr, ℕ_discrete,
}
use code_c.Palindrome.{mirror_loop, find_same}

-- The characters up to place `c` are the same from both ends.
abbrev pub Mirrored : List ℕ → ℕ → Type 0
Mirrored s c = (j : ℕ) → j ≤ c → get_or s j 0 ≡ get_or s (c - j) 0

-- What the loop over `j` finds: nothing, and then all places are mirrored, or a place that is not.
abbrev pub Found : List ℕ → ℕ → ℕ → Option ℕ → Type 0
Found s i rounds none = (j : ℕ) → j < rounds → get_or s j 0 ≡ get_or s (i - j) 0
Found s i rounds (some j) = (j < rounds) × (get_or s j 0 ≢ get_or s (i - j) 0)

Found-more :
    (s : List ℕ) (i rounds : ℕ) (o : Option ℕ)
    → get_or s rounds 0 ≡ get_or s (i - rounds) 0
    → Found s i rounds o
    → Found s i (suc rounds) o
Found-more s i rounds none e h =
    λ j below. elim (ℕ_discrete j rounds) [ yes same ↦ rw same e | no other ↦ h j (omega arith) ]
Found-more s i rounds (some j) e h = (omega (arith, h.0), h.1)

pub mirror_loop-Found : (s : List ℕ) (i rounds : ℕ) → Found s i rounds (mirror_loop s i rounds)
unfolding mirror_loop
mirror_loop-Found s i zero = λ j h. absurd (omega arith)
mirror_loop-Found s i (suc j) = elim (Bool-cases (get_or s j 0 == get_or s (i - j) 0)) [
  | inl same ↦ rw same (Found-more s i j _ ((==_iff _ _).0 same) (mirror_loop-Found s i j))
  | inr other ↦ rw other (omega arith, λ e. cc (other, (==_iff _ _).1 e))
]

-- The loop over `k` stops behind the last place where the character stands.
pub find_same-le : (s : List ℕ) (c rounds : ℕ) → find_same s c rounds ≤ rounds
unfolding find_same
find_same-le s c zero = omega arith
find_same-le s c (suc k) = ground (arith, find_same-le s c k)

pub find_same_last :
    (s : List ℕ) (c rounds k : ℕ) → find_same s c rounds ≤ k → k < rounds → get_or s k 0 ≢ c
unfolding find_same
find_same_last s c zero k lo hi = absurd (omega arith)
find_same_last s c (suc r) k lo hi = elim (Bool-cases (get_or s r 0 == c)) [
  | inl same ↦ absurd (ground arith)
  | inr other ↦ elim (ℕ_discrete k r) [
    | yes e ↦ λ d. cc (other, (==_iff _ _).1 (ap (λ t. get_or s t 0) (sym e) ∙ d))
    | no ne ↦ find_same_last s c r k (ground arith) (omega arith)
  ]
]
