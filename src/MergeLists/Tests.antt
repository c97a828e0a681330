-- ===== src/MergeLists/Tests.antt =====
-- A priority queue that searches its list, and three lists for 23.cpp.
use code_c.Base.{
  ℕ, ◌+◌, ◌≡◌, ◌≢◌, ◌≤◌, ◌&&◌, refl, sym, Bool, true, false, Option, none, some, List, [], ◌∷◌, leb,
  if◌then◌else◌, arith, All, Bool-cases, inl, inr, subst, some_injective,
}
use code_c.MergeLists.{weight, cmp}
use code_c.MergeLists.Sorted.{Sorted}

-- The first value of `l` is not above that of `m`.
abbrev NotAbove : List ℕ → List ℕ → Type 0
NotAbove (x ∷ xs) (y ∷ ys) = x ≤ y
NotAbove l m = Unit

-- Whether the first value of `l` is at most that of `m`.
abbrev before : List ℕ → List ℕ → Bool
before (x ∷ xs) (y ∷ ys) = leb x y
before [] m = true
before (x ∷ xs) [] = false

-- The least of a list and a queue, and the others.
abbrev taken : List ℕ → List (List ℕ) → List ℕ × List (List ℕ)
taken l [] = (l, [])
taken l (m ∷ q) =
    let kept = taken l q in
    let replaced = taken m q in
    if before l m then (kept.0, m ∷ kept.1) else (replaced.0, l ∷ replaced.1)

abbrev pop : List (List ℕ) → Option (List ℕ × List (List ℕ))
pop [] = none
pop (l ∷ q) = some (taken l q)

before_trans : (l m n : List ℕ) → before l m ≡ true → before m n ≡ true → before l n ≡ true
before_trans [] m n h k = refl
before_trans (x ∷ xs) [] n h k = absurd (ground (arith, h))
before_trans (x ∷ xs) (y ∷ ys) [] h k = absurd (ground (arith, k))
before_trans (x ∷ xs) (y ∷ ys) (z ∷ zs) h k = ground arith

before_total : (l m : List ℕ) → before l m ≡ false → before m l ≡ true
before_total [] m h = absurd (ground (arith, h))
before_total (x ∷ xs) [] h = refl
before_total (x ∷ xs) (y ∷ ys) h = ground arith

-- What `taken` gives.
abbrev IsTaken : List ℕ → List (List ℕ) → List ℕ × List (List ℕ) → Type 1
IsTaken l q (t, rest) =
    (before t l ≡ true)
    × All (λ m. before t m ≡ true) q
    × ((P : List ℕ → Type 0) → P l → All P q → P t × All P rest)
    × ((f : List ℕ → ℕ) → f l + weight f q ≡ f t + weight f rest)

before_self : (l : List ℕ) → before l l ≡ true
before_self [] = refl
before_self (x ∷ xs) = ground arith

taken_kept :
    (l m : List ℕ) (q : List (List ℕ))
    → before l m ≡ true
    → taken l (m ∷ q) ≡ ((taken l q).0, m ∷ (taken l q).1)
taken_kept l m q e = rw e refl

taken_replaced :
    (l m : List ℕ) (q : List (List ℕ))
    → before l m ≡ false
    → taken l (m ∷ q) ≡ ((taken m q).0, l ∷ (taken m q).1)
taken_replaced l m q e = rw e refl

taken-IsTaken : (l : List ℕ) (q : List (List ℕ)) → IsTaken l q (taken l q)
taken-IsTaken l [] = (before_self l, tt, λ P p all. (p, tt), λ f. refl)
taken-IsTaken l (m ∷ q) = elim (Bool-cases (before l m)) [
  | inl e ↦
      let (first_ok, all, members, weights) = taken-IsTaken l q in
      subst (IsTaken l (m ∷ q)) (sym (taken_kept l m q e)) (
        first_ok,
        (before_trans (taken l q).0 l m first_ok e, all),
        λ P p ps. let r = members P p ps.1 in (r.0, (ps.0, r.1)),
        λ f. omega (arith, weights f),
      )
  | inr e ↦
      let (first_ok, all, members, weights) = taken-IsTaken m q in
      subst (IsTaken l (m ∷ q)) (sym (taken_replaced l m q e)) (
        before_trans (taken m q).0 m l first_ok (before_total l m e),
        (first_ok, all),
        λ P p ps. let r = members P ps.0 ps.1 in (r.0, (p, r.1)),
        λ f. omega (arith, weights f),
      )
]

empty : (q : List (List ℕ)) → pop q ≡ none → q ≡ []
empty [] e = refl
empty (l ∷ q) e = absurd (ground (arith, e))

members_of :
    (P : List ℕ → Type 0) (q rest : List (List ℕ)) (t : List ℕ)
    → pop q ≡ some (t, rest)
    → All P q
    → P t × All P rest
members_of P [] rest t e h = absurd (ground (arith, e))
members_of P (l ∷ q) rest t e h =
    let same : taken l q ≡ (t, rest) = some_injective e in
    subst (λ (u : List ℕ × List (List ℕ)). P u.0 × All P u.1) same ((taken-IsTaken l q).2 P h.0 h.1)

-- The least is above no other, where no two elements are on a level with it.
level : (l m : List ℕ) → l ≢ [] → m ≢ [] → cmp l m ≡ true → NotAbove l m → cmp m l ≡ true
unfolding cmp
level [] m nl nm h k = absurd (nl refl)
level (x ∷ l) [] nl nm h k = absurd (nm refl)
level (x ∷ l) (y ∷ m) nl nm h k = ground arith

-- How many of a queue are on a level with `t`.
abbrev on_level : List ℕ → List ℕ → ℕ
on_level t l = if cmp l t && cmp t l then 1 else 0

abbrev three_lists : List (List ℕ)
three_lists = (1 ∷ 4 ∷ 5 ∷ []) ∷ [] ∷ (3 ∷ []) ∷ (2 ∷ 6 ∷ []) ∷ []
