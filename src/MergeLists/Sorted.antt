-- ===== src/MergeLists/Sorted.antt =====
-- The list that 23.cpp returns.
use code_c.Base.{ℕ, ◌≡◌, ◌≢◌, ◌≤◌, Option, some, List, [], ◌∷◌, All}
use code_c.MergeLists.{weight, count}

abbrev pub AtLeast : ℕ → List ℕ → Type 0
AtLeast low l = All (λ x. low ≤ x) l

abbrev pub Sorted : List ℕ → Type 0
Sorted [] = Unit
Sorted (x ∷ xs) = AtLeast x xs × Sorted xs

-- A list in the queue once `low` is chained.
abbrev Waits : ℕ → List ℕ → Type 0
Waits low l = (l ≢ []) × Sorted l × AtLeast low l

-- What the loop makes of a queue, once `low` is chained.
abbrev Makes : ℕ → List (List ℕ) → Option (List ℕ) → Type 0
Makes low q answer =
    (r : List ℕ) × (answer ≡ some r)
    × Sorted r
    × AtLeast low r
    × ((v : ℕ) → count v r ≡ weight (count v) q)
