-- ===== src/TrapWater/Levels.antt =====
-- The water level over a wall: the lower of the highest wall up to it and the highest from it on.
use code_c.Base.{
  ℕ, zero, suc, ◌+◌, ◌-◌, ◌≤◌, ◌<◌, max, min, ◌≡◌, refl, List, [], ◌∷◌, arith, length, get_or, take,
  drop,
}

pub maximum : List ℕ → ℕ
maximum [] = 0
maximum (x ∷ xs) = max x (maximum xs)

-- The highest of the first `i` walls, and of those from `i` on.
pub highest_to : List ℕ → ℕ → ℕ
highest_to height i = maximum (take i height)

pub highest_from : List ℕ → ℕ → ℕ
highest_from height i = maximum (drop i height)

unfoldable pub level : List ℕ → ℕ → ℕ
level height k = min (highest_to height (suc k)) (highest_from height k)

-- The water over the `n` walls from `i` on.
unfoldable pub water : List ℕ → ℕ → ℕ → ℕ
water height i zero = 0
water height i (suc n) = (level height i - get_or height i 0) + water height (suc i) n

pub highest_to-zero : (height : List ℕ) → highest_to height 0 ≡ 0
unfolding highest_to maximum
highest_to-zero height = refl

pub highest_from-length : (height : List ℕ) → highest_from height (length height) ≡ 0
unfolding highest_from maximum
highest_from-length [] = refl
highest_from-length (x ∷ xs) = highest_from-length xs

pub highest_to-suc :
    (height : List ℕ) (i : ℕ)
    → i < length height
    → highest_to height (suc i) ≡ max (highest_to height i) (get_or height i 0)
unfolding highest_to maximum
highest_to-suc [] i h = absurd (omega arith)
highest_to-suc (x ∷ xs) zero h = omega arith
highest_to-suc (x ∷ xs) (suc i) h = omega (arith, highest_to-suc xs i (omega arith))

pub highest_from-suc :
    (height : List ℕ) (i : ℕ)
    → i < length height
    → highest_from height i ≡ max (get_or height i 0) (highest_from height (suc i))
unfolding highest_from maximum
highest_from-suc [] i h = absurd (omega arith)
highest_from-suc (x ∷ xs) zero h = refl
highest_from-suc (x ∷ xs) (suc i) h = highest_from-suc xs i (omega arith)

-- A wall is not higher than the highest up to it, or from a place before it on.
pub get_or-le_to :
    (height : List ℕ) (i k : ℕ)
    → i < k
    → k ≤ length height
    → get_or height i 0 ≤ highest_to height k
unfolding highest_to maximum
get_or-le_to [] i zero h b = elim h [ ]
get_or-le_to [] i (suc k) h b = absurd (omega arith)
get_or-le_to (x ∷ xs) i zero h b = elim h [ ]
get_or-le_to (x ∷ xs) zero (suc k) h b = omega arith
get_or-le_to (x ∷ xs) (suc i) (suc k) h b =
    omega (arith, get_or-le_to xs i k (omega arith) (omega arith))

pub get_or-le_from : (height : List ℕ) (i k : ℕ) → i ≤ k → get_or height k 0 ≤ highest_from height i
unfolding highest_from maximum
get_or-le_from [] i k h = omega arith
get_or-le_from (x ∷ xs) zero zero h = omega arith
get_or-le_from (x ∷ xs) zero (suc k) h = omega (arith, get_or-le_from xs zero k (omega arith))
get_or-le_from (x ∷ xs) (suc i) zero h = absurd (omega arith)
get_or-le_from (x ∷ xs) (suc i) (suc k) h = get_or-le_from xs i k (omega arith)

pub water_last :
    (height : List ℕ) (i n k : ℕ)
    → k ≡ i + n
    → water height i (suc n) ≡ water height i n + (level height k - get_or height k 0)
unfolding water
water_last height i zero k e = let same : k ≡ i = omega arith in rw same (omega arith)
water_last height i (suc n) k e = omega (arith, water_last height (suc i) n k (omega arith))

-- The highest wall only grows with the row.
pub highest_to_mono :
    (height : List ℕ) (n i k : ℕ)
    → k ≡ i + n
    → k ≤ length height
    → highest_to height i ≤ highest_to height k
highest_to_mono height zero i k e b = let same : k ≡ i = omega arith in rw same (omega arith)
highest_to_mono height (suc n) i zero e b = absurd (omega arith)
highest_to_mono height (suc n) i (suc k) e b = omega (
  arith,
  highest_to_mono height n i k (omega arith) (omega arith),
  highest_to-suc height k (omega arith),
)

pub highest_from_mono :
    (height : List ℕ) (n i k : ℕ)
    → k ≡ i + n
    → k ≤ length height
    → highest_from height k ≤ highest_from height i
highest_from_mono height zero i k e b = let same : k ≡ i = omega arith in rw same (omega arith)
highest_from_mono height (suc n) i zero e b = absurd (omega arith)
highest_from_mono height (suc n) i (suc k) e b = omega (
  arith,
  highest_from_mono height n i k (omega arith) (omega arith),
  highest_from-suc height k (omega arith),
)
