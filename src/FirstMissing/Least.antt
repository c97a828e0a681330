-- ===== src/FirstMissing/Least.antt =====
-- What `firstMissingPositive` returns.
use code_c.Base.{
  ℕ, zero, suc, ◌+◌, ◌-◌, ◌≤◌, ◌<◌, ◌≡◌, ◌≢◌, refl, sym, ◌∙◌, Bool, true, false, Bool-cases, inl,
  inr, List, [], ◌∷◌, ◌==◌, ==_iff, lt→ltb, if◌then◌else◌, ℕ_discrete, dec_lt, arith, length,
  get_or, take, replicate, length-set, length-replicate, get_or-set_self, get_or-set_ne,
}
use code_c.Base.Int.{ℤ, pos, negsuc}
use code_c.FirstMissing.{sized, mark, mark_loop, scan_loop, first_missing}

-- Is the number `k` in the list?
pub among : ℕ → List ℤ → Bool
among k [] = false
among k (pos n ∷ nums) = if n == k then true else among k nums
among k (negsuc n ∷ nums) = among k nums

-- The list without one of its numbers `k`.
remove : ℕ → List ℤ → List ℤ
remove k [] = []
remove k (pos n ∷ nums) = let rest = remove k nums in if n == k then nums else pos n ∷ rest
remove k (negsuc n ∷ nums) = negsuc n ∷ remove k nums

length-remove :
    (k : ℕ) (nums : List ℤ) → among k nums ≡ true → length (remove k nums) + 1 ≡ length nums
unfolding among remove
length-remove k [] h = absurd (ground arith)
length-remove k (pos n ∷ nums) h = elim (Bool-cases (n == k)) [
  | inl e ↦ rw e (omega arith)
  | inr e ↦ rw e (omega (arith, length-remove k nums (ground arith)))
]
length-remove k (negsuc n ∷ nums) h = omega (arith, length-remove k nums h)

among-remove : (k j : ℕ) (nums : List ℤ) → k ≢ j → among j (remove k nums) ≡ among j nums
unfolding among remove
among-remove k j [] h = refl
among-remove k j (pos n ∷ nums) h = ground (arith, among-remove k j nums h)
among-remove k j (negsuc n ∷ nums) h = among-remove k j nums h

-- A list that has the numbers from 1 to `m` is not shorter than `m`.
pigeonhole :
    (m : ℕ) (nums : List ℤ) → ((k : ℕ) → 0 < k → k ≤ m → among k nums ≡ true) → m ≤ length nums
pigeonhole zero nums h = omega arith
pigeonhole (suc m) nums h = omega (
  arith,
  length-remove (suc m) nums (h (suc m) (omega arith) (omega arith)),
  pigeonhole m (remove (suc m) nums)
      (λ k low high. among-remove (suc m) k nums (omega arith) ∙ h k low (omega arith)),
)

length-mark : (n : ℤ) (v : List Bool) → length (mark n v) ≡ length v
unfolding mark
length-mark (pos n) v = ground (arith, length-set v n true)
length-mark (negsuc n) v = refl

length-mark_loop : (nums : List ℤ) (v : List Bool) → length (mark_loop nums v) ≡ length v
unfolding mark_loop
length-mark_loop [] v = refl
length-mark_loop (n ∷ nums) v = length-mark_loop nums (mark n v) ∙ length-mark n v

mark_ne : (n k : ℕ) (v : List Bool) → n ≢ k → get_or (mark (pos n) v) k false ≡ get_or v k false
unfolding mark
mark_ne n k v h = ground (arith, get_or-set_ne v n k true false h)

mark_self : (n : ℕ) (v : List Bool) → 0 < n → n < length v → get_or (mark (pos n) v) n false ≡ true
unfolding mark
mark_self n v low high =
    rw (lt→ltb 0 n low, lt→ltb n (length v) high) (get_or-set_self v n true false high)

marked_stays :
    (nums : List ℤ) (v : List Bool) (k : ℕ)
    → 0 < k
    → k < length v
    → get_or v k false ≡ true
    → get_or (mark_loop nums v) k false ≡ true
unfolding mark_loop
marked_stays [] v k low high h = h
marked_stays (pos n ∷ nums) v k low high h =
    marked_stays nums (mark (pos n) v) k low (omega (arith, length-mark (pos n) v))
      (elim (ℕ_discrete n k) [
        | yes same ↦ rw same (mark_self k v low high)
        | no other ↦ mark_ne n k v other ∙ h
      ])
marked_stays (negsuc n ∷ nums) v k low high h = marked_stays nums v k low high h

mark_loop-among :
    (nums : List ℤ) (v : List Bool) (k : ℕ)
    → 0 < k
    → k < length v
    → get_or v k false ≡ false
    → get_or (mark_loop nums v) k false ≡ among k nums
unfolding mark_loop among
mark_loop-among [] v k low high h = h
mark_loop-among (pos n ∷ nums) v k low high h = elim (ℕ_discrete n k) [
  | yes same ↦
      let test : (n == k) ≡ true = (==_iff n k).1 same in
      rw test (
        marked_stays nums (mark (pos n) v) k low (omega (arith, length-mark (pos n) v))
          (rw same (mark_self k v low high)))
  | no other ↦
      let test : (n == k) ≡ false = ground arith in
      rw test (
        mark_loop-among nums (mark (pos n) v) k low (omega (arith, length-mark (pos n) v))
          (mark_ne n k v other ∙ h))
]
mark_loop-among (negsuc n ∷ nums) v k low high h = mark_loop-among nums v k low high h

scan_loop_lem :
    (rounds i : ℕ) (v : List Bool)
    → length v ≡ i + rounds
    → let x = scan_loop rounds i v in
      (i ≤ x)
      × (x ≤ length v)
      × ((k : ℕ) → i ≤ k → k < x → get_or v k false ≡ true)
      × (x < length v → get_or v x false ≡ false)
unfolding scan_loop
scan_loop_lem zero i v size =
    (omega arith, omega arith, λ k low high. absurd (omega arith), λ h. absurd (omega arith))
scan_loop_lem (suc rounds) i v size = elim (Bool-cases (get_or v i false)) [
  | inr e ↦ rw e (omega arith, omega arith, λ k low high. absurd (omega arith), λ h. e)
  | inl e ↦ rw e (
      let (low, high, seen, stop) = scan_loop_lem rounds (i + 1) v (omega arith) in
      (
        omega arith,
        high,
        λ k from to. elim (ℕ_discrete i k) [
          | yes same ↦ rw (sym same) e
          | no other ↦ seen k (omega arith) to
        ],
        stop,
      ))
]

take_nil : (n : ℕ) → take {A = Bool} n [] ≡ []
take_nil zero = refl
take_nil (suc n) = refl

get_or-replicate : (n k : ℕ) → get_or (replicate n false) k false ≡ false
get_or-replicate zero k = refl
get_or-replicate (suc n) zero = refl
get_or-replicate (suc n) (suc k) = get_or-replicate n k

sized_clear : (n k : ℕ) → get_or (sized [] n) k false ≡ false
unfolding sized
sized_clear n k = rw (take_nil n) (get_or-replicate (n - 0) k)

length-sized : (n : ℕ) → length (sized [] n) ≡ n
unfolding sized
length-sized n = rw (take_nil n) (omega (arith, length-replicate (n - 0) false))

-- The first call returns, for every list, the least positive number that is not in the list.
pub first_missing-least :
    (nums : List ℤ)
    → let r = (first_missing nums []).0 in
      (0 < r) × (among r nums ≡ false) × ((k : ℕ) → 0 < k → k < r → among k nums ≡ true)
unfolding first_missing
first_missing-least nums =
    let (low, high, seen, stop) =
      scan_loop_lem (length marked - 1) 1 marked (omega (arith, size)) in
    (
      omega arith,
      elim (dec_lt r (length marked)) [
        | yes inside ↦ sym (marks r (omega arith) inside) ∙ stop inside
        | no outside ↦ elim (Bool-cases (among r nums)) [
          | inr missing ↦ missing
          | inl there ↦ absurd (
              let many = pigeonhole r nums (λ k from to. elim (ℕ_discrete k r) [
                | yes same ↦ rw same there
                | no other ↦ sym (marks k from (omega arith)) ∙ seen k (omega arith) (omega arith)
              ]) in
              omega (arith, size))
        ]
      ],
      λ k from to. sym (marks k from (omega arith)) ∙ seen k (omega arith) to,
    )
  where
    clear : List Bool
    clear = sized [] (length nums + 1)

    marked : List Bool
    marked = mark_loop nums clear

    r : ℕ
    r = scan_loop (length marked - 1) 1 marked

    size : length marked ≡ length nums + 1
    size = length-mark_loop nums clear ∙ length-sized (length nums + 1)

    marks : (k : ℕ) → 0 < k → k < length marked → get_or marked k false ≡ among k nums
    marks k from to =
        mark_loop-among nums clear k from (omega (arith, length-mark_loop nums clear))
          (sized_clear (length nums + 1) k)
