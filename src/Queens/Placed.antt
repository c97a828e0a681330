-- ===== src/Queens/Placed.antt =====
-- What the search of 51-2.cpp finds: the placements in which no queen attacks another.
use mathlib.Core.List.Memᴰ
use mathlib.Core.List.{Memᴰ}
use code_c.Base.{
  ℕ, zero, suc, ◌+◌, ◌-◌, ◌≤◌, ◌<◌, ◌≡◌, ◌≢◌, refl, ap, sym, subst, Bool, true, false, ◌||◌, some,
  List, [], ◌∷◌, ◌==◌, length, get_elem?, if◌then◌else◌, arith, Bool-cases, inl, inr,
  some_injective, none_ne_some,
}
use code_c.Queens.{attacked}
use code_c.Queens.Search.{tries, below}

-- No queen of `r` stands in the column of `q` or on a diagonal with it, where the row of `q` is `k`
-- rows behind the last of `r`.
abbrev Free : ℕ → ℕ → List ℕ → Type 0
Free q k r = (i p : ℕ) → get_elem? r i ≡ some p → (q ≢ p) × (q ≢ p + (k + i)) × (q + (k + i) ≢ p)

-- The columns of the rows, the last row first: no two rows have their queens in a column or on a
-- diagonal.
abbrev pub Apart : List ℕ → Type 0
Apart s =
    (i j p q : ℕ)
    → i < j
    → get_elem? s i ≡ some q
    → get_elem? s j ≡ some p
    → (q ≢ p) × (q ≢ p + (j - i)) × (q + (j - i) ≢ p)

-- The columns are from 1 to `n`.
abbrev pub Inside : ℕ → List ℕ → Type 0
Inside n s = (i p : ℕ) → get_elem? s i ≡ some p → (0 < p) × (p ≤ n)

-- `n` queens on a board of `n` rows, of which none attacks another.
abbrev pub Placement : ℕ → List ℕ → Type 0
Placement n s = (length s ≡ n) × Inside n s × Apart s

neither : (a b : Bool) → (a || b) ≡ false → (a ≡ false) × (b ≡ false)
neither true b e = absurd (ground arith)
neither false b e = (refl, e)

free_row :
    (q k m p : ℕ)
    → m ≡ k
    → (q == p || (q == p + k || q + k == p)) ≡ false
    → (q ≢ p) × (q ≢ p + m) × (q + m ≢ p)
free_row q k m p l e = ground arith

row_free :
    (q k m p : ℕ)
    → m ≡ k
    → (q ≢ p) × (q ≢ p + m) × (q + m ≢ p)
    → (q == p || (q == p + k || q + k == p)) ≡ false
row_free q k m p l f = ground arith

moved :
    (q p m l : ℕ)
    → m ≡ l
    → (q ≢ p) × (q ≢ p + m) × (q + m ≢ p)
    → (q ≢ p) × (q ≢ p + l) × (q + l ≢ p)
moved q p m l e f = ground arith

abbrev Good : ℕ → List ℕ → Type 0
Good n [] = Unit
Good n (q ∷ r) = (0 < q) × (q ≤ n) × (attacked q 1 r ≡ false) × Good n r

attacked-Free : (q k : ℕ) (r : List ℕ) → attacked q k r ≡ false → Free q k r
unfolding attacked
attacked-Free q k [] e i p f = absurd (none_ne_some f)
attacked-Free q k (p ∷ r) e zero p' f =
    subst (λ u. (q ≢ u) × (q ≢ u + (k + 0)) × (q + (k + 0) ≢ u)) (some_injective f)
      (free_row q k (k + 0) p (omega arith) (neither _ (attacked q (suc k) r) e).0)
attacked-Free q k (p ∷ r) e (suc i) p' f =
    moved q p' (suc k + i) (k + suc i) (omega arith)
      (attacked-Free q (suc k) r (neither _ (attacked q (suc k) r) e).1 i p' f)

Free-attacked : (q k : ℕ) (r : List ℕ) → Free q k r → attacked q k r ≡ false
unfolding attacked
Free-attacked q k [] free = refl
Free-attacked q k (p ∷ r) free = rw (row_free q k (k + 0) p (omega arith) (free 0 p refl)) (
    Free-attacked q (suc k) r
      (λ i p' f. moved q p' (k + suc i) (suc k + i) (omega arith) (free (suc i) p' f)))

-- The members of `tries` have one of its entries.
tries-Good :
    (n d : ℕ) (r s : List ℕ) (q k : ℕ)
    → ((e : ℕ)
        → Good n (e ∷ r)
        → Memᴰ s (below n d (e ∷ r))
        → Good n s × (length s ≡ d + suc (length r)))
    → Good n r
    → 0 < q
    → q + k ≤ suc n
    → Memᴰ s (tries (below n d) r q k)
    → Good n s × (length s ≡ d + suc (length r))
unfolding tries
tries-Good n d r s q zero inner good low high m = absurd (Memᴰ.not-nil m)
tries-Good n d r s q (suc k) inner good low high m =
    elim (Memᴰ.append_cases (if attacked q 1 r then [] else below n d (q ∷ r)) m) [
      | inl here ↦ elim (Bool-cases (attacked q 1 r)) [
        | inl a ↦ absurd (Memᴰ.not-nil (rw a at here))
        | inr a ↦ inner q (low, omega (arith, high), a, good) (rw a at here)
      ]
      | inr there ↦
          tries-Good n d r s (suc q) k inner good (omega arith) (omega (arith, high)) there
    ]

length_zero : {k l : ℕ} → k ≡ l → k ≡ 0 + l
length_zero e = omega (arith, e)

below-Good :
    (n d : ℕ) (r s : List ℕ)
    → Good n r
    → Memᴰ s (below n d r)
    → Good n s × (length s ≡ d + length r)
unfolding below
below-Good n zero r s good m =
    let e = Memᴰ.eq_of_singleton m in
    (subst (λ u. Good n u) (sym e) good, length_zero (ap length e))
below-Good n (suc d) r s good m =
    let (g, l) =
      tries-Good n d r s 1 n (λ e. below-Good n d (e ∷ r) s) good (omega arith) (omega arith) m in
    (g, omega (arith, l))

-- An entry that is free is tried.
tries_has :
    (go_on : List ℕ → List (List ℕ)) (r s : List ℕ) (q k e : ℕ)
    → q ≤ e
    → e < q + k
    → attacked e 1 r ≡ false
    → Memᴰ s (go_on (e ∷ r))
    → Memᴰ s (tries go_on r q k)
unfolding tries
tries_has go_on r s q zero e low high free m = absurd (omega (arith, low, high))
tries_has go_on r s q (suc k) e low high free m = elim (Bool-cases (q == e)) [
  | inl same ↦
      let e_is : e ≡ q = ground arith in
      let here : Memᴰ s (if attacked e 1 r then [] else go_on (e ∷ r)) = rw free m in
      Memᴰ.append_left (tries go_on r (suc q) k)
        (subst (λ u. Memᴰ s (if attacked u 1 r then [] else go_on (u ∷ r))) e_is here)
  | inr other ↦
      Memᴰ.append_right (if attacked q 1 r then [] else go_on (q ∷ r))
        (tries_has go_on r s (suc q) k e (ground arith) (omega (arith, high)) free m)
]

Good-below :
    (n d : ℕ) (r s : List ℕ) → Good n r → Memᴰ s (below n d r) → Memᴰ s (below n (d + length r) [])
unfolding below
Good-below n d [] s good m = subst (λ k. Memᴰ s (below n k [])) (omega arith) m
Good-below n d (e ∷ r) s good m =
    let more : Memᴰ s (below n (suc d) r) =
      tries_has (below n d) r s 1 n e good.0 (omega (arith, good.1)) good.2 m in
    subst (λ k. Memᴰ s (below n k [])) (omega arith) (Good-below n (suc d) r s good.3 more)

Good-Inside : (n : ℕ) (s : List ℕ) → Good n s → Inside n s
Good-Inside n [] good i p f = absurd (none_ne_some f)
Good-Inside n (q ∷ r) good zero p f =
    subst (λ u. (0 < u) × (u ≤ n)) (some_injective f) (good.0, good.1)
Good-Inside n (q ∷ r) good (suc i) p f = Good-Inside n r good.3 i p f

Good-Apart : (n : ℕ) (s : List ℕ) → Good n s → Apart s
Good-Apart n [] good i j p q l e f = absurd (none_ne_some e)
Good-Apart n (c ∷ r) good i zero p q l e f = absurd (omega (arith, l))
Good-Apart n (c ∷ r) good zero (suc j) p q l e f =
    moved q p (1 + j) (suc j - 0) (omega arith)
      (subst (λ u. Free u 1 r) (some_injective e) (attacked-Free c 1 r good.2) j p f)
Good-Apart n (c ∷ r) good (suc i) (suc j) p q l e f =
    moved q p (j - i) (suc j - suc i) (omega arith)
      (Good-Apart n r good.3 i j p q (omega (arith, l)) e f)

Apart-Good : (n : ℕ) (s : List ℕ) → Inside n s → Apart s → Good n s
Apart-Good n [] inside apart = tt
Apart-Good n (c ∷ r) inside apart = (
  (inside 0 c refl).0,
  (inside 0 c refl).1,
  Free-attacked c 1 r (λ i p f.
      moved c p (suc i - 0) (1 + i) (omega arith) (apart 0 (suc i) p c (omega arith) refl f)),
  Apart-Good n r (λ i. inside (suc i))
      (λ i j p q l e f.
        moved q p (suc j - suc i) (j - i) (omega arith)
          (apart (suc i) (suc j) p q (omega (arith, l)) e f)),
)

pub found : (n : ℕ) (s : List ℕ) → Memᴰ s (below n n []) → Placement n s
found n s m =
    let (good, l) = below-Good n n [] s tt m in
    (omega (arith, l), Good-Inside n s good, Good-Apart n s good)

pub listed : (n : ℕ) (s : List ℕ) → Placement n s → Memᴰ s (below n n [])
unfolding below
listed n s h =
    subst (λ k. Memᴰ s (below n k [])) (omega (arith, h.0))
      (Good-below n 0 s s (Apart-Good n s h.1 h.2) (Memᴰ.head refl))
