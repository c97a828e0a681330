-- ===== src/Queens/Boards.antt =====
-- The boards that 51-2.cpp draws.
use mathlib.Core.List.{Memᴰ, reverse, reverse-cons}
use code_c.Base.{
  ℕ, zero, suc, ◌-◌, ◌≤◌, ◌<◌, ◌≡◌, refl, sym, subst, ◌∙◌, some, List, [], ◌∷◌, ◌==◌, All, All-snoc,
  length, get_elem?, set, replicate, length-set, length-replicate, get_elem?-set_self,
  get_elem?-set_ne, if◌then◌else◌, arith, Bool-cases, inl, inr, map,
}
use code_c.Queens.{board, to_results}
use code_c.Queens.Placed.{Placement, Inside}

-- A row of `n` squares with a queen in the column `c`, counted from 1, and dots in the others.
abbrev pub IsRow : ℕ → ℕ → List ℕ → Type 0
IsRow n c b =
    (length b ≡ n) × ((k : ℕ) → k < n → get_elem? b k ≡ some (if suc k == c then b'Q' else b'.'))

-- Rows for columns, one for each.
abbrev pub AreRows : ℕ → List ℕ → List (List ℕ) → Type 0
AreRows n [] [] = Unit
AreRows n (c ∷ cs) (b ∷ bs) = IsRow n c b × AreRows n cs bs
AreRows n [] (b ∷ bs) = ⊥
AreRows n (c ∷ cs) [] = ⊥

-- Boards for placements, one for each; a placement has its last row first.
abbrev pub AreBoards : ℕ → List (List ℕ) → List (List (List ℕ)) → Type 0
AreBoards n [] [] = Unit
AreBoards n (s ∷ rs) (b ∷ bs) = AreRows n (reverse s) b × AreBoards n rs bs
AreBoards n [] (b ∷ bs) = ⊥
AreBoards n (s ∷ rs) [] = ⊥

get_elem?-replicate : (n k c : ℕ) → k < n → get_elem? (replicate n c) k ≡ some c
get_elem?-replicate zero k c h = absurd (omega (arith, h))
get_elem?-replicate (suc n) zero c h = refl
get_elem?-replicate (suc n) (suc k) c h = get_elem?-replicate n k c (omega (arith, h))

set-IsRow : (n c : ℕ) → 0 < c → c ≤ n → IsRow n c (set (replicate n b'.') (c - 1) b'Q')
set-IsRow n c low high =
    let dots : List ℕ = replicate n b'.' in
    let size : length dots ≡ n = length-replicate n b'.' in
    let inside : c - 1 < length dots = omega (arith, size, high, low) in
    (
      length-set dots (c - 1) b'Q' ∙ size,
      λ k h. elim (Bool-cases (suc k == c)) [
        | inl here ↦
            let at : c - 1 ≡ k = ground arith in
            rw here (
              subst (λ j. get_elem? (set dots (c - 1) b'Q') j ≡ some b'Q') at
                (get_elem?-set_self dots (c - 1) b'Q' inside))
        | inr other ↦ rw other (
            get_elem?-set_ne dots b'Q' (λ e. absurd (ground (arith, e, low)))
            ∙ get_elem?-replicate n k b'.' h)
      ],
    )

OnBoard : ℕ → ℕ → Type 0
OnBoard n c = (0 < c) × (c ≤ n)

Inside-OnBoard : (n : ℕ) (s : List ℕ) → Inside n s → All (OnBoard n) s
unfolding OnBoard
Inside-OnBoard n [] h = tt
Inside-OnBoard n (c ∷ s) h = (h 0 c refl, Inside-OnBoard n s (λ i. h (suc i)))

reverse-OnBoard : (n : ℕ) (s : List ℕ) → All (OnBoard n) s → All (OnBoard n) (reverse s)
reverse-OnBoard n [] h = tt
reverse-OnBoard n (c ∷ s) h =
    subst (All (OnBoard n)) (sym (reverse-cons c s))
      (All-snoc (OnBoard n) (reverse s) c (reverse-OnBoard n s h.1) h.0)

map-AreRows :
    (n : ℕ) (cs : List ℕ)
    → All (OnBoard n) cs
    → AreRows n cs (map (λ q. set (replicate n b'.') (q - 1) b'Q') cs)
unfolding OnBoard
map-AreRows n [] h = tt
map-AreRows n (c ∷ cs) h = (set-IsRow n c h.0.0 h.0.1, map-AreRows n cs h.1)

pub to_results-AreBoards :
    (n : ℕ) (rs : List (List ℕ))
    → ((s : List ℕ) → Memᴰ s rs → Placement n s)
    → AreBoards n rs (to_results n rs)
unfolding to_results board
to_results-AreBoards n [] h = tt
to_results-AreBoards n (s ∷ rs) h = (
  map-AreRows n (reverse s) (reverse-OnBoard n s (Inside-OnBoard n s (h s (Memᴰ.head refl)).1)),
  to_results-AreBoards n rs (λ t m. h t (Memᴰ.tail m)),
)
