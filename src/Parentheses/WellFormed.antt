-- ===== src/Parentheses/WellFormed.antt =====
-- What well-formed parentheses are, apart from the code of 32.cpp.
use code_c.Base.{
  ℕ, zero, suc, ◌≤◌, ◌≡◌, refl, sym, subst, ◌∙◌, Option, none, some, List, [], ◌∷◌, ◌++◌, All, ◌⊎◌,
  inl, inr, ◌==◌, if◌then◌else◌, length, ◌>>=◌, false,
}
use code_c.Parentheses.{opens}
use code_c.Parentheses.Balanced.{depth, depth_behind}
use code_c.Parentheses.Parts.{Attains, AtMost}

-- How many are open behind a text that begins with `d` open; `none` where one is closed that was not
-- opened, and where another character stands.
unfoldable pub closes : (ℕ → Option ℕ) → ℕ → Option ℕ
closes go_on zero = none
closes go_on (suc d) = go_on d

unfoldable pub still_open : ℕ → List ℕ → Option ℕ
still_open d [] = some d
still_open d (c ∷ s) =
    let inside = still_open (suc d) s in
    let behind = closes (λ e. still_open e s) d in
    if c == b'(' then inside else if c == b')' then behind else none

abbrev pub WellFormed : List ℕ → Type 0
WellFormed s = still_open 0 s ≡ some 0

abbrev pub IsParenthesis : ℕ → Type 0
IsParenthesis c = (c ≡ b'(') ⊎ (c ≡ b')')

-- A part of the text that is well-formed has the length `n`, and none is longer.
abbrev pub Longest : List ℕ → ℕ → Type 0
Longest s n =
    ((a x b : List ℕ) × (s ≡ a ++ (x ++ b)) × WellFormed x × (length x ≡ n))
    × ((a x b : List ℕ) → s ≡ a ++ (x ++ b) → WellFormed x → length x ≤ n)

depth-closes :
    (d : ℕ) (s : List ℕ) → (depth_behind false d >>= λ e. depth e s) ≡ closes (λ e. depth e s) d
unfolding depth_behind closes
depth-closes zero s = refl
depth-closes (suc d) s = refl

-- On parentheses the code's test tells the two apart.
depth-still_open : (d : ℕ) (s : List ℕ) → All IsParenthesis s → depth d s ≡ still_open d s
unfolding depth still_open depth_behind opens closes
depth-still_open d [] h = refl
depth-still_open d (c ∷ s) (inl e, h) = rw e (depth-still_open (suc d) s h)
depth-still_open zero (c ∷ s) (inr e, h) = rw e refl
depth-still_open (suc d) (c ∷ s) (inr e, h) = rw e (depth-still_open d s h)

part-IsParenthesis : (a x b : List ℕ) → All IsParenthesis (a ++ (x ++ b)) → All IsParenthesis x
part-IsParenthesis [] [] b h = tt
part-IsParenthesis [] (c ∷ x) b h = (h.0, part-IsParenthesis [] x b h.1)
part-IsParenthesis (c ∷ a) x b h = part-IsParenthesis a x b h.1

pub Longest-parts :
    (s : List ℕ) (n : ℕ) → All IsParenthesis s → Attains s n → AtMost s n → Longest s n
Longest-parts s n h (a, x, b, e, bal, l) most = (
  (a, x, b, e, sym (depth-still_open 0 x (of_part a x b e)) ∙ bal, l),
  λ a x b e w. most a x b e (depth-still_open 0 x (of_part a x b e) ∙ w),
)
  where
    of_part : (a x b : List ℕ) → s ≡ a ++ (x ++ b) → All IsParenthesis x
    of_part a x b e = part-IsParenthesis a x b (subst (All IsParenthesis) e h)
