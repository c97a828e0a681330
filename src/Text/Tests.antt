-- ===== src/Text/Tests.antt =====
-- The operations on short texts.
use code_c.Base.{ℕ, ◌≡◌, ◌≢◌, refl, sym, ◌∙◌, false, none, some, List, [], ◌∷◌, ◌++◌, arith}
use code_c.Text.{
  find_text, is_prefix, text_eq, replaced, replace_loop, replace_all, split, split_loop, capture,
  capture_after, up_to, find_after,
}
use code_c.Text.Replace.{replace_all-ends, replace_all_runs_on}

-- "a,,b"
abbrev listed : List ℕ
listed = b'a' ∷ b',' ∷ b',' ∷ b'b' ∷ []

split_holds : split listed b',' ≡ (b'a' ∷ []) ∷ [] ∷ (b'b' ∷ []) ∷ []
unfolding split split_loop
split_holds = refl

-- "aab", with "ab" replaced by "c"
replace_all-ends_example :
    (r : List ℕ) × (replace_all 4 (b'a' ∷ b'a' ∷ b'b' ∷ []) (b'a' ∷ b'b' ∷ []) (b'c' ∷ []) ≡ some r)
    × ((a b : List ℕ) → r ≢ a ++ ((b'a' ∷ b'b' ∷ []) ++ b))
replace_all-ends_example =
    replace_all-ends 4 (b'a' ∷ b'a' ∷ b'b' ∷ []) (b'a' ∷ b'b' ∷ []) (b'c' ∷ []) (omega arith)
      (omega arith)

replace_holds :
    replace_all 4 (b'a' ∷ b'a' ∷ b'b' ∷ []) (b'a' ∷ b'b' ∷ []) (b'c' ∷ []) ≡ some (b'a' ∷ b'c' ∷ [])
unfolding replace_all replace_loop text_eq find_text is_prefix replaced
replace_holds = refl

differ : text_eq (b'a' ∷ []) ([] ++ ((b'a' ∷ []) ++ (b'a' ∷ []))) ≡ false
unfolding text_eq
differ = refl

-- "ba", with "a" replaced by "aa"
replace_all_runs_on_example :
    replace_all 100
      ((b'b' ∷ []) ++ ((b'a' ∷ []) ++ []))
      (b'a' ∷ [])
      ([] ++ ((b'a' ∷ []) ++ (b'a' ∷ [])))
    ≡ none
replace_all_runs_on_example =
    replace_all_runs_on 100 (b'a' ∷ []) [] (b'a' ∷ []) (b'b' ∷ []) [] differ

-- "x<y>"
abbrev tagged : List ℕ
tagged = b'x' ∷ b'<' ∷ b'y' ∷ b'>' ∷ []

capture_holds : capture tagged (b'<' ∷ []) (b'>' ∷ []) ≡ b'y' ∷ []
unfolding capture capture_after up_to find_after find_text is_prefix
capture_holds = refl

captured_any : capture tagged (b'<' ∷ []) (b'>' ∷ []) ≢ []
captured_any e = let empty : b'y' ∷ [] ≡ [] = sym capture_holds ∙ e in absurd (grind arith)

left_first : find_text (b'<' ∷ []) tagged ≡ some 1
unfolding find_text is_prefix
left_first = refl

right_first : find_text (b'>' ∷ []) (b'y' ∷ b'>' ∷ []) ≡ some 1
unfolding find_text is_prefix
right_first = refl
