-- ===== src/Parentheses/Tests.antt =====
-- Texts of 32.cpp.
use code_c.Base.{ℕ, ◌≡◌, refl, inl, inr, All, List, [], ◌∷◌}
use code_c.Parentheses.{
  opens, close_last, closed, mark, mark_loop, count_loop, longest_valid_parentheses,
}
use code_c.Parentheses.WellFormed.{IsParenthesis, Longest}
use code_c.Parentheses.Longest.{longest_valid_parentheses_lem}

-- ")()(())(" and "(()"
abbrev six : List ℕ
six = b')' ∷ b'(' ∷ b')' ∷ b'(' ∷ b'(' ∷ b')' ∷ b')' ∷ b'(' ∷ []

abbrev two : List ℕ
two = b'(' ∷ b'(' ∷ b')' ∷ []

six_long : longest_valid_parentheses six ≡ 6
unfolding longest_valid_parentheses mark_loop mark opens closed close_last count_loop
six_long = refl

two_long : longest_valid_parentheses two ≡ 2
unfolding longest_valid_parentheses mark_loop mark opens closed close_last count_loop
two_long = refl

six_only : All IsParenthesis six
six_only = (
  inr refl,
  (inl refl, (inr refl, (inl refl, (inl refl, (inr refl, (inr refl, (inl refl, tt))))))),
)

longest_valid_parentheses_lem_example : Longest six (longest_valid_parentheses six)
longest_valid_parentheses_lem_example = longest_valid_parentheses_lem six six_only
