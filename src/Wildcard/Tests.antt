-- ===== src/Wildcard/Tests.antt =====
-- Patterns of 44-2.cpp.
use code_c.Base.{ℕ, ◌≡◌, ◌↔◌, true, List, [], ◌∷◌}
use code_c.Wildcard.{is_match}
use code_c.Wildcard.Meaning.{Wild}
use code_c.Wildcard.Correct.{is_match-Wild}

-- "adceb" and "*a*b"
abbrev text : List ℕ
text = 97 ∷ 100 ∷ 99 ∷ 101 ∷ 98 ∷ []

abbrev glob : List ℕ
glob = 42 ∷ 97 ∷ 42 ∷ 98 ∷ []

is_match-Wild_example : (is_match text glob ≡ true) ↔ Wild glob text
is_match-Wild_example = is_match-Wild text glob
