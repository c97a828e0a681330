-- ===== src/Palindrome/Tests.antt =====
-- Texts of 214.cpp.
use code_c.Base.{ℕ, ◌≡◌, refl, some, List, [], ◌∷◌}
use code_c.Palindrome.{
  mirror_loop, find_same, next_center, center_step, center_loop, complete, shortest_palindrome,
}
use code_c.Palindrome.Shortest.{Shortest, shortest_palindrome-Shortest}

-- "abca" and "aacecaaa"
abbrev abca : List ℕ
abca = b'a' ∷ b'b' ∷ b'c' ∷ b'a' ∷ []

abbrev aacecaaa : List ℕ
aacecaaa = b'a' ∷ b'a' ∷ b'c' ∷ b'e' ∷ b'c' ∷ b'a' ∷ b'a' ∷ b'a' ∷ []

abca_completed : shortest_palindrome abca ≡ some (b'a' ∷ b'c' ∷ b'b' ∷ abca)
unfolding shortest_palindrome center_loop center_step mirror_loop next_center find_same complete
abca_completed = refl

aacecaaa_completed : shortest_palindrome aacecaaa ≡ some (b'a' ∷ aacecaaa)
unfolding shortest_palindrome center_loop center_step mirror_loop next_center find_same complete
aacecaaa_completed = refl

shortest_palindrome-Shortest_example :
    (w : List ℕ) × (shortest_palindrome abca ≡ some w) × Shortest abca w
shortest_palindrome-Shortest_example = shortest_palindrome-Shortest abca
