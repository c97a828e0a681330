-- ===== src/Parentheses/Longest.antt =====
-- The result of 32.cpp: the loop that counts finds the longest block.
use mathlib.Core.List.{reverse, reverse-cons, reverse-append}
use code_c.Base.{
  ℕ, ◌+◌, ◌≡◌, refl, ap, sym, subst, ◌∙◌, List, [], ◌∷◌, ◌++◌, append_assoc, append-nil, ap₂, arith,
  length, Bool, true, false, All,
}
use code_c.Parentheses.{Mark, matched, untouched, opens, count_loop, longest_valid_parentheses}
use code_c.Parentheses.Balanced.{depth}
use code_c.Parentheses.WellFormed.{IsParenthesis, Longest, Longest-parts}
use code_c.Parentheses.Row.{Row, block, behind, ones, ones_cons, open_mark, marks, whole_text}
use code_c.Parentheses.Parts.{larger, widest, AtMost, Attains, text-AtMost, text-Attains}

count_ones :
    (t k : ℕ) (m : List ℕ) (rest : List Mark)
    → count_loop t k (ones m ++ rest) ≡ count_loop t (k + length m) rest
unfolding count_loop
count_ones t k [] rest = ap (λ n. count_loop t n rest) (omega arith)
count_ones t k (c ∷ m) rest =
    count_ones t (k + 1) m rest ∙ ap (λ n. count_loop t n rest) (omega arith)

reverse-ones : (m : List ℕ) → reverse (ones m) ≡ ones m
reverse-ones [] = refl
reverse-ones (c ∷ m) =
    reverse-cons matched (ones m)
    ∙ ap (λ v. v ++ (matched ∷ [])) (reverse-ones m)
    ∙ ones_cons m []
    ∙ ap (λ v. matched ∷ v) (append-nil (ones m))

-- `max` and `cur` behind the marks of a row.
top : Row → ℕ
top (block m) = 0
top (behind c m r) = widest r

last : Row → ℕ
last (block m) = length m
last (behind c m r) = length m

widest_lem : (r : Row) → widest r ≡ larger (top r) (last r)
unfolding widest top last
widest_lem (block m) = refl
widest_lem (behind c m r) = refl

count-mark :
    (t k : ℕ) (b : Bool) (rest : List Mark)
    → count_loop t k (open_mark b ∷ rest) ≡ count_loop (larger t k) 0 rest
unfolding count_loop larger
count-mark t k true rest = refl
count-mark t k false rest = refl

reversed_marks :
    (c : ℕ) (m : List ℕ) (r : Row) (rest : List Mark)
    → reverse (marks (behind c m r)) ++ rest
      ≡ reverse (marks r) ++ (open_mark (opens c) ∷ (ones m ++ rest))
reversed_marks c m r rest =
    ap (λ v. v ++ rest)
      (reverse-append (ones m) (open_mark (opens c) ∷ marks r)
        ∙ ap₂ ◌++◌ (reverse-cons (open_mark (opens c)) (marks r)) (reverse-ones m))
    ∙ append_assoc (reverse (marks r) ++ (open_mark (opens c) ∷ [])) (ones m) rest
    ∙ append_assoc (reverse (marks r)) (open_mark (opens c) ∷ []) (ones m ++ rest)

count_row :
    (r : Row) (rest : List Mark)
    → count_loop 0 0 (reverse (marks r) ++ rest) ≡ count_loop (top r) (last r) rest
unfolding top last
count_row (block m) rest =
    ap (λ v. count_loop 0 0 (v ++ rest)) (reverse-ones m)
    ∙ count_ones 0 0 m rest
    ∙ ap (λ n. count_loop 0 n rest) (omega arith)
count_row (behind c m r) rest =
    ap (count_loop 0 0) (reversed_marks c m r rest)
    ∙ count_row r (open_mark (opens c) ∷ (ones m ++ rest))
    ∙ count-mark (top r) (last r) (opens c) (ones m ++ rest)
    ∙ ap (λ n. count_loop n 0 (ones m ++ rest)) (sym (widest_lem r))
    ∙ count_ones (widest r) 0 m rest
    ∙ ap (λ n. count_loop (widest r) n rest) (omega arith)

counted : (r : Row) → count_loop 0 0 (reverse (marks r) ++ (untouched ∷ [])) ≡ widest r
unfolding count_loop larger
counted r = count_row r (untouched ∷ []) ∙ sym (widest_lem r)

-- For every text of `(` and `)`: the result is the length of a part of the text that is well-formed
-- parentheses, and no such part is longer; every text has one, if an empty one.
pub longest_valid_parentheses_lem :
    (s : List ℕ) → All IsParenthesis s → Longest s (longest_valid_parentheses s)
unfolding longest_valid_parentheses depth
longest_valid_parentheses_lem s only =
    let (r, t, m, f) = whole_text s (block []) refl in
    let result : widest r ≡ longest_valid_parentheses s =
      sym (counted r) ∙ ap (λ v. count_loop 0 0 (reverse v ++ (untouched ∷ []))) m in
    Longest-parts s (longest_valid_parentheses s) only
      (subst (Attains s) result (subst (λ x. Attains x (widest r)) t (text-Attains r f)))
      (subst (AtMost s) result (subst (λ x. AtMost x (widest r)) t (text-AtMost r f)))
