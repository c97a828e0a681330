-- ===== src/Text/Replace.antt =====
-- The loop of `replace_all` in string.hpp.
use code_c.Base.{
  ℕ, zero, suc, ◌+◌, ◌<◌, ◌≡◌, ◌≢◌, refl, ap, sym, ◌∙◌, false, Bool-cases, none, some, Option-cases,
  inl, inr, List, ◌++◌, append_assoc, length, length-append, take, drop, arith,
}
use code_c.Text.{find_text, text_eq, replaced, replace_loop, replace_all}
use code_c.Text.Find.{StandsAt, find_text-StandsAt, find_text-append, text_eq_lem}

length-replaced :
    (pos : ℕ) (old new s : List ℕ)
    → StandsAt old s pos
    → length (replaced pos old new s) + length old ≡ length s + length new
unfolding replaced
length-replaced pos old new s at = omega (
  arith,
  ap (λ t. length t) at,
  length-append (take pos s) (old ++ drop (pos + length old) s),
  length-append old (drop (pos + length old) s),
  length-append (take pos s) (new ++ drop (pos + length old) s),
  length-append new (drop (pos + length old) s),
)

loop_ends :
    (fuel : ℕ) (old new s : List ℕ)
    → length new < length old
    → length s < fuel
    → (r : List ℕ) × (replace_loop fuel old new s ≡ some r) × (find_text old r ≡ none)
unfolding replace_loop
loop_ends zero old new s shorter enough = absurd (omega arith)
loop_ends (suc fuel) old new s shorter enough = elim (Option-cases (find_text old s)) [
  | inl n ↦ (s, rw (replace_loop, n) refl, n)
  | inr (pos, f) ↦
      let (r, ends, clean) =
        loop_ends fuel old new (replaced pos old new s) shorter
          (omega (arith, length-replaced pos old new s (find_text-StandsAt old s pos f))) in
      (r, rw (replace_loop, f) ends, clean)
]

-- With a new value shorter than the old one and a fuel above the length of the text, `replace_all`
-- ends, and the old value stands nowhere in the text that it leaves.
pub replace_all-ends :
    (fuel : ℕ) (s old new : List ℕ)
    → length new < length old
    → length s < fuel
    → (r : List ℕ) × (replace_all fuel s old new ≡ some r) × ((a b : List ℕ) → r ≢ a ++ (old ++ b))
unfolding replace_all
replace_all-ends fuel s old new shorter enough =
    let (r, ends, clean) = loop_ends fuel old new s shorter enough in
    (
      r,
      elim (Bool-cases (text_eq old new)) [
        | inl same ↦ absurd (let e = ap (λ t. length t) (text_eq_lem old new same) in omega arith)
        | inr other ↦ rw other ends
      ],
      λ a b e. find_text-append old a b (ap (find_text old) (sym e) ∙ clean),
    )

replaced_again :
    (pos : ℕ) (old c e s : List ℕ)
    → replaced pos old (c ++ (old ++ e)) s
      ≡ (take pos s ++ c) ++ (old ++ (e ++ drop (pos + length old) s))
unfolding replaced
replaced_again pos old c e s =
    rw
      (
        append_assoc c (old ++ e) (drop (pos + length old) s),
        append_assoc old e (drop (pos + length old) s),
      )
      (sym (append_assoc (take pos s) c (old ++ (e ++ drop (pos + length old) s))))

loop_goes_on :
    (fuel : ℕ) (old c e a b s : List ℕ)
    → s ≡ a ++ (old ++ b)
    → replace_loop fuel old (c ++ (old ++ e)) s ≡ none
unfolding replace_loop
loop_goes_on zero old c e a b s h = refl
loop_goes_on (suc fuel) old c e a b s h = elim (Option-cases (find_text old s)) [
  | inl n ↦ absurd (find_text-append old a b (ap (find_text old) (sym h) ∙ n))
  | inr (pos, f) ↦
      rw (replace_loop, f)
        (loop_goes_on fuel old c e (take pos s ++ c) (e ++ drop (pos + length old) s)
          (replaced pos old (c ++ (old ++ e)) s) (replaced_again pos old c e s))
]

-- With a new value that has the old one inside it, and is not the old one, `replace_all` never ends
-- on a text where the old value stands: no number of rounds is enough.
pub replace_all_runs_on :
    (fuel : ℕ) (old c e a b : List ℕ)
    → text_eq old (c ++ (old ++ e)) ≡ false
    → replace_all fuel (a ++ (old ++ b)) old (c ++ (old ++ e)) ≡ none
unfolding replace_all
replace_all_runs_on fuel old c e a b other =
    rw other (loop_goes_on fuel old c e a b (a ++ (old ++ b)) refl)
