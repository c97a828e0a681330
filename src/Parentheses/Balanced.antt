-- ===== src/Parentheses/Balanced.antt =====
-- Well-formed parentheses as the code of 32.cpp tells them, where any character but `(` closes, and parts
-- of them.
use code_c.Base.{
  ℕ, zero, suc, ◌+◌, ◌<◌, ◌≡◌, refl, ap, sym, ◌∙◌, Bool, true, false, Option, none, some, List, [],
  ◌∷◌, ◌++◌, arith, ◌>>=◌, some_injective, none_ne_some,
}
use mathlib.Core.Path.{fun_ext}
use code_c.Parentheses.{opens}

-- How many parentheses are open behind a text that begins with `d` open; `none` where one is closed
-- that was not opened.
unfoldable pub depth_behind : Bool → ℕ → Option ℕ
depth_behind true d = some (suc d)
depth_behind false zero = none
depth_behind false (suc d) = some d

unfoldable pub depth : ℕ → List ℕ → Option ℕ
depth d [] = some d
depth d (c ∷ s) = do e ← depth_behind (opens c) d; depth e s

abbrev pub Balanced : List ℕ → Type 0
Balanced s = depth 0 s ≡ some 0

bind_assoc : (o : Option ℕ) (f g : ℕ → Option ℕ) → ((o >>= f) >>= g) ≡ (o >>= λ e. f e >>= g)
bind_assoc none f g = refl
bind_assoc (some e) f g = refl

pub depth-append : (d : ℕ) (xs ys : List ℕ) → depth d (xs ++ ys) ≡ (depth d xs >>= λ e. depth e ys)
unfolding depth
depth-append d [] ys = refl
depth-append d (c ∷ xs) ys =
    ap (λ f. depth_behind (opens c) d >>= f) (fun_ext (λ e. depth-append e xs ys))
    ∙ sym (bind_assoc (depth_behind (opens c) d) (λ e. depth e xs) (λ e. depth e ys))

-- Inversion of a bind.
pub binds :
    (o : Option ℕ) (f : ℕ → Option ℕ) (b : ℕ)
    → (o >>= f) ≡ some b
    → (a : ℕ) × (o ≡ some a) × (f a ≡ some b)
binds none f b h = absurd (none_ne_some h)
binds (some a) f b h = (a, refl, h)

depth_behind-add :
    (b : Bool) (d e k : ℕ) → depth_behind b d ≡ some e → depth_behind b (d + k) ≡ some (e + k)
unfolding depth_behind
depth_behind-add true d e k h = ap some (omega (arith, some_injective h))
depth_behind-add false zero e k h = absurd (none_ne_some h)
depth_behind-add false (suc d) e k h =
    let at : suc d + k ≡ suc (d + k) = omega arith in
    rw at (ap some (omega (arith, some_injective h)))

-- What is open before stays open.
pub depth-add : (d e k : ℕ) (s : List ℕ) → depth d s ≡ some e → depth (d + k) s ≡ some (e + k)
unfolding depth
depth-add d e k [] h = ap (λ n. some (n + k)) (some_injective h)
depth-add d e k (c ∷ s) h =
    let (m, one, rest) = binds (depth_behind (opens c) d) (λ n. depth n s) e h in
    rw (depth_behind-add (opens c) d m k one) (depth-add m e k s rest)

-- The parts of a text that is never closed too early.
pub depth-split :
    (d e : ℕ) (xs ys : List ℕ)
    → depth d (xs ++ ys) ≡ some e
    → (m : ℕ) × (depth d xs ≡ some m) × (depth m ys ≡ some e)
depth-split d e xs ys h = binds (depth d xs) (λ m. depth m ys) e (sym (depth-append d xs ys) ∙ h)

pub Balanced-append : (xs ys : List ℕ) → Balanced xs → Balanced ys → Balanced (xs ++ ys)
Balanced-append xs ys h k = depth-append 0 xs ys ∙ rw h k

pub Balanced-nested :
    (c d : ℕ) (xs : List ℕ)
    → opens c ≡ true
    → opens d ≡ false
    → Balanced xs
    → Balanced (c ∷ (xs ++ (d ∷ [])))
unfolding depth depth_behind
Balanced-nested c d xs o k h =
    rw o (depth-append 1 xs (d ∷ []) ∙ rw (depth-add 0 0 1 xs h) (rw k refl))

-- A part at the end of a balanced text leaves nothing open.
pub end_of_Balanced : (xs ys : List ℕ) (d : ℕ) → Balanced (xs ++ ys) → depth 0 ys ≡ some d → d ≡ 0
end_of_Balanced xs ys d h k =
    let (m, front, back) = depth-split 0 0 xs ys h in
    let from_none : 0 + m ≡ m = omega arith in
    omega (
      arith,
      some_injective {a = d + m} {b = 0}
          (sym (depth-add 0 d m ys k) ∙ ap (λ n. depth n ys) from_none ∙ back),
    )

-- What stands before a balanced text and leaves something open is not closed within it.
pub left_open : (d e : ℕ) (xs ys : List ℕ) → Balanced (xs ++ ys) → depth (suc d) xs ≡ some e → 0 < e
left_open d e xs ys h k =
    let (m, front, back) = depth-split 0 0 xs ys h in
    let from_none : 0 + suc d ≡ suc d = omega arith in
    omega (
      arith,
      some_injective {a = m + suc d} {b = e}
          (sym (depth-add 0 m (suc d) xs front) ∙ ap (λ n. depth n xs) from_none ∙ k),
    )
