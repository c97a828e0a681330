-- ===== src/PubSub/Sets.antt =====
-- The sets of subscribers and the table of topics.
use code_c.Base.{ℕ, ◌≡◌, ◌≢◌, refl, true, false, none, some, List, [], ◌∷◌, ◌==◌, arith}
use code_c.PubSub.{find, erase_topic, elem, insert, erase}

pub ==_self : (s : ℕ) → (s == s) ≡ true
==_self s = ground arith

pub ==_ne : (s i : ℕ) → s ≢ i → (s == i) ≡ false
==_ne s i h = ground arith

pub elem-insert_self : (s : ℕ) (xs : List ℕ) → elem s (insert s xs) ≡ true
unfolding elem insert
elem-insert_self s xs = ground arith

pub elem-insert_ne : (s i : ℕ) (xs : List ℕ) → s ≢ i → elem i (insert s xs) ≡ elem i xs
unfolding elem insert
elem-insert_ne s i xs h = ground arith

pub elem-erase_self : (s : ℕ) (xs : List ℕ) → elem s (erase s xs) ≡ false
unfolding elem erase
elem-erase_self s [] = refl
elem-erase_self s (x ∷ xs) = ground (arith, elem-erase_self s xs)

pub elem-erase_ne : (s i : ℕ) (xs : List ℕ) → s ≢ i → elem i (erase s xs) ≡ elem i xs
unfolding elem erase
elem-erase_ne s i [] h = refl
elem-erase_ne s i (x ∷ xs) h = ground (arith, elem-erase_ne s i xs h)

pub find-erase_self : (t : ℕ) (ts : List (ℕ × ℕ)) → find t (erase_topic t ts) ≡ none
unfolding find erase_topic
find-erase_self t [] = refl
find-erase_self t ((u, d) ∷ ts) = ground (arith, find-erase_self t ts)

pub find-erase_ne : (t u : ℕ) (ts : List (ℕ × ℕ)) → t ≢ u → find u (erase_topic t ts) ≡ find u ts
unfolding find erase_topic
find-erase_ne t u [] h = refl
find-erase_ne t u ((v, d) ∷ ts) h = ground (arith, find-erase_ne t u ts h)

pub find-cons_self : (t u d : ℕ) (ts : List (ℕ × ℕ)) → t ≡ u → find u ((t, d) ∷ ts) ≡ some d
unfolding find
find-cons_self t u d ts same = ground arith

pub find-cons_ne : (t u d : ℕ) (ts : List (ℕ × ℕ)) → t ≢ u → find u ((t, d) ∷ ts) ≡ find u ts
unfolding find
find-cons_ne t u d ts other = ground arith
