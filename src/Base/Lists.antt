-- ===== src/Base/Lists.antt =====
-- Lists measured and indexed by native numbers, under the library's names.
use Prim.Native.Nat.{ℕ, zero, suc, ◌+◌, ◌-◌, ◌≤◌, ◌<◌, min}
use mathlib.Core.Path.{◌≡◌, refl, ap}
use mathlib.Core.Logic.{◌≢◌}
use mathlib.Core.List.{List, [], ◌∷◌, ◌++◌, map}
use mathlib.Core.Option.{Option, none, some}
use native.Mathlib.Omega.{arith}

module _ {ℓ} {A : Type ℓ} where
  abbrev pub length : List A → ℕ
  length [] = 0
  length (x ∷ xs) = suc (length xs)

  abbrev pub get_elem? : List A → ℕ → Option A
  get_elem? [] i = none
  get_elem? (x ∷ xs) zero = some x
  get_elem? (x ∷ xs) (suc i) = get_elem? xs i

  -- A write out of bounds changes nothing.
  abbrev pub set : List A → ℕ → A → List A
  set [] i v = []
  set (x ∷ xs) zero v = v ∷ xs
  set (x ∷ xs) (suc i) v = x ∷ set xs i v

  pub length-append : (xs ys : List A) → length (xs ++ ys) ≡ length xs + length ys
  length-append [] ys = omega arith
  length-append (x ∷ xs) ys = omega (arith, length-append xs ys)

module _ {ℓ} {A : Type ℓ} where
  pub length-set : (xs : List A) (i : ℕ) (v : A) → length (set xs i v) ≡ length xs
  length-set [] i v = refl
  length-set (x ∷ xs) zero v = refl
  length-set (x ∷ xs) (suc i) v = ap suc (length-set xs i v)

  pub get_elem?-set_self :
      (xs : List A) (i : ℕ) (v : A) → i < length xs → get_elem? (set xs i v) i ≡ some v
  get_elem?-set_self [] i v h = elim h [ ]
  get_elem?-set_self (x ∷ xs) zero v h = refl
  get_elem?-set_self (x ∷ xs) (suc i) v h = get_elem?-set_self xs i v (omega arith)

  pub get_elem?-set_ne :
      (xs : List A) {i j : ℕ} (v : A) → i ≢ j → get_elem? (set xs i v) j ≡ get_elem? xs j
  get_elem?-set_ne [] v h = refl
  get_elem?-set_ne (x ∷ xs) {i = zero} {j = zero} v h = absurd (h refl)
  get_elem?-set_ne (x ∷ xs) {i = zero} {j = suc j} v h = refl
  get_elem?-set_ne (x ∷ xs) {i = suc i} {j = zero} v h = refl
  get_elem?-set_ne (x ∷ xs) {i = suc i} {j = suc j} v h = get_elem?-set_ne xs v (λ e. h (ap suc e))

module _ {ℓ} {A : Type ℓ} where
  abbrev pub get_or : List A → ℕ → A → A
  get_or [] i d = d
  get_or (x ∷ xs) zero d = x
  get_or (x ∷ xs) (suc i) d = get_or xs i d

  abbrev pub take : ℕ → List A → List A
  take zero xs = []
  take (suc n) [] = []
  take (suc n) (x ∷ xs) = x ∷ take n xs

  abbrev pub drop : ℕ → List A → List A
  drop zero xs = xs
  drop (suc n) [] = []
  drop (suc n) (x ∷ xs) = drop n xs

  abbrev pub replicate : ℕ → A → List A
  replicate zero a = []
  replicate (suc n) a = a ∷ replicate n a

  pub take-append-drop : (n : ℕ) (xs : List A) → take n xs ++ drop n xs ≡ xs
  take-append-drop zero xs = refl
  take-append-drop (suc n) [] = refl
  take-append-drop (suc n) (x ∷ xs) = rw (take-append-drop n xs)

  pub length-take : (n : ℕ) (xs : List A) → length (take n xs) ≡ min n (length xs)
  length-take zero xs = omega arith
  length-take (suc n) [] = omega arith
  length-take (suc n) (x ∷ xs) = omega (arith, length-take n xs)

  pub length-drop : (n : ℕ) (xs : List A) → length (drop n xs) ≡ length xs - n
  length-drop zero xs = omega arith
  length-drop (suc n) [] = omega arith
  length-drop (suc n) (x ∷ xs) = omega (arith, length-drop n xs)

  pub length-replicate : (n : ℕ) (a : A) → length (replicate n a) ≡ n
  length-replicate zero a = refl
  length-replicate (suc n) a = ap suc (length-replicate n a)

  pub length-map {κ} : {B : Type κ} (xs : List A) (f : A → B) → length (map f xs) ≡ length xs
  length-map [] f = refl
  length-map (x ∷ xs) f = ap suc (length-map xs f)

module _ {ℓ} {A : Type ℓ} where
  pub take-set :
      (k : ℕ) (xs : List A) (v : A)
      → k < length xs
      → take (suc k) (set xs k v) ≡ take k xs ++ (v ∷ [])
  take-set k [] v h = absurd (omega arith)
  take-set zero (x ∷ xs) v h = refl
  take-set (suc k) (x ∷ xs) v h = ap (λ t. x ∷ t) (take-set k xs v (omega arith))

  pub drop-set :
      (o i j : ℕ) (xs : List A) (v : A) → j ≡ o + i → drop o (set xs j v) ≡ set (drop o xs) i v
  drop-set zero i j xs v e = ap (λ k. set xs k v) (omega arith)
  drop-set (suc o) i zero xs v e = absurd (omega arith)
  drop-set (suc o) i (suc j) [] v e = refl
  drop-set (suc o) i (suc j) (x ∷ xs) v e = drop-set o i j xs v (omega arith)

  pub take_all : (n : ℕ) (xs : List A) → length xs ≤ n → take n xs ≡ xs
  take_all zero [] h = refl
  take_all zero (x ∷ xs) h = absurd (omega arith)
  take_all (suc n) [] h = refl
  take_all (suc n) (x ∷ xs) h = ap (λ t. x ∷ t) (take_all n xs (omega arith))

  pub drop_cons :
      (i : ℕ) (xs : List A) (d : A) → i < length xs → drop i xs ≡ get_or xs i d ∷ drop (suc i) xs
  drop_cons i [] d h = absurd (omega arith)
  drop_cons zero (x ∷ xs) d h = refl
  drop_cons (suc i) (x ∷ xs) d h = drop_cons i xs d (omega arith)

  pub get_or-set_self :
      (xs : List A) (i : ℕ) (v d : A) → i < length xs → get_or (set xs i v) i d ≡ v
  get_or-set_self [] i v d h = absurd (omega arith)
  get_or-set_self (x ∷ xs) zero v d h = refl
  get_or-set_self (x ∷ xs) (suc i) v d h = get_or-set_self xs i v d (omega arith)

  pub get_or-set_ne :
      (xs : List A) (i j : ℕ) (v d : A) → i ≢ j → get_or (set xs i v) j d ≡ get_or xs j d
  get_or-set_ne [] i j v d h = refl
  get_or-set_ne (x ∷ xs) zero zero v d h = absurd (h refl)
  get_or-set_ne (x ∷ xs) zero (suc j) v d h = refl
  get_or-set_ne (x ∷ xs) (suc i) zero v d h = refl
  get_or-set_ne (x ∷ xs) (suc i) (suc j) v d h = get_or-set_ne xs i j v d (λ e. h (ap suc e))

module _ {ℓ} {A : Type ℓ} where
  pub get_elem?-lt : (xs : List A) (i : ℕ) {a : A} → get_elem? xs i ≡ some a → i < length xs
  get_elem?-lt [] i e = absurd (grind arith)
  get_elem?-lt (x ∷ xs) zero e = omega arith
  get_elem?-lt (x ∷ xs) (suc i) e = omega (arith, get_elem?-lt xs i e)

  pub get_elem?-length : (xs : List A) → get_elem? xs (length xs) ≡ none
  get_elem?-length [] = refl
  get_elem?-length (x ∷ xs) = get_elem?-length xs

  pub get_elem?-append_last :
      (xs : List A) (a : A) → get_elem? (xs ++ (a ∷ [])) (length xs) ≡ some a
  get_elem?-append_last [] a = refl
  get_elem?-append_last (x ∷ xs) a = get_elem?-append_last xs a

  pub get_elem?-append_ne :
      (xs : List A) (a : A) (i : ℕ) → i ≢ length xs → get_elem? (xs ++ (a ∷ [])) i ≡ get_elem? xs i
  get_elem?-append_ne [] a zero h = absurd (h refl)
  get_elem?-append_ne [] a (suc i) h = refl
  get_elem?-append_ne (x ∷ xs) a zero h = refl
  get_elem?-append_ne (x ∷ xs) a (suc i) h = get_elem?-append_ne xs a i (λ e. h (ap suc e))

  pub get_elem?-append_some :
      (xs ys : List A) (i : ℕ) {b : A} → get_elem? xs i ≡ some b → get_elem? (xs ++ ys) i ≡ some b
  get_elem?-append_some [] ys i e = absurd (grind arith)
  get_elem?-append_some (x ∷ xs) ys zero e = e
  get_elem?-append_some (x ∷ xs) ys (suc i) e = get_elem?-append_some xs ys i e

  pub set-set : (xs : List A) (i : ℕ) (v w : A) → set (set xs i v) i w ≡ set xs i w
  set-set [] i v w = refl
  set-set (x ∷ xs) zero v w = refl
  set-set (x ∷ xs) (suc i) v w = ap (λ t. x ∷ t) (set-set xs i v w)

  -- Lists with the same elements at the same places are equal.
  pub get_elem?-ext : (xs ys : List A) → ((i : ℕ) → get_elem? xs i ≡ get_elem? ys i) → xs ≡ ys
  get_elem?-ext [] [] h = refl
  get_elem?-ext [] (y ∷ ys) h = absurd (grind (arith, h 0))
  get_elem?-ext (x ∷ xs) [] h = absurd (grind (arith, h 0))
  get_elem?-ext (x ∷ xs) (y ∷ ys) h = cc (get_elem?-ext xs ys (λ i. h (suc i)), h 0)

module _ {ℓ} {A : Type ℓ} where
  abbrev pub All : (A → Type 0) → List A → Type 0
  All P [] = Unit
  All P (x ∷ xs) = P x × All P xs

  pub All-middle : (P : A → Type 0) (xs ys : List A) (a : A) → All P (xs ++ (a ∷ ys)) → P a
  All-middle P [] ys a h = h.0
  All-middle P (x ∷ xs) ys a h = All-middle P xs ys a h.1

  pub All-without :
      (P : A → Type 0) (xs ys : List A) (a : A) → All P (xs ++ (a ∷ ys)) → All P (xs ++ ys)
  All-without P [] ys a h = h.1
  All-without P (x ∷ xs) ys a h = (h.0, All-without P xs ys a h.1)

  pub All-replaced :
      (P : A → Type 0) (xs ys : List A) (a b : A)
      → P b
      → All P (xs ++ (a ∷ ys))
      → All P (xs ++ (b ∷ ys))
  All-replaced P [] ys a b p h = (p, h.1)
  All-replaced P (x ∷ xs) ys a b p h = (h.0, All-replaced P xs ys a b p h.1)

  pub All-snoc : (P : A → Type 0) (xs : List A) (a : A) → All P xs → P a → All P (xs ++ (a ∷ []))
  All-snoc P [] a h p = (p, tt)
  All-snoc P (x ∷ xs) a h p = (h.0, All-snoc P xs a h.1 p)

  pub All-map :
      (P Q : A → Type 0) (f : A → A) (xs : List A)
      → ((a : A) → P a → Q (f a))
      → All P xs
      → All Q (map f xs)
  All-map P Q f [] k h = tt
  All-map P Q f (x ∷ xs) k h = (k x h.0, All-map P Q f xs k h.1)

  pub All-weaker : (P Q : A → Type 0) (xs : List A) → ((a : A) → P a → Q a) → All P xs → All Q xs
  All-weaker P Q [] k h = tt
  All-weaker P Q (x ∷ xs) k h = (k x h.0, All-weaker P Q xs k h.1)

  pub map-middle {κ} :
      {B : Type κ} (f : A → B) (xs ys : List A) (a : A)
      → map f (xs ++ (a ∷ ys)) ≡ map f xs ++ (f a ∷ map f ys)
  map-middle f [] ys a = refl
  map-middle f (x ∷ xs) ys a = ap (λ t. f x ∷ t) (map-middle f xs ys a)
