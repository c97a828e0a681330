-- ===== src/PubSub/Touch.antt =====
-- A change to each subscriber of a set, in the order of the set.
use code_c.Base.{
  ℕ, ◌≡◌, refl, ap, sym, ◌∙◌, Bool, true, false, some, List, [], ◌∷◌, ◌==◌, if◌then◌else◌,
  ℕ_discrete, arith, get_elem?, set, get_elem?-set_self, get_elem?-set_ne, get_elem?-lt,
}
use mathlib.Core.Option
use code_c.PubSub.{Subscriber, touch, touch_all, touch_found, elem}
use code_c.PubSub.Sets.{==_self, ==_ne}

-- Subscriber `s` has not been destroyed.
abbrev pub Live : List Subscriber → ℕ → Type 0
Live us s = (u : Subscriber) × (get_elem? us s ≡ some u) × (u.alive ≡ true)

-- `vs` is `us` with `f` run on the subscribers of `ss`.
abbrev pub Touched : (Subscriber → Subscriber) → List ℕ → List Subscriber → List Subscriber → Type 0
Touched f ss us vs =
    (i : ℕ) → get_elem? vs i ≡ (if elem i ss then Option.map f (get_elem? us i) else get_elem? us i)

pub touch_lem :
    (f : Subscriber → Subscriber) (s : ℕ) (us : List Subscriber) (live : Live us s)
    → touch f s us ≡ some (set us s (f live.0))
unfolding touch touch_found
touch_lem f s us (u, here, alive) = rw (here, alive) refl

module _ (f : Subscriber → Subscriber) (keeps : (u : Subscriber) → (f u).alive ≡ u.alive)
    (again : (u : Subscriber) → f (f u) ≡ f u) where
  Live-set :
      (us : List Subscriber) (s i : ℕ) (u : Subscriber)
      → get_elem? us s ≡ some u
      → u.alive ≡ true
      → Live us i
      → Live (set us s (f u)) i
  Live-set us s i u here alive (v, there, live) = elim (ℕ_discrete s i) [
    | yes same ↦ (
      f u,
      rw (sym same) (get_elem?-set_self us s (f u) (get_elem?-lt us s here)),
      keeps u ∙ alive,
    )
    | no other ↦ (v, get_elem?-set_ne us (f u) other ∙ there, live)
  ]

  more : (s i : ℕ) (ss : List ℕ) → elem i ss ≡ true → elem i (s ∷ ss) ≡ true
  unfolding elem
  more s i ss m = ground arith

  once_more : (b : Bool) (u : Subscriber) → (if b then some (f (f u)) else some (f u)) ≡ some (f u)
  once_more true u = ap some (again u)
  once_more false u = refl

  Touched-cons :
      (s i : ℕ) (ss : List ℕ) (us : List Subscriber) (u : Subscriber)
      → get_elem? us s ≡ some u
      → (if elem i ss
          then Option.map f (get_elem? (set us s (f u)) i)
          else get_elem? (set us s (f u)) i)
        ≡ (if elem i (s ∷ ss) then Option.map f (get_elem? us i) else get_elem? us i)
  unfolding elem
  Touched-cons s i ss us u here = elim (ℕ_discrete s i) [
    | yes same ↦
        let changed : get_elem? (set us s (f u)) i ≡ some (f u) =
          rw (sym same) (get_elem?-set_self us s (f u) (get_elem?-lt us s here)) in
        let before : get_elem? us i ≡ some u = rw (sym same) here in
        let test : (s == i) ≡ true = rw (sym same) (==_self s) in
        rw (changed, before, test) (once_more (elem i ss) u)
    | no other ↦ rw (get_elem?-set_ne us (f u) other, ==_ne s i other) refl
  ]

  pub touch_all_lem :
      (ss : List ℕ) (us : List Subscriber)
      → ((i : ℕ) → elem i ss ≡ true → Live us i)
      → (vs : List Subscriber) × (touch_all f ss us ≡ some vs) × Touched f ss us vs
  unfolding touch_all elem
  touch_all_lem [] us live = (us, refl, λ i. refl)
  touch_all_lem (s ∷ ss) us live =
      let first : Live us s = live s (rw (==_self s) refl) in
      let rest =
        touch_all_lem ss (set us s (f first.0))
          (λ i m. Live-set us s i first.0 first.1 first.2 (live i (more s i ss m))) in
      (
        rest.0,
        rw (touch_lem f s us first) rest.1,
        λ i. rest.2 i ∙ Touched-cons s i ss us first.0 first.1,
      )
