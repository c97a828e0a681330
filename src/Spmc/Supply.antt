-- ===== src/Spmc/Supply.antt =====
-- The loop of `producer_alloc` in spmc9.c finds an entry when there are more entries than consumers.
use code_c.Base.{
  ℕ, zero, suc, ◌+◌, ◌-◌, ◌%◌, ◌≤◌, ◌<◌, ◌≡◌, ◌≢◌, ◌⊎◌, inl, inr, refl, subst, ap, ◌∙◌, List, [],
  ◌∷◌, ◌==◌, leb, if◌then◌else◌, arith, ℕ_discrete, length,
}
use code_c.Base.Cyclic.{mod_below, mod_round}
use code_c.Base.Int.{ℤ, pos, negsuc}
use code_c.ShmLocks.{trying, writing, Consumer, away, loaded, looked, reading}
use code_c.ShmLocks.Counts.{reads, readers, writers}
use code_c.ShmLocks.Range.{ProducerBelow}
use code_c.Spmc.{State, next_entry, Step, alloc_locks, alloc_moves_on, Reach}
use code_c.Spmc.Exclusion.Always.{Fresh, reached, counter_tells}

-- `f 0 + … + f (n - 1)`
abbrev pub sum_below : ℕ → (ℕ → ℕ) → ℕ
sum_below zero f = 0
sum_below (suc n) f = f n + sum_below n f

-- A sum below the number of its terms has a term that is 0.
zero_term : (n : ℕ) (f : ℕ → ℕ) → sum_below n f < n → (j : ℕ) × (j < n) × (f j ≡ 0)
zero_term zero f h = absurd (omega arith)
zero_term (suc n) f h = elim (ℕ_discrete (f n) 0) [
  | yes e ↦ (n, omega arith, e)
  | no ne ↦ let r = zero_term n f (omega arith) in (r.0, omega (arith, r.1), r.2)
]

sum_below-add : (n : ℕ) (f g : ℕ → ℕ) → sum_below n (λ j. f j + g j) ≡ sum_below n f + sum_below n g
sum_below-add zero f g = refl
sum_below-add (suc n) f g = omega (arith, sum_below-add n f g)

sum_below-one : (n i : ℕ) → sum_below n (λ j. if i == j then 1 else 0) ≤ (if leb n i then 0 else 1)
sum_below-one zero i = ground arith
sum_below-one (suc n) i = ground (arith, sum_below-one n i)

sum_below-zero : (n : ℕ) → sum_below n (λ j. 0) ≡ 0
sum_below-zero zero = refl
sum_below-zero (suc n) = omega (arith, sum_below-zero n)

one_each : (n : ℕ) (c : Consumer) → sum_below n (λ j. reads j c) ≤ 1
one_each n away = omega (arith, sum_below-zero n)
one_each n (loaded i) = omega (arith, sum_below-zero n)
one_each n (looked i old) = omega (arith, sum_below-zero n)
one_each n (reading i) = ground (arith, sum_below-one n i)

-- Each consumer reads one entry at most.
readers_few : (n : ℕ) (cs : List Consumer) → sum_below n (λ j. readers j cs) ≤ length cs
readers_few n [] = omega (arith, sum_below-zero n)
readers_few n (c ∷ cs) = omega (
  arith,
  sum_below-add n (λ (j : ℕ). reads j c) (λ (j : ℕ). readers j cs),
  one_each n c,
  readers_few n cs,
)

-- `m` steps one after the other.
pub data Run : ℕ → State → State → Type 0 where
  stays : {s : State} → Run 0 s s
  goes : {m : ℕ} {s t u : State} → Step s t → Run m t u → Run (suc m) s u

-- Within `k` steps the producer has an entry, and no consumer has moved.
abbrev pub Served : ℕ → State → Type 0
Served k s =
    (t : State) × (m : ℕ) × Run m s t
    × (m ≤ k)
    × (j : ℕ) × (t.producer ≡ writing j)
    × (t.consumers ≡ s.consumers)

is_free : (c : ℤ) → (c ≡ pos 0) ⊎ (c ≢ pos 0)
is_free (pos zero) = inl refl
is_free (pos (suc n)) = inr (λ e. ground arith)
is_free (negsuc n) = inr (λ e. ground arith)

-- How often the loop at `i` must go on to come to `j`.
abbrev distance : ℕ → ℕ → ℕ → ℕ
distance n i j = if leb i j then j - i else n - i + j

next_mod : (n i : ℕ) → i < n → (i + 1) % n ≡ (if leb n (i + 1) then 0 else i + 1)
next_mod n i lt = elim (ℕ_discrete (i + 1) n) [
  | yes e ↦ ground (arith, mod_round (i + 1) n)
  | no ne ↦ ground (arith, mod_below (i + 1) n)
]

next_distance :
    (n i j d : ℕ)
    → i < n
    → j < n
    → distance n i j ≡ suc d
    → distance n (if leb n (i + 1) then 0 else i + 1) j ≡ d
next_distance n i j d lt ltj e = ground arith

gets_here :
    (k i : ℕ) (s : State)
    → s.producer ≡ trying i
    → s.entries.nconsumers i ≡ pos 0
    → Served (suc k) s
gets_here k i s e free = (_, 1, goes (alloc_locks i e free) stays, omega arith, i, refl, refl)

gets_later :
    (k i : ℕ) (s : State)
    → s.producer ≡ trying i
    → s.entries.nconsumers i ≢ pos 0
    → Served k (record s { producer = trying (next_entry i s.entries) })
    → Served (suc k) s
gets_later k i s e ne (t, m, run, few, j, at_j, same) =
    (t, suc m, goes (alloc_moves_on i e ne) run, omega arith, j, at_j, same)

next_entry_lem :
    (n i : ℕ) (s : State)
    → s.entries.capacity ≡ n
    → i < n
    → next_entry i s.entries ≡ (if leb n (i + 1) then 0 else i + 1)
unfolding next_entry
next_entry_lem n i s cap lt = ap (λ c. (i + 1) % c) cap ∙ next_mod n i lt

next_below : (n i : ℕ) (s : State) → s.entries.capacity ≡ n → i < n → next_entry i s.entries < n
next_below n i s cap lt = ground (arith, next_entry_lem n i s cap lt)

more : (n : ℕ) (s : State) (d : ℕ) → d < n → Served (suc d) s → Served n s
more n s d lt (t, m, run, few, j, at_j, same) = (t, m, run, omega arith, j, at_j, same)

loop_gets :
    (d n i j : ℕ) (s : State)
    → s.entries.capacity ≡ n
    → s.producer ≡ trying i
    → i < n
    → j < n
    → s.entries.nconsumers j ≡ pos 0
    → distance n i j ≡ d
    → Served (suc d) s
loop_gets zero n i j s cap e lt ltj free dist =
    let same : i ≡ j = ground arith in gets_here 0 i s e (ap s.entries.nconsumers same ∙ free)
loop_gets (suc d) n i j s cap e lt ltj free dist = elim (is_free (s.entries.nconsumers i)) [
  | inl here ↦ gets_here (suc d) i s e here
  | inr ne ↦ gets_later (suc d) i s e ne (
      loop_gets d n (next_entry i s.entries) j
        (record s { producer = trying (next_entry i s.entries) }) cap refl (next_below n i s cap lt)
        ltj free
        (ap (λ k. distance n k j) (next_entry_lem n i s cap lt)
          ∙ next_distance n i j d lt ltj dist))
]

distance_below : (n i j : ℕ) → i < n → j < n → distance n i j < n
distance_below n i j lt ltj = ground arith

unread_free :
    {n : ℕ} {s t : State} (j i : ℕ)
    → Fresh n s
    → Reach s t
    → t.producer ≡ trying i
    → j < n
    → readers j t.consumers ≡ 0
    → t.entries.nconsumers j ≡ pos 0
unread_free {t = t} j i f r e lt unread =
    ground (arith, counter_tells {t = t} j f r lt, ap (writers j) e)

-- In every state reached from one set up by `spmc_init`, with consumers that had not begun and are
-- fewer than the entries: when the producer is in the loop of `producer_alloc` and no consumer moves,
-- it has locked an entry after at most as many steps as there are entries.
pub producer_gets_entry :
    {n : ℕ} {s t : State} (i : ℕ)
    → Fresh n s
    → Reach s t
    → t.producer ≡ trying i
    → length t.consumers < n
    → Served n t
producer_gets_entry {n} {s} {t} i f r e few =
    let below : i < n = subst (ProducerBelow n) e (reached f r).inside.0.6 in
    let z = zero_term n (λ j. readers j t.consumers) (omega (arith, readers_few n t.consumers)) in
    more n t (distance n i z.0) (distance_below n i z.0 below z.1) (
      loop_gets (distance n i z.0) n i z.0 t (reached f r).inside.0.1 e below z.1
        (unread_free z.0 i f r e z.1 z.2) refl)
