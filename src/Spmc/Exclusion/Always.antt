-- ===== src/Spmc/Exclusion/Always.antt =====
-- Every step of spmc9.c keeps the entries to one side.
use code_c.Base.{
  ℕ, ◌≤◌, ◌<◌, ◌≡◌, refl, ap, false, All, List, [], ◌∷◌, ◌==◌, if◌then◌else◌, arith, ℕ_discrete,
}
use code_c.Base.Int.{ℤ, pos, negsuc, pos_part, neg_part}
use code_c.ShmLocks.{
  Producer, resting, trying, writing, published, Consumer, away, loaded, looked, reading,
}
use code_c.ShmLocks.Counts.{reads, readers, writers, CountedAt}
use code_c.ShmLocks.Range.{ConsumerBelow}
use code_c.Spmc.{
  State, take_entry, taken, Step, alloc_begins, alloc_locks, alloc_moves_on, end_unlocks,
  end_publishes, loads, looks, finds_taken, locks, fails, ends, Reach, start, later,
}
use code_c.Spmc.Inside.{Step-Inside}
use code_c.Spmc.Exclusion.{
  Marked, Unmarked, Held, alone, moved-Unmarked, moved-Exact, takes-Exact, unlocks-Exact,
  locks-Exact, ends-Exact, locks-Marked, ends-Marked,
}

unmarked_of : (n : ℤ) → taken n ≡ false → neg_part n ≡ 0
unfolding taken
unmarked_of n e = ground arith

pub Step-Held : {n : ℕ} {s t : State} → Step s t → Held n s → Held n t
unfolding take_entry
Step-Held {s = s} (alloc_begins e) h = record {
  inside = Step-Inside {s = s} (alloc_begins e) h.inside;
  exact = λ j lt. ground (arith, h.exact j lt);
  marked = tt;
  unmarked = h.unmarked;
}
Step-Held {s = s} (alloc_locks i e free) h = record {
  inside = Step-Inside {s = s} (alloc_locks i e free) h.inside;
  exact = takes-Exact h i e free;
  marked = ground arith;
  unmarked = h.unmarked;
}
Step-Held {s = s} (alloc_moves_on i e ne) h = record {
  inside = Step-Inside {s = s} (alloc_moves_on i e ne) h.inside;
  exact = λ j lt. ground (arith, h.exact j lt);
  marked = tt;
  unmarked = h.unmarked;
}
Step-Held {s = s} (end_unlocks i e) h = record {
  inside = Step-Inside {s = s} (end_unlocks i e) h.inside;
  exact = unlocks-Exact h i e;
  marked = tt;
  unmarked = h.unmarked;
}
Step-Held {s = s} (end_publishes i e) h = record {
  inside = Step-Inside {s = s} (end_publishes i e) h.inside;
  exact = λ j lt. ground (arith, h.exact j lt);
  marked = tt;
  unmarked = h.unmarked;
}
Step-Held {s = s} (loads xs ys e) h = record {
  inside = Step-Inside {s = s} (loads xs ys e) h.inside;
  exact = moved-Exact h xs ys away _ e (λ j. refl);
  marked = h.marked;
  unmarked = moved-Unmarked h xs ys away _ e tt;
}
Step-Held {s = s} (looks xs ys i e ok) h = record {
  inside = Step-Inside {s = s} (looks xs ys i e ok) h.inside;
  exact = moved-Exact h xs ys (loaded i) _ e (λ j. refl);
  marked = h.marked;
  unmarked = moved-Unmarked h xs ys (loaded i) _ e (unmarked_of (s.entries.nconsumers i) ok);
}
Step-Held {s = s} (finds_taken xs ys i e ok) h = record {
  inside = Step-Inside {s = s} (finds_taken xs ys i e ok) h.inside;
  exact = moved-Exact h xs ys (loaded i) _ e (λ j. refl);
  marked = h.marked;
  unmarked = moved-Unmarked h xs ys (loaded i) _ e tt;
}
Step-Held {s = s} (locks xs ys i old e same) h = record {
  inside = Step-Inside {s = s} (locks xs ys i old e same) h.inside;
  exact = locks-Exact h xs ys i old e same;
  marked = locks-Marked h xs ys i old e same;
  unmarked = moved-Unmarked h xs ys (looked i old) _ e tt;
}
Step-Held {s = s} (fails xs ys i old e ne) h = record {
  inside = Step-Inside {s = s} (fails xs ys i old e ne) h.inside;
  exact = moved-Exact h xs ys (looked i old) _ e (λ j. refl);
  marked = h.marked;
  unmarked = moved-Unmarked h xs ys (looked i old) _ e tt;
}
Step-Held {s = s} (ends xs ys i e) h = record {
  inside = Step-Inside {s = s} (ends xs ys i e) h.inside;
  exact = ends-Exact h xs ys i e;
  marked = ends-Marked h xs ys i e;
  unmarked = moved-Unmarked h xs ys (reading i) _ e tt;
}

-- States reached from one that `spmc_init` has set up for a producer, with consumers that have not
-- begun.
abbrev pub Fresh : ℕ → State → Type 0
Fresh n s =
    (0 < n)
    × (s.entries.capacity ≡ n)
    × (s.entries.size ≡ 0)
    × (s.entries.write_pos ≡ 0)
    × (s.entries.read_pos ≡ 0)
    × ((j : ℕ) → j < n → s.entries.nconsumers j ≡ pos 0)
    × (s.producer ≡ resting)
    × All (λ c. c ≡ away) s.consumers

Fresh-consumers :
    (n : ℕ) (cs : List Consumer)
    → All (λ c. c ≡ away) cs
    → All (ConsumerBelow n) cs × All Unmarked cs × ((j : ℕ) → readers j cs ≡ 0)
Fresh-consumers n [] h = (tt, tt, λ j. refl)
Fresh-consumers n (c ∷ cs) h =
    let r = Fresh-consumers n cs h.1 in
    ((rw h.0 tt, r.0), (rw h.0 tt, r.1), λ j. ground (arith, ap (reads j) h.0, r.2 j))

Fresh-Held : (n : ℕ) (s : State) → Fresh n s → Held n s
Fresh-Held n s h = record {
  inside = (ground (arith, h), (Fresh-consumers n s.consumers h.7).0);
  exact = λ j lt. ground (
    arith,
    ap pos_part (h.5 j lt),
    ap neg_part (h.5 j lt),
    h.6,
    (Fresh-consumers n s.consumers h.7).2 j,
  );
  marked = ground (arith, h.6);
  unmarked = (Fresh-consumers n s.consumers h.7).1;
}

pub Reach-Held : {n : ℕ} {s t : State} → Reach s t → Held n s → Held n t
Reach-Held start h = h
Reach-Held (later r st) h = Step-Held st (Reach-Held r h)

pub reached : {n : ℕ} {s t : State} → Fresh n s → Reach s t → Held n t
reached {n} {s} f r = Reach-Held r (Fresh-Held n s f)

tells :
    (nconsumers : ℕ → ℤ) (p : Producer) (cs : List Consumer) (j : ℕ)
    → CountedAt nconsumers p cs j
    → Marked nconsumers p
    → nconsumers j ≡ (if writers j p == 1 then negsuc 0 else pos (readers j cs))
tells nconsumers resting cs j h m = ground arith
tells nconsumers (trying i) cs j h m = ground arith
tells nconsumers (writing i) cs j h m = elim (ℕ_discrete i j) [
  | yes e ↦ ground (arith, e, ap nconsumers e)
  | no ne ↦ ground arith
]
tells nconsumers (published i) cs j h m = ground arith

-- In every state reached from one set up by `spmc_init`, with consumers that had not begun: the
-- counter of an entry below `capacity` is -1 while the producer writes it, and otherwise the number
-- of its readers.
pub counter_tells :
    {n : ℕ} {s t : State} (j : ℕ)
    → Fresh n s
    → Reach s t
    → j < n
    → t.entries.nconsumers j
      ≡ (if writers j t.producer == 1 then negsuc 0 else pos (readers j t.consumers))
counter_tells {t = t} j f r lt =
    let h = reached f r in
    tells t.entries.nconsumers t.producer t.consumers j (h.exact j lt) h.marked

-- In every state reached from one set up by `spmc_init`, with consumers that had not begun: while the
-- producer writes an entry no consumer reads that entry, the entry is below `size`, and `size` is at
-- most `capacity`.
pub never_both :
    {n : ℕ} {s t : State} (i : ℕ)
    → Fresh n s
    → Reach s t
    → t.producer ≡ writing i
    → (readers i t.consumers ≡ 0) × (i < t.entries.size) × (t.entries.size ≤ n)
never_both i f r e = let h = reached f r in ground (arith, alone h i e, h.inside.0)
