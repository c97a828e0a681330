-- ===== src/Spmc/Inside.antt =====
-- Positions and entries in range, in spmc9.c.
use native.Mathlib.Nat.{mod-lt}
use code_c.Base.{ℕ, ◌+◌, ◌-◌, ◌%◌, ◌≤◌, ◌<◌, ◌≡◌, subst, List, ◌∷◌, ◌++◌, arith}
use code_c.ShmLocks.{
  Producer, resting, trying, writing, published, Consumer, away, loaded, looked, reading,
}
use code_c.ShmLocks.Range.{ProducerBelow, ConsumerBelow, ConsumersBelow, ConsumersBelow-moved}
use code_c.Spmc.{
  Entries, State, take_entry, next_entry, Step, alloc_begins, alloc_locks, alloc_moves_on,
  end_unlocks, end_publishes, loads, looks, finds_taken, locks, fails, ends, Reach, start, later,
}

-- An entry that was written, or is being written, is below `size`.
abbrev pub Sized : ℕ → Producer → Type 0
Sized size resting = Unit
Sized size (trying i) = Unit
Sized size (writing i) = i < size
Sized size (published i) = i < size

-- With `n` entries. `read_pos` is 0 until the first entry is written.
abbrev pub Inside : ℕ → Entries → Producer → Type 0
Inside n e p =
    (0 < n)
    × (e.capacity ≡ n)
    × (e.write_pos < n)
    × (e.read_pos < n)
    × (e.size ≤ n)
    × (e.read_pos ≤ e.size - 1)
    × ProducerBelow n p
    × Sized e.size p

abbrev pub AllInside : ℕ → State → Type 0
AllInside n s = Inside n s.entries s.producer × ConsumersBelow n s.consumers

wraps : (n i c : ℕ) → 0 < n → c ≡ n → (i + 1) % c < n
wraps n i c some_entries e = subst (λ k. (i + 1) % c < k) e (mod-lt (i + 1) {m = c} (omega arith))

module _ (n : ℕ) (s : State) (h : AllInside n s) where
  moved-ConsumersBelow :
      (xs ys : List Consumer) (c d : Consumer)
      → s.consumers ≡ xs ++ (c ∷ ys)
      → (ConsumerBelow n c → ConsumerBelow n d)
      → ConsumersBelow n (xs ++ (d ∷ ys))
  moved-ConsumersBelow xs ys c d e f =
      ConsumersBelow-moved n xs ys c d f (subst (ConsumersBelow n) e h.1)

  takes-Inside : (i : ℕ) → s.producer ≡ trying i → Inside n (take_entry i s.entries) (writing i)
  unfolding take_entry
  takes-Inside i e = ground (arith, h.0, wraps n i s.entries.capacity)

  moves_on-Inside :
      (i : ℕ) → s.producer ≡ trying i → Inside n s.entries (trying (next_entry i s.entries))
  unfolding next_entry
  moves_on-Inside i e = ground (arith, h.0, wraps n i s.entries.capacity)

pub Step-Inside : {n : ℕ} {s t : State} → Step s t → AllInside n s → AllInside n t
Step-Inside (alloc_begins e) h = (ground (arith, h.0), h.1)
Step-Inside {n} {s} (alloc_locks i e free) h = (takes-Inside n s h i e, h.1)
Step-Inside {n} {s} (alloc_moves_on i e ne) h = (moves_on-Inside n s h i e, h.1)
Step-Inside (end_unlocks i e) h = (ground (arith, h.0), h.1)
Step-Inside (end_publishes i e) h = (ground (arith, h.0), h.1)
Step-Inside {n} {s} (loads xs ys e) h =
    (h.0, moved-ConsumersBelow n s h xs ys away _ e (λ _. h.0.3))
Step-Inside {n} {s} (looks xs ys i e ok) h =
    (h.0, moved-ConsumersBelow n s h xs ys (loaded i) _ e (λ b. b))
Step-Inside {n} {s} (finds_taken xs ys i e ok) h =
    (h.0, moved-ConsumersBelow n s h xs ys (loaded i) _ e (λ b. tt))
Step-Inside {n} {s} (locks xs ys i old e same) h =
    (h.0, moved-ConsumersBelow n s h xs ys (looked i old) _ e (λ b. b))
Step-Inside {n} {s} (fails xs ys i old e ne) h =
    (h.0, moved-ConsumersBelow n s h xs ys (looked i old) _ e (λ b. tt))
Step-Inside {n} {s} (ends xs ys i e) h =
    (h.0, moved-ConsumersBelow n s h xs ys (reading i) _ e (λ b. tt))

pub Reach-Inside : {n : ℕ} {s t : State} → Reach s t → AllInside n s → AllInside n t
Reach-Inside start h = h
Reach-Inside (later r st) h = Step-Inside st (Reach-Inside r h)
