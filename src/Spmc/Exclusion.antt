-- ===== src/Spmc/Exclusion.antt =====
-- Who holds an entry, in spmc9.c.
pub mod Always
use code_c.Base.{
  ℕ, ◌+◌, ◌≤◌, ◌<◌, ◌≡◌, ◌≢◌, refl, sym, subst, ap, Bool, true, false, All, All-middle,
  All-replaced, List, [], ◌∷◌, ◌++◌, ◌==◌, if◌then◌else◌, arith, ==_iff, ℕ_discrete,
}
use code_c.Base.Int.{
  ℤ, pos, negsuc, ◌+ℤ◌, ◌-ℤ◌, pos_part, neg_part, eq_of_parts, +ℤ_parts, -ℤ_parts, ltb_ℤ,
}
use code_c.ShmLocks.{
  Producer, resting, trying, writing, published, Consumer, away, loaded, looked, reading, at,
}
use code_c.ShmLocks.Counts.{
  reads, readers, writers, readers_moved, CountedAt, CountedAt-at, CountedAt-moved,
}
use code_c.ShmLocks.Range.{ProducerBelow, ConsumerBelow, ConsumersBelow}
use code_c.Spmc.{
  Entries, State, take_entry, next_entry, taken, Step, alloc_begins, alloc_locks, alloc_moves_on,
  end_unlocks, end_publishes, loads, looks, finds_taken, locks, fails, ends, Reach, start, later,
}
use code_c.Spmc.Inside.{AllInside, Step-Inside}

-- The entry that the producer writes is marked.
abbrev pub Marked : (ℕ → ℤ) → Producer → Type 0
Marked nconsumers resting = Unit
Marked nconsumers (trying i) = Unit
Marked nconsumers (writing i) = nconsumers i ≡ negsuc 0
Marked nconsumers (published i) = Unit

-- What a consumer has loaded from an entry was not the producer's mark.
abbrev pub Unmarked : Consumer → Type 0
Unmarked away = Unit
Unmarked (loaded i) = Unit
Unmarked (looked i old) = neg_part old ≡ 0
Unmarked (reading i) = Unit

abbrev pub Exact : ℕ → (ℕ → ℤ) → Producer → List Consumer → Type 0
Exact n nconsumers p cs = (j : ℕ) → j < n → CountedAt nconsumers p cs j

-- With `n` entries.
pub record Held (n : ℕ) (s : State) : Type 0 where
  pub inside : AllInside n s
  pub exact : Exact n s.entries.nconsumers s.producer s.consumers
  pub marked : Marked s.entries.nconsumers s.producer
  pub unmarked : All Unmarked s.consumers

-- A consumer that reads is one of the readers.
pub reader_counts :
    (cs xs ys : List Consumer) (i : ℕ) → cs ≡ xs ++ (reading i ∷ ys) → 0 < readers i cs
reader_counts cs xs ys i e = ground (arith, readers_moved i cs xs ys (reading i) away e)

-- Entry `i`, which the producer does not write, changes.
Marked-at :
    (nconsumers : ℕ → ℤ) (p : Producer) (i : ℕ) (new : ℤ)
    → Marked nconsumers p
    → p ≢ writing i
    → Marked (at nconsumers i new) p
Marked-at nconsumers resting i new m ne = tt
Marked-at nconsumers (trying k) i new m ne = tt
Marked-at nconsumers (writing k) i new m ne = elim (ℕ_discrete i k) [
  | yes e ↦ absurd (ne (ap writing (sym e)))
  | no other ↦ ground arith
]
Marked-at nconsumers (published k) i new m ne = tt

module _ {n : ℕ} {s : State} (h : Held n s) where
  -- A step of the producer from `p` that moves no consumer.
  producer_entry : (i : ℕ) {p : Producer} → s.producer ≡ p → ProducerBelow n p
  producer_entry i e = subst (ProducerBelow n) e h.inside.0.6

  pub moved-Unmarked :
      (xs ys : List Consumer) (c d : Consumer)
      → s.consumers ≡ xs ++ (c ∷ ys)
      → Unmarked d
      → All Unmarked (xs ++ (d ∷ ys))
  moved-Unmarked xs ys c d e f =
      All-replaced Unmarked xs ys c d f (subst (All Unmarked) e h.unmarked)

  was-Unmarked : (xs ys : List Consumer) (c : Consumer) → s.consumers ≡ xs ++ (c ∷ ys) → Unmarked c
  was-Unmarked xs ys c e = All-middle Unmarked xs ys c (subst (All Unmarked) e h.unmarked)

  was_inside :
      (xs ys : List Consumer) (c : Consumer) → s.consumers ≡ xs ++ (c ∷ ys) → ConsumerBelow n c
  was_inside xs ys c e =
      All-middle (ConsumerBelow n) xs ys c (subst (ConsumersBelow n) e h.inside.1)

  pub moved-Exact :
      (xs ys : List Consumer) (c d : Consumer)
      → s.consumers ≡ xs ++ (c ∷ ys)
      → ((j : ℕ) → reads j c ≡ reads j d)
      → Exact n s.entries.nconsumers s.producer (xs ++ (d ∷ ys))
  moved-Exact xs ys c d e same j lt =
      CountedAt-moved s.entries.nconsumers s.producer s.consumers xs ys c d j e (same j)
        (h.exact j lt)

  pub takes-Exact :
      (i : ℕ)
      → s.producer ≡ trying i
      → s.entries.nconsumers i ≡ pos 0
      → Exact n (at s.entries.nconsumers i (negsuc 0)) (writing i) s.consumers
  takes-Exact i e free j lt =
      CountedAt-at s.entries.nconsumers s.producer (writing i) s.consumers s.consumers i (negsuc 0)
        j (h.exact j lt) (λ ne. ground arith) (ground (arith, h.exact i (producer_entry i e)))

  -- The entry has no reader while it is written.
  pub alone : (i : ℕ) → s.producer ≡ writing i → readers i s.consumers ≡ 0
  alone i e = ground (arith, h.exact i (producer_entry i e), h.marked)

  pub unlocks-Exact :
      (i : ℕ)
      → s.producer ≡ writing i
      → Exact n (at s.entries.nconsumers i (pos 0)) (published i) s.consumers
  unlocks-Exact i e j lt =
      CountedAt-at s.entries.nconsumers s.producer (published i) s.consumers s.consumers i (pos 0) j
        (h.exact j lt) (λ ne. ground arith) (ground (arith, alone i e))

  pub locks-Exact :
      (xs ys : List Consumer) (i : ℕ) (old : ℤ)
      → s.consumers ≡ xs ++ (looked i old ∷ ys)
      → s.entries.nconsumers i ≡ old
      → Exact n (at s.entries.nconsumers i (old +ℤ pos 1)) s.producer (xs ++ (reading i ∷ ys))
  locks-Exact xs ys i old e same j lt =
      CountedAt-at s.entries.nconsumers s.producer s.producer s.consumers _ i (old +ℤ pos 1) j
        (h.exact j lt)
        (λ ne. ground (arith, readers_moved j s.consumers xs ys (looked i old) (reading i) e))
        (ground (
          arith,
          h.exact i (was_inside xs ys _ e),
          +ℤ_parts old (pos 1),
          readers_moved i s.consumers xs ys (looked i old) (reading i) e,
        ))

  pub ends-Exact :
      (xs ys : List Consumer) (i : ℕ)
      → s.consumers ≡ xs ++ (reading i ∷ ys)
      → Exact n
          (at s.entries.nconsumers i (s.entries.nconsumers i -ℤ pos 1))
          s.producer
          (xs ++ (away ∷ ys))
  ends-Exact xs ys i e j lt =
      CountedAt-at s.entries.nconsumers s.producer s.producer s.consumers _ i
        (s.entries.nconsumers i -ℤ pos 1) j (h.exact j lt)
        (λ ne. ground (arith, readers_moved j s.consumers xs ys (reading i) away e))
        (ground (
          arith,
          h.exact i (was_inside xs ys _ e),
          -ℤ_parts (s.entries.nconsumers i) (pos 1),
          readers_moved i s.consumers xs ys (reading i) away e,
        ))

  -- A consumer takes an entry that is not marked, or leaves one that it reads.
  pub locks-Marked :
      (xs ys : List Consumer) (i : ℕ) (old : ℤ)
      → s.consumers ≡ xs ++ (looked i old ∷ ys)
      → s.entries.nconsumers i ≡ old
      → Marked (at s.entries.nconsumers i (old +ℤ pos 1)) s.producer
  locks-Marked xs ys i old e same =
      Marked-at s.entries.nconsumers s.producer i (old +ℤ pos 1) h.marked
        (λ w. absurd (ground (arith, was-Unmarked xs ys (looked i old) e, h.marked)))

  pub ends-Marked :
      (xs ys : List Consumer) (i : ℕ)
      → s.consumers ≡ xs ++ (reading i ∷ ys)
      → Marked (at s.entries.nconsumers i (s.entries.nconsumers i -ℤ pos 1)) s.producer
  ends-Marked xs ys i e =
      Marked-at s.entries.nconsumers s.producer i _ h.marked
        (λ w. absurd (ground (arith, alone i w, reader_counts s.consumers xs ys i e)))
