-- ===== src/ShmLocks/Counts.antt =====
-- The locks under `fetch_add` in `ReleaseWriteLock`, as in shmblock2.cpp.
use code_c.Base.{
  ℕ, ◌+◌, ◌≡◌, ◌≢◌, refl, ap, List, [], ◌∷◌, ◌++◌, ◌==◌, if◌then◌else◌, arith, ==_iff, ℕ_discrete,
}
use code_c.Base.Int.{ℤ, pos, ◌+ℤ◌, ◌-ℤ◌, pos_part, neg_part, eq_of_parts, +ℤ_parts, -ℤ_parts}
use code_c.ShmLocks.{
  Producer, resting, trying, writing, published, Consumer, away, loaded, looked, reading, State, at,
  init, adds, released, Step, write_begins, write_locks, write_moves_on, write_unlocks,
  write_publishes, read_gives_up, read_loads, read_looks, read_waits, read_locks, read_fails,
  read_releases, Reach, start, later, lock_free, write_exclusive,
}

abbrev pub reads : ℕ → Consumer → ℕ
reads j away = 0
reads j (loaded i) = 0
reads j (looked i n) = 0
reads j (reading i) = if i == j then 1 else 0

-- How many consumers hold block `j`.
abbrev pub readers : ℕ → List Consumer → ℕ
readers j [] = 0
readers j (c ∷ cs) = reads j c + readers j cs

-- Whether the producer holds it.
abbrev pub writers : ℕ → Producer → ℕ
writers j resting = 0
writers j (trying i) = 0
writers j (writing i) = if i == j then 1 else 0
writers j (published i) = 0

readers-append :
    (j : ℕ) (xs ys : List Consumer) → readers j (xs ++ ys) ≡ readers j xs + readers j ys
readers-append j [] ys = omega arith
readers-append j (c ∷ xs) ys = omega (arith, readers-append j xs ys)

-- One consumer moves from `c` to `d`.
pub readers_moved :
    (j : ℕ) (cs xs ys : List Consumer) (c d : Consumer)
    → cs ≡ xs ++ (c ∷ ys)
    → readers j (xs ++ (d ∷ ys)) + reads j c ≡ readers j cs + reads j d
readers_moved j cs xs ys c d e =
    omega (arith, ap (readers j) e, readers-append j xs (c ∷ ys), readers-append j xs (d ∷ ys))

-- A lock is the number of its readers, less one for the writer: in numbers.
abbrev pub CountedAt : (ℕ → ℤ) → Producer → List Consumer → ℕ → Type 0
CountedAt locks p cs j = pos_part (locks j) + writers j p ≡ readers j cs + neg_part (locks j)

abbrev pub Counted : (ℕ → ℤ) → Producer → List Consumer → Type 0
Counted locks p cs = (j : ℕ) → CountedAt locks p cs j

pub Counted-locks :
    (locks : ℕ → ℤ) (p : Producer) (cs : List Consumer)
    → Counted locks p cs
    → (j : ℕ) → locks j +ℤ pos (writers j p) ≡ pos (readers j cs)
Counted-locks locks p cs h j =
    eq_of_parts _ _ (omega (arith, +ℤ_parts (locks j) (pos (writers j p)), h j))

-- The lock of block `i` becomes `n`; the holders of block `i` change as much.
pub CountedAt-at :
    (locks : ℕ → ℤ) (p p' : Producer) (cs cs' : List Consumer) (i : ℕ) (n : ℤ) (j : ℕ)
    → CountedAt locks p cs j
    → (i ≢ j → readers j cs' + writers j p ≡ readers j cs + writers j p')
    → pos_part n + writers i p' ≡ readers i cs' + neg_part n
    → CountedAt (at locks i n) p' cs' j
CountedAt-at locks p p' cs cs' i n j h others own = elim (ℕ_discrete i j) [
  | yes e ↦ rw (← e, (==_iff i i).1 refl) own
  | no ne ↦ ground (arith, h, others ne)
]

-- Only a consumer moves, between places that hold no block.
pub CountedAt-moved :
    (locks : ℕ → ℤ) (p : Producer) (cs xs ys : List Consumer) (c d : Consumer) (j : ℕ)
    → cs ≡ xs ++ (c ∷ ys)
    → reads j c ≡ reads j d
    → CountedAt locks p cs j
    → CountedAt locks p (xs ++ (d ∷ ys)) j
CountedAt-moved locks p cs xs ys c d j e same h =
    omega (arith, h, same, readers_moved j cs xs ys c d e)

Step-Counted :
    {s t : State}
    → Step adds s t
    → Counted s.locks s.producer s.consumers
    → Counted t.locks t.producer t.consumers
unfolding released
Step-Counted {s} (write_begins e) h = λ j. ground (arith, h j)
Step-Counted {s} (write_locks i e free) h = λ j.
    CountedAt-at s.locks s.producer (writing i) s.consumers s.consumers i write_exclusive j (h j)
      (λ ne. ground arith) (ground (arith, h i))
Step-Counted {s} (write_moves_on i e) h = λ j. ground (arith, h j)
Step-Counted {s} (write_unlocks i e) h = λ j.
    CountedAt-at s.locks s.producer (published i) s.consumers s.consumers i (s.locks i +ℤ pos 1) j
      (h j) (λ ne. ground arith) (ground (arith, h i, +ℤ_parts (s.locks i) (pos 1)))
Step-Counted {s} (write_publishes i e) h = λ j. ground (arith, h j)
Step-Counted (read_gives_up xs ys k e r) h = h
Step-Counted {s} (read_loads xs ys i e r) h =
    λ j. CountedAt-moved s.locks s.producer s.consumers xs ys away (loaded i) j e refl (h j)
Step-Counted {s} (read_looks xs ys i e r) h =
    λ j. CountedAt-moved s.locks s.producer s.consumers xs ys (loaded i) _ j e refl (h j)
Step-Counted {s} (read_waits xs ys i e r) h =
    λ j. CountedAt-moved s.locks s.producer s.consumers xs ys (loaded i) away j e refl (h j)
Step-Counted {s} (read_locks xs ys i n e same) h = λ j.
    CountedAt-at s.locks s.producer s.producer s.consumers _ i (n +ℤ pos 1) j (h j)
      (λ ne. ground (arith, readers_moved j s.consumers xs ys (looked i n) (reading i) e))
      (ground (
        arith,
        h i,
        +ℤ_parts n (pos 1),
        readers_moved i s.consumers xs ys (looked i n) (reading i) e,
      ))
Step-Counted {s} (read_fails xs ys i n e) h =
    λ j. CountedAt-moved s.locks s.producer s.consumers xs ys (looked i n) away j e refl (h j)
Step-Counted {s} (read_releases xs ys i e) h = λ j.
    CountedAt-at s.locks s.producer s.producer s.consumers _ i (s.locks i -ℤ pos 1) j (h j)
      (λ ne. ground (arith, readers_moved j s.consumers xs ys (reading i) away e))
      (ground (
        arith,
        h i,
        -ℤ_parts (s.locks i) (pos 1),
        readers_moved i s.consumers xs ys (reading i) away e,
      ))

Reach-Counted :
    {s t : State}
    → Reach adds s t
    → Counted s.locks s.producer s.consumers
    → Counted t.locks t.producer t.consumers
Reach-Counted start h = h
Reach-Counted (later r st) h = Step-Counted st (Reach-Counted r h)

-- States reached from the initial one, with consumers that hold nothing at first.
module _ {block_num : ℕ} {cs : List Consumer} {s : State} (rest : (j : ℕ) → readers j cs ≡ 0)
    (r : Reach adds (init block_num cs) s) where
  reached : Counted s.locks s.producer s.consumers
  reached = Reach-Counted r (λ j. omega (arith, rest j))

  -- With the `fetch_add` of shmblock2.cpp, in every state reached from the initial one by consumers
  -- that hold no block at first, each lock is the number of consumers that hold its block, less one
  -- if the producer holds it.
  pub adds_count : (j : ℕ) → s.locks j +ℤ pos (writers j s.producer) ≡ pos (readers j s.consumers)
  adds_count = Counted-locks s.locks s.producer s.consumers reached

  -- With the `fetch_add` of shmblock2.cpp, in every state reached from the initial one by consumers
  -- that hold no block at first: when the producer tries a block in `LockForWrite` and its lock is
  -- the free one, no consumer holds that block.
  pub write_locks_alone :
      (i : ℕ) → s.producer ≡ trying i → s.locks i ≡ lock_free → readers i s.consumers ≡ 0
  write_locks_alone i e free = ground (arith, reached i)
