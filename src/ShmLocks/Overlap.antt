-- ===== src/ShmLocks/Overlap.antt =====
-- Consumers that come in while the producer writes, in shm.hpp and shmblock2.cpp.
use code_c.Base.{ℕ, ◌≡◌, refl, false, List, ◌∷◌, ◌++◌, arith}
use code_c.Base.Int.{ℤ, pos, ◌+ℤ◌, ◌-ℤ◌}
use code_c.ShmLocks.{
  resting, writing, Consumer, away, reading, State, init, Release, stores, adds, at, released,
  write_begins, write_locks, write_unlocks, in_progress, write_publishes, read_loads, read_looks,
  read_locks, read_releases, Reach, start, later, lock_free, write_exclusive,
}

-- The test of `LockForRead` for a write in progress never holds, whatever the lock.
pub in_progress_never : (i : ℕ) (lock_num : ℤ) → in_progress i lock_num ≡ false
unfolding in_progress
in_progress_never i lock_num = ground arith

-- A consumer that finds block `i` published takes its lock, whatever the lock is.
pub entered : State → ℕ → List Consumer → List Consumer → State
entered s i xs ys = record s {
  consumers = xs ++ (reading i ∷ ys);
  locks = at s.locks i (s.locks i +ℤ pos 1);
}

consumer_enters :
    {v : Release} {s₀ : State} (s : State) (xs ys : List Consumer) (i : ℕ)
    → Reach v s₀ s
    → s.read_pos ≡ pos i
    → s.consumers ≡ xs ++ (away ∷ ys)
    → Reach v s₀ (entered s i xs ys)
unfolding entered
consumer_enters s xs ys i r pub_i e =
    later
      (later (later r (read_loads xs ys i e pub_i))
        (read_looks xs ys i refl (in_progress_never i (s.locks i))))
      (read_locks xs ys i (s.locks i) refl refl)

-- The locks after the first write of block 0, and while the second is under way.
abbrev after_write : Release → ℕ → ℤ
after_write v = let locks = at (λ _. pos 0) 0 write_exclusive in at locks 0 (released v (locks 0))

after_write-free : (v : Release) → after_write v 0 ≡ lock_free
unfolding released ◌+ℤ◌
after_write-free stores = refl
after_write-free adds = refl

abbrev rewriting : Release → ℕ → List Consumer → State
rewriting v block_num cs = record (init block_num cs) {
  read_pos = pos 0;
  producer = writing 0;
  locks = at (after_write v) 0 write_exclusive;
}

rewriting-Reach :
    (v : Release) (block_num : ℕ) (cs : List Consumer)
    → Reach v (init block_num cs) (rewriting v block_num cs)
rewriting-Reach v block_num cs =
    later
      (later
        (later
          (later (later (later start (write_begins refl)) (write_locks 0 refl refl))
            (write_unlocks 0 refl))
          (write_publishes 0 refl))
        (write_begins refl))
      (write_locks 0 refl (after_write-free v))

-- With either release, any number of blocks and any consumers one of which is not in `LockForRead`:
-- a state can be reached in which that consumer reads block 0 while the producer writes it, and the
-- lock of the block is the free one.
pub read_during_write :
    (v : Release) (block_num : ℕ) (xs ys : List Consumer)
    → (t : State) × Reach v (init block_num (xs ++ (away ∷ ys))) t
      × (t.producer ≡ writing 0)
      × (t.consumers ≡ xs ++ (reading 0 ∷ ys))
      × (t.locks 0 ≡ lock_free)
unfolding entered ◌+ℤ◌
read_during_write v block_num xs ys = (
  entered (rewriting v block_num (xs ++ (away ∷ ys))) 0 xs ys,
  consumer_enters _ xs ys 0 (rewriting-Reach v block_num (xs ++ (away ∷ ys))) refl refl,
  refl,
  refl,
  refl,
)

-- With the `store` of shm.hpp, any number of blocks and any consumers one of which is not in
-- `LockForRead`: a state can be reached in which the producer holds nothing, the consumers stand
-- where they stood at first, and the lock of block 0 is the exclusive one.
stores_leak :
    (block_num : ℕ) (xs ys : List Consumer)
    → (t : State) × Reach stores (init block_num (xs ++ (away ∷ ys))) t
      × (t.producer ≡ resting)
      × (t.consumers ≡ xs ++ (away ∷ ys))
      × (t.locks 0 ≡ write_exclusive)
unfolding entered released ◌+ℤ◌ ◌-ℤ◌
stores_leak block_num xs ys = (
  _,
  later
      (later
        (later
          (consumer_enters _ xs ys 0 (rewriting-Reach stores block_num (xs ++ (away ∷ ys))) refl
            refl)
          (write_unlocks 0 refl))
        (write_publishes 0 refl))
      (read_releases xs ys 0 refl),
  refl,
  refl,
  refl,
)
