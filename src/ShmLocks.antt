-- ===== src/ShmLocks.antt =====
-- The reader and writer locks of the shared-memory blocks: class `State` of
-- c++/20230108-pubsub-shm-udp-3/shm.hpp and of c/20181104_dilu_spmc_atomic/shmblock2.cpp, one
-- producer and any number of consumers, an atomic access at a time. The two differ in how
-- `ReleaseWriteLock` gives a lock back.
pub mod Counts
pub mod Overlap
pub mod Range
mod Tests
use code_c.Base.{
  ℕ, ◌+◌, ◌-◌, ◌*◌, ◌/◌, ◌%◌, ◌≡◌, ◌≢◌, Bool, true, false, List, [], ◌∷◌, ◌++◌, ◌==◌, if◌then◌else◌,
}
use code_c.Base.Int.{ℤ, pos, negsuc, ◌+ℤ◌, ◌-ℤ◌, ltb_ℤ}

-- `kRWLockFree` and `kWriteExclusive`
abbrev pub lock_free : ℤ
lock_free = pos 0

abbrev pub write_exclusive : ℤ
write_exclusive = negsuc 0

-- Where the producer stands: in the loop of `LockForWrite` at block `i`, between the two calls, and
-- in `ReleaseWriteLock` between its two stores.
pub data Producer : Type 0 where
  resting : Producer
  trying : (i : ℕ) → Producer
  writing : (i : ℕ) → Producer
  published : (i : ℕ) → Producer

-- Where a consumer stands in `LockForRead`: after the load of `read_pos_`, after that of the lock,
-- and between the call and `ReleaseReadLock`.
pub data Consumer : Type 0 where
  away : Consumer
  loaded : (i : ℕ) → Consumer
  looked : (i : ℕ) → (lock_num : ℤ) → Consumer
  reading : (i : ℕ) → Consumer

pub record State : Type 0 where
  pub block_num : ℕ
  pub write_pos : ℕ
  pub read_pos : ℤ
  pub locks : ℕ → ℤ
  pub producer : Producer
  pub consumers : List Consumer

abbrev pub at : (ℕ → ℤ) → ℕ → ℤ → ℕ → ℤ
at locks i n j = if i == j then n else locks j

-- The constructor, with `consumers` that have not begun.
abbrev pub init : ℕ → List Consumer → State
init block_num consumers = record {
  block_num = block_num;
  write_pos = 0;
  read_pos = negsuc 0;
  locks = λ _. pos 0;
  producer = resting;
  consumers = consumers;
}

-- `locks_[i].store(kRWLockFree)` in shm.hpp, `locks_[i].fetch_add(1)` in shmblock2.cpp
pub data Release : Type 0 where
  stores adds : Release

unfoldable pub released : Release → ℤ → ℤ
unfolding ◌+ℤ◌
released stores n = lock_free
released adds n = n +ℤ pos 1

-- The test `i < kRWLockFree` of `LockForRead` on the loaded `read_pos_`, which stands in the code
-- where the lock `lock_num` has just been loaded.
unfoldable pub in_progress : ℕ → ℤ → Bool
in_progress i lock_num = ltb_ℤ (pos i) lock_free

pub data Step (v : Release) (s : State) : State → Type 0 where
  -- `LockForWrite`; a weak compare-exchange may fail for no reason.
  write_begins : s.producer ≡ resting → Step v s (record s { producer = trying s.write_pos })
  write_locks :
      (i : ℕ)
      → s.producer ≡ trying i
      → s.locks i ≡ lock_free
      → Step v s (record s { producer = writing i; locks = at s.locks i write_exclusive })
  write_moves_on :
      (i : ℕ)
      → s.producer ≡ trying i
      → Step v s (record s { producer = trying ((i + 1) % s.block_num) })
  -- `ReleaseWriteLock`
  write_unlocks :
      (i : ℕ)
      → s.producer ≡ writing i
      → Step v s
          (record s { producer = published i; locks = at s.locks i (released v (s.locks i)) })
  write_publishes :
      (i : ℕ)
      → s.producer ≡ published i
      → Step v s (record s { producer = resting; read_pos = pos i })
  -- `LockForRead`. With nothing written yet it gives up.
  read_gives_up :
      (xs ys : List Consumer) (k : ℕ)
      → s.consumers ≡ xs ++ (away ∷ ys)
      → s.read_pos ≡ negsuc k
      → Step v s s
  read_loads :
      (xs ys : List Consumer) (i : ℕ)
      → s.consumers ≡ xs ++ (away ∷ ys)
      → s.read_pos ≡ pos i
      → Step v s (record s { consumers = xs ++ (loaded i ∷ ys) })
  read_looks :
      (xs ys : List Consumer) (i : ℕ)
      → s.consumers ≡ xs ++ (loaded i ∷ ys)
      → in_progress i (s.locks i) ≡ false
      → Step v s (record s { consumers = xs ++ (looked i (s.locks i) ∷ ys) })
  read_waits :
      (xs ys : List Consumer) (i : ℕ)
      → s.consumers ≡ xs ++ (loaded i ∷ ys)
      → in_progress i (s.locks i) ≡ true
      → Step v s (record s { consumers = xs ++ (away ∷ ys) })
  read_locks :
      (xs ys : List Consumer) (i : ℕ) (n : ℤ)
      → s.consumers ≡ xs ++ (looked i n ∷ ys)
      → s.locks i ≡ n
      → Step v s
          (record s { consumers = xs ++ (reading i ∷ ys); locks = at s.locks i (n +ℤ pos 1) })
  read_fails :
      (xs ys : List Consumer) (i : ℕ) (n : ℤ)
      → s.consumers ≡ xs ++ (looked i n ∷ ys)
      → Step v s (record s { consumers = xs ++ (away ∷ ys) })
  -- `ReleaseReadLock`
  read_releases :
      (xs ys : List Consumer) (i : ℕ)
      → s.consumers ≡ xs ++ (reading i ∷ ys)
      → Step v s
          (record s { consumers = xs ++ (away ∷ ys); locks = at s.locks i (s.locks i -ℤ pos 1) })

pub data Reach (v : Release) (s : State) : State → Type 0 where
  start : Reach v s s
  later : {t u : State} → Reach v s t → Step v t u → Reach v s u

-- `buffer_ + i * block_size_`, the pointer that `AcquireBlockToWrite` and `AcquireBlockToRead`
-- return for block `i`.
pub block_address : ℕ → ℕ → ℕ → ℕ
block_address buffer block_size i = buffer + i * block_size

-- `((char *)buf - buffer_) / block_size_` in `ReleaseWrittenBlock` and `ReleaseReadBlock`.
pub block_index : ℕ → ℕ → ℕ → ℕ
block_index buffer block_size buf = (buf - buffer) / block_size
