-- ===== src/SpmcRwlock.antt =====
-- c/20181104_dilu_spmc_atomic/spmc12.c: entries for one producer and many consumers with a
-- `pthread_rwlock_t` each. A call is one step, as only its `pthread_rwlock_tryrdlock` that succeeds and
-- its accesses of `read_pos` concern the other threads. A pointer into `buf` is its offset.
pub mod Ready
pub mod Overwritten
mod Tests
use code_c.Base.{
  ℕ, zero, suc, ◌+◌, ◌*◌, ◌/◌, ◌%◌, ◌<◌, ◌≡◌, Option, none, some, List, get_elem?, set, replicate,
  leb, if◌then◌else◌, ◌>>=◌,
}

-- The calls of pthreads on a lock: `tryrdlock` has no result where it does not return 0.
pub record Rwlock (L : Type 0) : Type 0 where
  pub init : L
  pub tryrdlock : L → Option L
  pub unlock : L → L

-- What `init` leaves has no locks on it. Where a lock has read locks only, and fewer than the most there
-- can be, `tryrdlock` adds one; `unlock` takes one of them off.
pub record IsDocumented {L : Type 0} (rwlock : Rwlock L) : Type 1 where
  pub Reads : L → ℕ → Type 0
  pub most : ℕ
  pub starts : Reads rwlock.init 0
  pub grants :
      (l : L) (n : ℕ)
      → Reads l n
      → n < most
      → (k : L) × (rwlock.tryrdlock l ≡ some k) × Reads k (suc n)
  pub releases : (l : L) (n : ℕ) → Reads l (suc n) → Reads (rwlock.unlock l) n

pub record Spmc (L : Type 0) : Type 0 where
  pub size : ℕ
  pub capacity : ℕ
  pub buf_size : ℕ
  pub write_pos : ℕ
  pub read_pos : ℕ
  pub rwlocks : List L

module _ {L : Type 0} (rwlock : Rwlock L) where
  -- `spmc_init` of the producer, with sizes that it accepts and memory.
  unfoldable pub set_up : ℕ → ℕ → Spmc L
  set_up entry_num buf_size = record {
    size = 0;
    capacity = entry_num;
    buf_size = buf_size;
    write_pos = 0;
    read_pos = 0;
    rwlocks = replicate entry_num rwlock.init;
  }

  -- `producer_alloc` and `consumer_alloc` on an entry whose lock was taken: the pointer and the state.
  unfoldable pub to_write : ℕ → Spmc L → L → ℕ × Spmc L
  to_write i s lock = (
    i * s.buf_size,
    record s {
      size = if leb s.size i then i + 1 else s.size;
      write_pos = (i + 1) % s.capacity;
      rwlocks = set s.rwlocks i lock;
    },
  )

  unfoldable pub to_read : ℕ → Spmc L → L → ℕ × Spmc L
  to_read i s lock = (i * s.buf_size, record s { rwlocks = set s.rwlocks i lock })

  -- The loops of the two, on fuel.
  unfoldable pub alloc_loop : ℕ → ℕ → Spmc L → Option (ℕ × Spmc L)
  alloc_loop zero i s = none
  alloc_loop (suc fuel) i s =
      let next = alloc_loop fuel ((i + 1) % s.capacity) s in
      do
        l ← get_elem? s.rwlocks i
        elim (rwlock.tryrdlock l) [ some lock ↦ some (to_write i s lock) | none ↦ next ]

  unfoldable pub producer_alloc : ℕ → Spmc L → Option (ℕ × Spmc L)
  producer_alloc fuel s = alloc_loop fuel s.write_pos s

  unfoldable pub consumer_alloc : ℕ → Spmc L → Option (ℕ × Spmc L)
  consumer_alloc zero s = none
  consumer_alloc (suc fuel) s =
      let next = consumer_alloc fuel s in
      do
        l ← get_elem? s.rwlocks s.read_pos
        elim (rwlock.tryrdlock l) [ some lock ↦ some (to_read s.read_pos s lock) | none ↦ next ]

  -- `producer_alloc_end` and `consumer_alloc_end`
  unfoldable pub unlocked : ℕ → Spmc L → Option (Spmc L)
  unlocked i s = do
    l ← get_elem? s.rwlocks i
    some (record s { rwlocks = set s.rwlocks i (rwlock.unlock l) })

  unfoldable pub producer_alloc_end : ℕ → Spmc L → Option (Spmc L)
  producer_alloc_end buf s = do
    t ← unlocked (buf / s.buf_size) s
    some (record t { read_pos = buf / s.buf_size })

  unfoldable pub consumer_alloc_end : ℕ → Spmc L → Option (Spmc L)
  consumer_alloc_end buf s = unlocked (buf / s.buf_size) s

  -- An entry that the producer writes.
  unfoldable pub produced : ℕ → Spmc L → Option (Spmc L)
  produced fuel s = do r ← producer_alloc fuel s; producer_alloc_end r.0 r.1

  -- `d` entries are written and released, one after another.
  unfoldable pub rounds : ℕ → ℕ → Spmc L → Option (Spmc L)
  rounds fuel zero s = some s
  rounds fuel (suc d) s = do t ← produced fuel s; rounds fuel d t
