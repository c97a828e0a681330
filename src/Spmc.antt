-- ===== src/Spmc.antt =====
-- c/20181104_dilu_spmc_atomic/spmc9.c: entries in shared memory for one producer and any number of
-- consumers, an atomic access at a time. `CAS` fails only on another value. What only the producer
-- reads is written together with the access before it.
pub mod Inside
pub mod Exclusion
pub mod Supply
pub mod Unwritten
mod Tests
use code_c.Base.{
  ℕ, zero, suc, ◌+◌, ◌-◌, ◌*◌, ◌/◌, ◌%◌, ◌≡◌, ◌≢◌, Bool, true, false, ◌||◌, Option, none, some,
  List, [], ◌∷◌, ◌++◌, ◌==◌, leb, if◌then◌else◌,
}
use code_c.Base.Int.{ℤ, pos, negsuc, pos_part, ◌+ℤ◌, ◌-ℤ◌, ltb_ℤ}
use code_c.ShmLocks.{
  Producer, resting, trying, writing, published, Consumer, away, loaded, looked, reading, at,
}

abbrev pub entry_num_max : ℕ
entry_num_max = 64

-- `spmc_t`, without the bytes of the entries.
pub record Entries : Type 0 where
  pub key : ℤ
  pub size : ℕ
  pub capacity : ℕ
  pub buf_size : ℕ
  pub write_pos : ℕ
  pub read_pos : ℕ
  pub nconsumers : ℕ → ℤ

-- Where the threads stand: the producer in the loop of `producer_alloc` at entry `i`, between it and
-- `producer_alloc_end`, and between the two stores there; a consumer in `consumer_alloc` after each
-- of its two loads, and between it and `consumer_alloc_end`.
pub record State : Type 0 where
  pub entries : Entries
  pub producer : Producer
  pub consumers : List Consumer

-- `spmc_init`. The answers of `shmget` and `shmat` are `none` for -1; `shmat` gives the memory as it
-- is there. `exit` is `none`.
pub cleared : ℕ → (ℕ → ℤ) → ℕ → ℤ
cleared zero nconsumers = nconsumers
cleared (suc n) nconsumers = at (cleared n nconsumers) n (pos 0)

pub set_up : ℤ → ℕ → ℕ → Entries → Entries
set_up key entry_num buf_size s = record {
  key = key;
  size = 0;
  capacity = entry_num;
  buf_size = buf_size;
  write_pos = 0;
  read_pos = 0;
  nconsumers = cleared entry_num s.nconsumers;
}

pub bad_sizes : ℤ → ℤ → Bool
bad_sizes entry_num buf_size =
    ltb_ℤ entry_num (pos 1) || (ltb_ℤ (pos entry_num_max) entry_num || ltb_ℤ buf_size (pos 1))

pub attach : ℤ → ℕ → ℕ → Bool → Option ℕ → Option Entries → Option Entries
attach key entry_num buf_size is_producer none shm = none
attach key entry_num buf_size is_producer (some shmid) none = none
attach key entry_num buf_size is_producer (some shmid) (some s) =
    some (if is_producer then set_up key entry_num buf_size s else s)

pub spmc_init : ℤ → ℤ → ℤ → Bool → Option ℕ → Option Entries → Option Entries
spmc_init key entry_num buf_size is_producer shmid shm =
    if bad_sizes entry_num buf_size
    then none
    else attach key (pos_part entry_num) (pos_part buf_size) is_producer shmid shm

-- The body of `producer_alloc` once entry `i` is locked.
pub take_entry : ℕ → Entries → Entries
take_entry i s = record s {
  nconsumers = at s.nconsumers i (negsuc 0);
  size = if leb s.size i then i + 1 else s.size;
  write_pos = (i + 1) % s.capacity;
}

pub next_entry : ℕ → Entries → ℕ
next_entry i s = (i + 1) % s.capacity

-- `old < 0` in `consumer_alloc`
pub taken : ℤ → Bool
taken old = ltb_ℤ old (pos 0)

-- The pointer to an entry, and the entry of a pointer.
pub entry_address : ℕ → ℕ → ℕ → ℕ
entry_address buf buf_size i = buf + i * buf_size

pub entry_index : ℕ → ℕ → ℕ → ℕ
entry_index buf buf_size p = (p - buf) / buf_size

pub data Step (s : State) : State → Type 0 where
  -- `producer_alloc`
  alloc_begins : s.producer ≡ resting → Step s (record s { producer = trying s.entries.write_pos })
  alloc_locks :
      (i : ℕ)
      → s.producer ≡ trying i
      → s.entries.nconsumers i ≡ pos 0
      → Step s (record s { producer = writing i; entries = take_entry i s.entries })
  alloc_moves_on :
      (i : ℕ)
      → s.producer ≡ trying i
      → s.entries.nconsumers i ≢ pos 0
      → Step s (record s { producer = trying (next_entry i s.entries) })
  -- `producer_alloc_end`
  end_unlocks :
      (i : ℕ)
      → s.producer ≡ writing i
      → Step s (record s {
        producer = published i;
        entries = record s.entries { nconsumers = at s.entries.nconsumers i (pos 0) };
      })
  end_publishes :
      (i : ℕ)
      → s.producer ≡ published i
      → Step s (record s { producer = resting; entries = record s.entries { read_pos = i } })
  -- `consumer_alloc`
  loads :
      (xs ys : List Consumer)
      → s.consumers ≡ xs ++ (away ∷ ys)
      → Step s (record s { consumers = xs ++ (loaded s.entries.read_pos ∷ ys) })
  looks :
      (xs ys : List Consumer) (i : ℕ)
      → s.consumers ≡ xs ++ (loaded i ∷ ys)
      → taken (s.entries.nconsumers i) ≡ false
      → Step s (record s { consumers = xs ++ (looked i (s.entries.nconsumers i) ∷ ys) })
  finds_taken :
      (xs ys : List Consumer) (i : ℕ)
      → s.consumers ≡ xs ++ (loaded i ∷ ys)
      → taken (s.entries.nconsumers i) ≡ true
      → Step s (record s { consumers = xs ++ (away ∷ ys) })
  locks :
      (xs ys : List Consumer) (i : ℕ) (old : ℤ)
      → s.consumers ≡ xs ++ (looked i old ∷ ys)
      → s.entries.nconsumers i ≡ old
      → Step s (record s {
        consumers = xs ++ (reading i ∷ ys);
        entries = record s.entries { nconsumers = at s.entries.nconsumers i (old +ℤ pos 1) };
      })
  fails :
      (xs ys : List Consumer) (i : ℕ) (old : ℤ)
      → s.consumers ≡ xs ++ (looked i old ∷ ys)
      → s.entries.nconsumers i ≢ old
      → Step s (record s { consumers = xs ++ (away ∷ ys) })
  -- `consumer_alloc_end`
  ends :
      (xs ys : List Consumer) (i : ℕ)
      → s.consumers ≡ xs ++ (reading i ∷ ys)
      → Step s (record s {
        consumers = xs ++ (away ∷ ys);
        entries = record s.entries {
          nconsumers = at s.entries.nconsumers i (s.entries.nconsumers i -ℤ pos 1);
        };
      })

pub data Reach (s : State) : State → Type 0 where
  start : Reach s s
  later : {t u : State} → Reach s t → Step t u → Reach s u
