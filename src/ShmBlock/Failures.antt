-- ===== src/ShmBlock/Failures.antt =====
-- The pointers that the `Acquire` functions of c++/20221213-pubsub-shm-udp/shm.hpp return, after an
-- opening that succeeded and after one that failed.
use native.Mathlib.Nat.{add-mul, suc-mul}
use code_c.Base.{
  ℕ, suc, ◌-◌, ap, ◌+◌, ◌*◌, ◌≡◌, ◌≢◌, ◌≤◌, ◌<◌, refl, true, false, some, ◌∷◌, if◌then◌else◌, arith,
}
use code_c.Base.Int.{pos}
use code_c.ShmBlock.{
  Os, History, opens, existing, create_exclusive, stats, maps, closes, truncates, subs_ref, unlinks,
  map_failed, sizeof_state, new_block, check_valid, use_mapped, map_only, stat_only, opened_only,
  open_only, map_created, truncate_created, created, open_or_create, gives, faults, acquired,
  acquired_to_read, acquire_block_to_write, acquire_block_to_read, destroy, dropped, last_user,
}
use code_c.ShmBlock.Fields.{open_or_create-OkAttached}

blocks_fit : (i num size : ℕ) → i < num → i * size + size ≤ num * size
blocks_fit i num size h =
    let e : num ≡ suc i + (num - suc i) = omega arith in
    omega (arith, ap (λ n. n * size) e, add-mul (suc i) (num - suc i) size, suc-mul i size)

-- A block that is not open, for any operating system and any block `i` below `block_num` that
-- `LockForWrite` chooses: a pointer that `AcquireBlockToWrite` returns is `i * block_size` bytes behind
-- the state in a mapping that did not fail, and the block that begins there ends within the
-- `sizeof(State) + block_num * block_size` bytes of the mapping.
pub acquired-within :
    (os : Os) (num size i p : ℕ) (h : History)
    → i < num
    → (acquire_block_to_write os i (new_block num size) h).0 ≡ gives p
    → let b = (acquire_block_to_write os i (new_block num size) h).1 in
      (b.managed_shm ≢ map_failed)
      × (p ≡ b.managed_shm + sizeof_state + i * size)
      × (p + size ≤ b.managed_shm + (new_block num size).cap)
unfolding new_block acquire_block_to_write acquired
acquired-within os num size i p h lt e =
    ground
      (arith, open_or_create-OkAttached os (new_block num size) h refl, blocks_fit i num size lt)

-- A new block, and an operating system that makes the object but cannot map it: `OpenOrCreate`
-- fails, and the next `AcquireBlockToWrite` on the block goes through a null `state_`.
unmapped_faults :
    (os : Os) (num size fd i : ℕ) (h h' : History)
    → os.shm_open h create_exclusive ≡ some fd
    → os.ftruncate (opens create_exclusive (some fd) ∷ h) (some fd) (new_block num size).cap ≡ true
    → os.mmap
        (truncates (some fd) (new_block num size).cap ∷ opens create_exclusive (some fd) ∷ h)
        (new_block num size).cap
        (some fd)
      ≡ map_failed
    → let r = open_or_create os (new_block num size) h in
      (r.ok ≡ false) × ((acquire_block_to_write os i r.block h').0 ≡ faults)
unfolding new_block open_or_create created truncate_created map_created acquire_block_to_write
    acquired
unmapped_faults os num size fd i h h' e1 e2 e3 = ground arith

-- A new block whose number or size is not that of the object which it opens, and an operating system
-- that opens and maps it: `OpenOnly` fails, but the next `AcquireBlockToRead` on the block, which
-- locks block `i` of the object, returns the pointer `i * block_size_` with a null buffer, and the
-- destructor takes 1 from the count of users, unlinking the object where the count is 1.
invalid_goes_on :
    (os : Os) (num size fd len p i : ℕ) (h h' : History)
    → os.shm_open h existing ≡ some fd
    → os.fstat (opens existing (some fd) ∷ h) (some fd) ≡ some len
    → os.mmap (stats (some fd) ∷ opens existing (some fd) ∷ h) len (some fd) ≡ p
    → p ≢ 0
    → p ≢ map_failed
    → check_valid
        (os.fields_at
          (closes (some fd) ∷ maps len (some fd) p ∷ stats (some fd) ∷ opens existing (some fd) ∷ h)
          p)
        size
        num
      ≡ false
    → let r = open_only os (new_block num size) h in
      (r.ok ≡ false)
      × ((acquire_block_to_read os (pos i) r.block h').0 ≡ gives (i * size))
      × (destroy os r.block h'
          ≡ some
              (if last_user (os.refcount h' p) then unlinks ∷ subs_ref p ∷ h' else subs_ref p ∷ h'))
unfolding new_block open_only opened_only stat_only map_only use_mapped acquire_block_to_read
    acquired_to_read acquired destroy dropped
invalid_goes_on os num size fd len p i h h' e1 e2 e3 ne1 ne2 bad = ground arith
