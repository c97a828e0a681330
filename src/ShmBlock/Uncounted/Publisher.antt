-- ===== src/ShmBlock/Uncounted/Publisher.antt =====
-- `Create` and the destructor of c++/20230108-pubsub-shm-udp-3/shm.hpp.
use code_c.Base.{ℕ, ◌+◌, ◌≡◌, ◌≢◌, Bool, true, false, Option, none, some, ◌∷◌, arith}
use code_c.Base.Int.{ℤ, pos, negsuc}
use code_c.ShmBlock.{
  Block, Os, History, Result, opens, create_or_open, truncates, constructs, map_failed,
  sizeof_state, gives_null, acquired, acquired_to_read,
}
use code_c.ShmBlock.Fields.{newest}
use code_c.ShmBlock.Users.{Documented}
use code_c.ShmBlock.Uncounted.{
  buffered, construct_shared, map_shared, truncate_shared, truncated, opened_shared, create,
  opened_existing, open_existing, unlink_block, read_block,
}

-- The state is the mapping and the blocks follow it; the last call set up a new state there.
abbrev pub Constructed : Block → Result → Type 0
Constructed b r =
    r.ok ≡ true
    → (r.block.managed_shm ≢ 0)
      × (r.block.managed_shm ≢ map_failed)
      × (r.block.state ≡ r.block.managed_shm)
      × (r.block.buffer ≡ r.block.managed_shm + sizeof_state)
      × (newest r.history ≡ some (constructs r.block.state b.block_num b.block_size))

module _ (os : Os) (b : Block) where
  map_shared-Constructed :
      (fd : Option ℕ) (h : History) (p : ℕ) → Constructed b (map_shared os b fd h p)
  unfolding map_shared construct_shared buffered
  map_shared-Constructed fd h p = ground arith

  truncate_shared-Constructed :
      (fd : Option ℕ) (h : History) (fits : Bool) → Constructed b (truncate_shared os b fd h fits)
  unfolding truncate_shared
  truncate_shared-Constructed fd h false = ground arith
  truncate_shared-Constructed fd h true = map_shared-Constructed fd h (os.mmap h b.cap fd)

  opened_shared-Constructed :
      (h : History) (answer : Option ℕ) → Constructed b (opened_shared os b h answer)
  unfolding opened_shared truncated
  opened_shared-Constructed h none = ground (
    arith,
    truncate_shared-Constructed none (truncates none b.cap ∷ h) (os.ftruncate h none b.cap),
  )
  opened_shared-Constructed h (some fd) =
      truncate_shared-Constructed (some fd) (truncates (some fd) b.cap ∷ h)
        (os.ftruncate h (some fd) b.cap)

-- For every operating system and block that is not open, whether the object is there or not and
-- whoever uses it: when `Create` returns true, the last call set up a new state at `managed_shm_`,
-- which is neither null nor `MAP_FAILED`, with the block's numbers, and `buffer_` follows it.
pub create-Constructed :
    (os : Os) (b : Block) (h : History) → b.managed_shm ≡ 0 → Constructed b (create os b h)
unfolding create
create-Constructed os b h closed = ground (
  arith,
  opened_shared-Constructed os b (opens create_or_open (os.shm_open h create_or_open) ∷ h)
      (os.shm_open h create_or_open),
)

-- An operating system with documented answers, and an open block of any publisher or subscriber:
-- after its destructor, `Open` and `AcquireBlockToRead` fail on every other block that is not open,
-- whichever other blocks are open.
pub destructor_takes_object :
    (os : Os) (b c : Block) (i : ℤ) (h : History)
    → Documented os
    → b.managed_shm ≢ 0
    → c.managed_shm ≡ 0
    → ((open_existing os c (unlink_block b h)).ok ≡ false)
      × ((read_block os i c (unlink_block b h)).0 ≡ gives_null)
unfolding open_existing opened_existing unlink_block read_block acquired_to_read acquired
destructor_takes_object os b c (pos i) h doc live closed =
    ground (arith, doc.absent (unlink_block b h))
destructor_takes_object os b c (negsuc i) h doc live closed =
    ground (arith, doc.absent (unlink_block b h))
