-- ===== src/ShmBlock/Fields.antt =====
-- The fields of a block after `OpenOnly` and `OpenOrCreate`.
use code_c.Base.{
  ℕ, ◌+◌, ◌≡◌, ◌≢◌, Bool, true, false, Option, none, some, [], ◌∷◌, arith, ℕ_discrete,
}
use code_c.ShmBlock.{
  Block, Os, Call, History, Result, opens, existing, create_exclusive, stats, maps, closes,
  truncates, constructs, adds_ref, map_failed, sizeof_state, attached, detached, use_mapped,
  map_only, stat_only, opened_only, open_only, construct, map_created, truncate_created, created,
  open_or_create,
}

abbrev pub newest : History → Option Call
newest [] = none
newest (c ∷ h) = some c

-- The state is the mapping, which is there, the blocks follow it, and the last call made counted the
-- block as a user of the state.
abbrev pub Attached : Block → Result → Type 0
Attached b r =
    (r.block.managed_shm ≢ 0)
    × (r.block.managed_shm ≢ map_failed)
    × (r.block.state ≡ r.block.managed_shm)
    × (r.block.buffer ≡ r.block.managed_shm + sizeof_state)
    × (r.block.block_num ≡ b.block_num)
    × (r.block.block_size ≡ b.block_size)
    × (newest r.history ≡ some (adds_ref r.block.state))

abbrev pub OkAttached : Block → Result → Type 0
OkAttached b r = r.ok ≡ true → Attached b r

use_mapped-OkAttached :
    (os : Os) (b : Block) (p len : ℕ) (h : History)
    → p ≢ map_failed
    → OkAttached b (use_mapped os (record b { managed_shm = p; state = p }) len h)
unfolding use_mapped detached attached
use_mapped-OkAttached os b p len h ne = ground arith

map_only-OkAttached :
    (os : Os) (b : Block) (fd : Option ℕ) (len : ℕ) (h : History) (p : ℕ)
    → OkAttached b (map_only os b fd len h p)
unfolding map_only
map_only-OkAttached os b fd len h p = elim (ℕ_discrete p map_failed) [
  | yes e ↦ ground arith
  | no ne ↦ ground (arith, use_mapped-OkAttached os b p len (closes fd ∷ maps len fd p ∷ h) ne)
]

stat_only-OkAttached :
    (os : Os) (b : Block) (fd : Option ℕ) (h : History) (size : Option ℕ)
    → OkAttached b (stat_only os b fd h size)
unfolding stat_only
stat_only-OkAttached os b fd h none = ground arith
stat_only-OkAttached os b fd h (some len) = map_only-OkAttached os b fd len h (os.mmap h len fd)

opened_only-OkAttached :
    (os : Os) (b : Block) (h : History) (answer : Option ℕ)
    → OkAttached b (opened_only os b h answer)
unfolding opened_only
opened_only-OkAttached os b h none = ground arith
opened_only-OkAttached os b h (some fd) =
    stat_only-OkAttached os b (some fd) (stats (some fd) ∷ h) (os.fstat h (some fd))

module _ (os : Os) (b : Block) (h : History) (closed : b.managed_shm ≡ 0) where
  -- For every operating system, a block that is not open: when `OpenOnly` returns true, `state_` is
  -- `managed_shm_`, which is neither null nor `MAP_FAILED`, `buffer_` follows the state, the numbers
  -- of blocks and bytes are those given, and the last call counted this user of the state.
  pub open_only-OkAttached : OkAttached b (open_only os b h)
  unfolding open_only
  open_only-OkAttached = ground (
    arith,
    opened_only-OkAttached os b (opens existing (os.shm_open h existing) ∷ h)
        (os.shm_open h existing),
  )

construct-OkAttached :
    (os : Os) (b : Block) (p : ℕ) (h : History)
    → p ≢ map_failed
    → OkAttached b (construct os (record b { managed_shm = p; state = p }) h)
unfolding construct attached
construct-OkAttached os b p h ne = ground arith

map_created-OkAttached :
    (os : Os) (b : Block) (fd : Option ℕ) (h : History) (p : ℕ)
    → OkAttached b (map_created os b fd h p)
unfolding map_created
map_created-OkAttached os b fd h p = elim (ℕ_discrete p map_failed) [
  | yes e ↦ ground arith
  | no ne ↦ ground (
    arith,
    construct-OkAttached os b p
        (constructs p b.block_num b.block_size ∷ closes fd ∷ maps b.cap fd p ∷ h) ne,
  )
]

truncate_created-OkAttached :
    (os : Os) (b : Block) (fd : Option ℕ) (h : History) (fits : Bool)
    → OkAttached b (truncate_created os b fd h fits)
unfolding truncate_created
truncate_created-OkAttached os b fd h false = ground arith
truncate_created-OkAttached os b fd h true = map_created-OkAttached os b fd h (os.mmap h b.cap fd)

module _ (os : Os) (b : Block) (h : History) (closed : b.managed_shm ≡ 0) where
  created-OkAttached : (answer : Option ℕ) → OkAttached b (created os b h answer)
  unfolding created
  created-OkAttached none = ground (arith, open_only-OkAttached os b h closed)
  created-OkAttached (some fd) =
      truncate_created-OkAttached os b (some fd) (truncates (some fd) b.cap ∷ h)
        (os.ftruncate h (some fd) b.cap)

-- For every operating system, a block that is not open: when `OpenOrCreate` returns true, whether it
-- made the object or opened the one that is there, `state_` is `managed_shm_`, which is neither null
-- nor `MAP_FAILED`, `buffer_` follows the state, the numbers of blocks and bytes are those given,
-- and the last call counted this user of the state.
pub open_or_create-OkAttached :
    (os : Os) (b : Block) (h : History) → b.managed_shm ≡ 0 → OkAttached b (open_or_create os b h)
unfolding open_or_create
open_or_create-OkAttached os b h closed = ground (
  arith,
  created-OkAttached os b (opens create_exclusive (os.shm_open h create_exclusive) ∷ h) closed
      (os.shm_open h create_exclusive),
)
