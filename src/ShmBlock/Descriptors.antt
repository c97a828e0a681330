-- ===== src/ShmBlock/Descriptors.antt =====
-- What `OpenOnly` and `OpenOrCreate` acquire and give back: descriptors and mappings.
use code_c.Base.{
  ℕ, ◌+◌, ◌≡◌, ◌≢◌, Bool, true, false, Option, none, some, [], ◌∷◌, ◌==◌, if◌then◌else◌, arith,
}
use code_c.ShmBlock.{
  Block, Os, Call, History, Result, opens, existing, create_exclusive, stats, maps, unmaps, closes,
  truncates, constructs, map_failed, attached, detached, use_mapped, map_only, stat_only,
  opened_only, open_only, construct, map_created, truncate_created, created, open_or_create,
}

abbrev pub is : ℕ → Option ℕ → ℕ
is x none = 0
is x (some fd) = if fd == x then 1 else 0

-- How often a call has returned descriptor `x`, and how often `x` was closed.
abbrev pub opened_by : ℕ → Call → ℕ
opened_by x (opens flags fd) = is x fd
opened_by x c = 0

abbrev pub closed_by : ℕ → Call → ℕ
closed_by x (closes fd) = is x fd
closed_by x c = 0

-- Mappings made, and mappings taken away.
abbrev pub mapped_by : Call → ℕ
mapped_by (maps len fd p) = if p == map_failed then 0 else 1
mapped_by c = 0

abbrev pub unmapped_by : Call → ℕ
unmapped_by (unmaps p len) = 1
unmapped_by c = 0

abbrev pub total : (Call → ℕ) → History → ℕ
total f [] = 0
total f (c ∷ h) = f c + total f h

-- Whether `managed_shm_` is a mapping.
abbrev pub holds : Block → ℕ
holds b = if b.managed_shm == 0 then 0 else if b.managed_shm == map_failed then 0 else 1

-- Between histories `h` and `h'` descriptor `x` was returned as often as it was closed, but for `n`
-- times that it was closed more often.
abbrev pub Closed : ℕ → ℕ → History → History → Type 0
Closed x n h h' =
    total (opened_by x) h' + total (closed_by x) h + n
    ≡ total (opened_by x) h + total (closed_by x) h'

-- The mappings made and not taken away are those that the blocks hold.
abbrev pub Mapped : ℕ → ℕ → History → History → Type 0
Mapped before after h h' =
    total mapped_by h' + total unmapped_by h + before
    ≡ total mapped_by h + total unmapped_by h' + after

abbrev pub Accounts : ℕ → ℕ → ℕ → History → Result → Type 0
Accounts x n before h r = Closed x n h r.history × Mapped before (holds r.block) h r.history

module _ (os : Os) (x : ℕ) where
  use_mapped-Accounts :
      (b : Block) (p len : ℕ) (h : History)
      → p ≢ map_failed
      → Accounts x 0 1 h (use_mapped os (record b { managed_shm = p; state = p }) len h)
  unfolding use_mapped detached attached
  use_mapped-Accounts b p len h ne = ground arith

  map_only-Accounts :
      (b : Block) (fd : Option ℕ) (len : ℕ) (h : History) (p : ℕ)
      → Accounts x (is x fd) 0 h (map_only os b fd len h p)
  unfolding map_only
  map_only-Accounts b fd len h p =
      ground (arith, use_mapped-Accounts b p len (closes fd ∷ maps len fd p ∷ h))

  stat_only-Accounts :
      (b : Block) (fd : Option ℕ) (h : History) (size : Option ℕ)
      → holds b ≡ 0
      → Accounts x (is x fd) 0 h (stat_only os b fd h size)
  unfolding stat_only
  stat_only-Accounts b fd h none e = ground arith
  stat_only-Accounts b fd h (some len) e = map_only-Accounts b fd len h (os.mmap h len fd)

  opened_only-Accounts :
      (b : Block) (h : History) (answer : Option ℕ)
      → holds b ≡ 0
      → Accounts x (is x answer) 0 h (opened_only os b h answer)
  unfolding opened_only
  opened_only-Accounts b h none e = ground arith
  opened_only-Accounts b h (some fd) e =
      ground (arith, stat_only-Accounts b (some fd) (stats (some fd) ∷ h) (os.fstat h (some fd)) e)

  open_only-Accounts : (b : Block) (h : History) → Accounts x 0 (holds b) h (open_only os b h)
  unfolding open_only
  open_only-Accounts b h = ground (
    arith,
    opened_only-Accounts b (opens existing (os.shm_open h existing) ∷ h) (os.shm_open h existing),
  )

  construct-Accounts :
      (b : Block) (p : ℕ) (h : History)
      → p ≢ map_failed
      → Accounts x 0 1 h (construct os (record b { managed_shm = p; state = p }) h)
  unfolding construct attached
  construct-Accounts b p h ne = ground arith

  map_created-Accounts :
      (b : Block) (fd : Option ℕ) (h : History) (p : ℕ)
      → Accounts x (is x fd) 0 h (map_created os b fd h p)
  unfolding map_created
  map_created-Accounts b fd h p = ground (
    arith,
    construct-Accounts b p
        (constructs p b.block_num b.block_size ∷ closes fd ∷ maps b.cap fd p ∷ h),
  )

  truncate_created-Accounts :
      (b : Block) (fd : Option ℕ) (h : History) (fits : Bool)
      → holds b ≡ 0
      → Accounts x (is x fd) 0 h (truncate_created os b fd h fits)
  unfolding truncate_created
  truncate_created-Accounts b fd h false e = ground arith
  truncate_created-Accounts b fd h true e = map_created-Accounts b fd h (os.mmap h b.cap fd)

  created-Accounts :
      (b : Block) (h : History) (answer : Option ℕ)
      → holds b ≡ 0
      → Accounts x (is x answer) 0 h (created os b h answer)
  unfolding created
  created-Accounts b h none e = ground (arith, open_only-Accounts b h)
  created-Accounts b h (some fd) e = ground (
    arith,
    truncate_created-Accounts b (some fd) (truncates (some fd) b.cap ∷ h)
        (os.ftruncate h (some fd) b.cap) e,
  )

-- For every operating system, block and descriptor `x`: over a call of `OpenOrCreate`, whether it
-- succeeds or not, `x` is closed as often as a call has returned it, and the mappings made less those
-- taken away are the one that the block holds in `managed_shm_` at the end less the one it held at
-- first.
pub open_or_create-Accounts :
    (os : Os) (x : ℕ) (b : Block) (h : History) → Accounts x 0 (holds b) h (open_or_create os b h)
unfolding open_or_create
open_or_create-Accounts os x b h = ground (
  arith,
  created-Accounts os x b (opens create_exclusive (os.shm_open h create_exclusive) ∷ h)
      (os.shm_open h create_exclusive),
)
