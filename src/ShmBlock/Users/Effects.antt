-- ===== src/ShmBlock/Users/Effects.antt =====
-- What the calls of c++/20221213-pubsub-shm-udp/shm.hpp do to the counter and to the object.
use code_c.Base.{ℕ, ◌≡◌, ◌≢◌, refl, Bool, true, false, Option, none, some, ◌∷◌, arith}
use code_c.Base.Int.{ℤ, pos, ◌+ℤ◌}
use code_c.ShmBlock.{
  Block, Os, History, Result, opens, existing, create_exclusive, stats, maps, closes, truncates,
  constructs, attached, detached, use_mapped, map_only, stat_only, opened_only, open_only,
  construct, map_created, truncate_created, created, open_or_create,
}
use code_c.ShmBlock.Fields.{open_only-OkAttached, open_or_create-OkAttached}
use code_c.ShmBlock.Users.{counted, exists, Documented}

abbrev pub added : Bool → ℤ → ℤ
added true c = c +ℤ pos 1
added false c = c

-- The effect of a call on the counter and on the object.
abbrev pub Keeps : ℤ → Bool → Result → Type 0
Keeps c e r = (counted r.history ≡ added r.ok c) × (exists r.history ≡ e)

abbrev pub Enters : ℤ → Result → Type 0
Enters c r = (counted r.history ≡ added r.ok c) × (r.ok ≡ true → exists r.history ≡ true)

module _ (os : Os) where
  use_mapped-Keeps :
      (b : Block) (len : ℕ) (h : History) → Keeps (counted h) (exists h) (use_mapped os b len h)
  unfolding use_mapped detached attached
  use_mapped-Keeps b len h = ground arith

  map_only-Keeps :
      (b : Block) (fd : Option ℕ) (len : ℕ) (h : History) (p : ℕ)
      → Keeps (counted h) (exists h) (map_only os b fd len h p)
  unfolding map_only
  map_only-Keeps b fd len h p = ground (
    arith,
    use_mapped-Keeps (record b { managed_shm = p; state = p }) len (closes fd ∷ maps len fd p ∷ h),
  )

  stat_only-Keeps :
      (b : Block) (fd : Option ℕ) (h : History) (size : Option ℕ)
      → Keeps (counted h) (exists h) (stat_only os b fd h size)
  unfolding stat_only
  stat_only-Keeps b fd h none = ground arith
  stat_only-Keeps b fd h (some len) = map_only-Keeps b fd len h (os.mmap h len fd)

  opened_only-Keeps :
      (b : Block) (h : History) (answer : Option ℕ)
      → Keeps (counted h) (exists h) (opened_only os b h answer)
  unfolding opened_only
  opened_only-Keeps b h none = ground arith
  opened_only-Keeps b h (some fd) =
      stat_only-Keeps b (some fd) (stats (some fd) ∷ h) (os.fstat h (some fd))

  pub open_only-Keeps :
      (b : Block) (h : History)
      → b.managed_shm ≡ 0
      → Keeps (counted h) (exists h) (open_only os b h)
  unfolding open_only
  open_only-Keeps b h closed = ground (
    arith,
    opened_only-Keeps b (opens existing (os.shm_open h existing) ∷ h) (os.shm_open h existing),
  )

  construct-Enters :
      (b : Block) (h : History) (c : ℤ)
      → counted h ≡ c
      → exists h ≡ true
      → Enters c (construct os b h)
  unfolding construct attached
  construct-Enters b h c e x = ground arith

  map_created-Enters :
      (b : Block) (fd : Option ℕ) (h : History) (p : ℕ)
      → counted h ≡ pos 0
      → exists h ≡ true
      → Enters (pos 0) (map_created os b fd h p)
  unfolding map_created
  map_created-Enters b fd h p e x = ground (
    arith,
    construct-Enters (record b { managed_shm = p; state = p })
        (constructs p b.block_num b.block_size ∷ closes fd ∷ maps b.cap fd p ∷ h) (pos 0) refl x,
  )

  truncate_created-Enters :
      (b : Block) (fd : Option ℕ) (h : History) (fits : Bool)
      → counted h ≡ pos 0
      → exists h ≡ true
      → Enters (pos 0) (truncate_created os b fd h fits)
  unfolding truncate_created
  truncate_created-Enters b fd h false e x = ground arith
  truncate_created-Enters b fd h true e x = map_created-Enters b fd h (os.mmap h b.cap fd) e x

  -- The object is new: its counter starts at 0.
  created-Enters :
      (b : Block) (h : History) (fd : ℕ)
      → counted h ≡ pos 0
      → exists h ≡ true
      → Enters (pos 0) (created os b h (some fd))
  unfolding created
  created-Enters b h fd e x =
      truncate_created-Enters b (some fd) (truncates (some fd) b.cap ∷ h)
        (os.ftruncate h (some fd) b.cap) e x

  -- The object was there: the call either fails or ends in `OpenOnly`.
  created-Keeps :
      (b : Block) (h : History)
      → b.managed_shm ≡ 0
      → Keeps (counted h) (exists h) (created os b h none)
  unfolding created
  created-Keeps b h closed = ground (arith, open_only-Keeps b h closed)

  pub created_new :
      (b : Block) (h : History) (fd : ℕ)
      → b.managed_shm ≡ 0
      → os.shm_open h create_exclusive ≡ some fd
      → counted h ≡ pos 0
      → Enters (pos 0) (open_or_create os b h)
  unfolding open_or_create
  created_new b h fd closed e c =
      ground (arith, created-Enters b (opens create_exclusive (some fd) ∷ h) fd c refl)

  pub created_again :
      (b : Block) (h : History)
      → b.managed_shm ≡ 0
      → os.shm_open h create_exclusive ≡ none
      → Keeps (counted h) (exists h) (open_or_create os b h)
  unfolding open_or_create
  created_again b h closed e =
      ground (arith, created-Keeps b (opens create_exclusive none ∷ h) closed)

module _ (os : Os) where
  -- The state of a block that was opened is mapped.
  pub open_only-mapped :
      (b : Block) (h : History)
      → b.managed_shm ≡ 0
      → (open_only os b h).ok ≡ true
      → (open_only os b h).block.state ≢ 0
  open_only-mapped b h closed ok = grind (arith, open_only-OkAttached os b h closed ok)

  pub open_or_create-mapped :
      (b : Block) (h : History)
      → b.managed_shm ≡ 0
      → (open_or_create os b h).ok ≡ true
      → (open_or_create os b h).block.state ≢ 0
  open_or_create-mapped b h closed ok = grind (arith, open_or_create-OkAttached os b h closed ok)

  -- An object that is opened is there.
  pub open_only-exists :
      (b : Block) (h : History)
      → Documented os
      → b.managed_shm ≡ 0
      → (open_only os b h).ok ≡ true
      → exists h ≡ true
  unfolding open_only opened_only
  open_only-exists b h doc closed ok = ground (arith, doc.absent h)

  pub open_or_create-exists :
      (b : Block) (h : History)
      → Documented os
      → b.managed_shm ≡ 0
      → os.shm_open h create_exclusive ≡ none
      → (open_or_create os b h).ok ≡ true
      → exists h ≡ true
  unfolding open_or_create created
  open_or_create-exists b h doc closed e ok =
      ground (arith, open_only-exists b (opens create_exclusive none ∷ h) doc closed)
