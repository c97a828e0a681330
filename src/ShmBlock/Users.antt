-- ===== src/ShmBlock/Users.antt =====
-- The users of one shared object: blocks that open it and leave it, one whole operation at a time.
-- A block whose opening failed is left as it is, its destructor not called.
pub mod Effects
pub mod Count
use code_c.Base.{
  ℕ, suc, ◌+◌, ◌≡◌, ◌≢◌, refl, Bool, true, false, Option, none, some, List, [], ◌∷◌, ◌++◌, ◌==◌,
  if◌then◌else◌, arith, length, length-append,
}
use code_c.Base.Int.{ℤ, pos, negsuc, ◌+ℤ◌, ◌-ℤ◌}
use code_c.ShmBlock.{
  Block, Os, Call, History, Result, Flags, opens, existing, create_exclusive, create_or_open, stats,
  maps, unmaps, closes, unlinks, truncates, constructs, adds_ref, subs_ref, map_failed, eexist,
  new_block, attached, detached, use_mapped, map_only, stat_only, opened_only, open_only, construct,
  map_created, truncate_created, created, open_or_create, destroy, dropped, last_user,
}

-- What the memory holds in `refcount_`: a new state's is 0.
abbrev pub counted : History → ℤ
counted [] = pos 0
counted (adds_ref p ∷ h) = counted h +ℤ pos 1
counted (subs_ref p ∷ h) = counted h -ℤ pos 1
counted (constructs p num size ∷ h) = pos 0
counted (opens flags fd ∷ h) = counted h
counted (truncates fd len ∷ h) = counted h
counted (stats fd ∷ h) = counted h
counted (maps len fd p ∷ h) = counted h
counted (unmaps p len ∷ h) = counted h
counted (closes fd ∷ h) = counted h
counted (unlinks ∷ h) = counted h

-- Whether there is an object of the name.
abbrev pub exists : History → Bool
exists [] = false
exists (opens create_exclusive (some fd) ∷ h) = true
exists (opens create_exclusive none ∷ h) = exists h
exists (opens create_or_open (some fd) ∷ h) = true
exists (opens create_or_open none ∷ h) = exists h
exists (opens existing fd ∷ h) = exists h
exists (unlinks ∷ h) = false
exists (adds_ref p ∷ h) = exists h
exists (subs_ref p ∷ h) = exists h
exists (constructs p num size ∷ h) = exists h
exists (truncates fd len ∷ h) = exists h
exists (stats fd ∷ h) = exists h
exists (maps len fd p ∷ h) = exists h
exists (unmaps p len ∷ h) = exists h
exists (closes fd ∷ h) = exists h

-- What `shm_open` and an atomic counter in shared memory are documented to do.
pub record Documented (os : Os) : Type 0 where
  pub exclusive : (h : History) → exists h ≡ true → os.shm_open h create_exclusive ≡ none
  pub absent : (h : History) → exists h ≡ false → os.shm_open h existing ≡ none
  pub counter : (h : History) (p : ℕ) → os.refcount h p ≡ counted h

pub record Users : Type 0 where
  pub blocks : List Block
  pub history : History

pub data Step (os : Os) (s : Users) : Users → Type 0 where
  joins :
      (num size : ℕ)
      → (open_or_create os (new_block num size) s.history).ok ≡ true
      → Step os s (record {
        blocks = (open_or_create os (new_block num size) s.history).block ∷ s.blocks;
        history = (open_or_create os (new_block num size) s.history).history;
      })
  joins_only :
      (num size : ℕ)
      → (open_only os (new_block num size) s.history).ok ≡ true
      → Step os s (record {
        blocks = (open_only os (new_block num size) s.history).block ∷ s.blocks;
        history = (open_only os (new_block num size) s.history).history;
      })
  refused :
      (num size : ℕ)
      → (open_or_create os (new_block num size) s.history).ok ≡ false
      → Step os s
          (record s { history = (open_or_create os (new_block num size) s.history).history })
  refused_only :
      (num size : ℕ)
      → (open_only os (new_block num size) s.history).ok ≡ false
      → Step os s (record s { history = (open_only os (new_block num size) s.history).history })
  leaves :
      (xs ys : List Block) (b : Block) (h : History)
      → s.blocks ≡ xs ++ (b ∷ ys)
      → destroy os b s.history ≡ some h
      → Step os s (record { blocks = xs ++ ys; history = h })

pub data Reach (os : Os) : Users → Type 0 where
  start : Reach os (record { blocks = []; history = [] })
  later : {s t : Users} → Reach os s → Step os s t → Reach os t
