-- ===== src/ShmBlock/Tests.antt =====
-- Runs of c++/20221213-pubsub-shm-udp/shm.hpp on an operating system that keeps one object.
use code_c.Base.{
  ◌*◌, ℕ, ◌+◌, ◌≡◌, ◌≢◌, ◌≤◌, refl, Bool, true, false, Option, none, some, [], ◌∷◌, arith,
}
use code_c.ShmBlock.{
  sizeof_state, Block, Os, History, Flags, create_exclusive, create_or_open, existing, opens,
  truncates, maps, closes, unlinks, constructs, adds_ref, subs_ref, map_failed, new_block, attached,
  construct, map_created, truncate_created, created, open_or_create, destroy, acquired,
  acquire_block_to_write,
}
use code_c.ShmBlock.Fields.{OkAttached, open_or_create-OkAttached}
use code_c.ShmBlock.Users.{counted, exists, Documented, Reach, start, later, joins}
use code_c.ShmBlock.Users.Count.{last_unlinks}
use code_c.ShmBlock.Failures.{acquired-within}

abbrev descriptor : Bool → Flags → Option ℕ
descriptor true create_exclusive = none
descriptor false create_exclusive = some 3
descriptor there create_or_open = some 3
descriptor true existing = some 4
descriptor false existing = none

-- Mappings stand at `mapping`; the object's state has 4 blocks of 10 bytes.
abbrev machine : ℕ → Os
machine mapping = record {
  shm_open = λ h flags. descriptor (exists h) flags;
  errno = λ h. 17;
  ftruncate = λ h fd len. true;
  fstat = λ h fd. some 488;
  mmap = λ h len fd. mapping;
  fields_at = λ h p. (10, 4);
  refcount = λ h p. counted h;
}

machine-Documented : Documented (machine 4096)
machine-Documented = record {
  exclusive = λ h e. rw e refl;
  absent = λ h e. rw e refl;
  counter = λ h p. refl;
}

abbrev block : Block
block = record {
  block_num = 4;
  block_size = 10;
  cap = 488;
  managed_shm = 4096;
  state = 4096;
  buffer = 4544;
}

abbrev made : History
made =
    adds_ref 4096
    ∷ constructs 4096 4 10
    ∷ closes (some 3)
    ∷ maps 488 (some 3) 4096
    ∷ truncates (some 3) 488
    ∷ opens create_exclusive (some 3)
    ∷ []

made_ok :
    open_or_create (machine 4096) (new_block 4 10) []
    ≡ record { ok = true; block = block; history = made }
unfolding new_block attached construct map_created truncate_created created open_or_create
made_ok = refl

open_or_create-OkAttached_example :
    OkAttached (new_block 4 10) (open_or_create (machine 4096) (new_block 4 10) [])
unfolding new_block
open_or_create-OkAttached_example =
    open_or_create-OkAttached (machine 4096) (new_block 4 10) [] refl

reached : Reach (machine 4096) (record { blocks = block ∷ []; history = made })
unfolding new_block attached construct map_created truncate_created created open_or_create
reached = later start (joins 4 10 refl)

last_unlinks_example : destroy (machine 4096) block made ≡ some (unlinks ∷ subs_ref 4096 ∷ made)
last_unlinks_example = last_unlinks (machine 4096) machine-Documented [] [] block reached refl

acquired-within_example :
    (4096 ≢ map_failed) × (4564 ≡ 4096 + sizeof_state + 2 * 10) × (4564 + 10 ≤ 4096 + 488)
unfolding new_block attached construct map_created truncate_created created open_or_create acquired
    acquire_block_to_write
acquired-within_example = acquired-within (machine 4096) 4 10 2 4564 [] (omega arith) refl
