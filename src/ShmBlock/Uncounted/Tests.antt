-- ===== src/ShmBlock/Uncounted/Tests.antt =====
-- Runs of c++/20230108-pubsub-shm-udp-3/shm.hpp.
use code_c.Base.{ℕ, refl, Bool, true, false, Option, none, some, [], ◌∷◌}
use code_c.ShmBlock.{Block, Os, History, Flags, create_exclusive, create_or_open, existing, opens}
use code_c.ShmBlock.Users.{counted, exists, Documented}

abbrev descriptor : Bool → Flags → Option ℕ
descriptor true create_exclusive = none
descriptor false create_exclusive = some 3
descriptor there create_or_open = some 3
descriptor true existing = some 4
descriptor false existing = none

abbrev machine : Os
machine = record {
  shm_open = λ h flags. descriptor (exists h) flags;
  errno = λ h. 17;
  ftruncate = λ h fd len. true;
  fstat = λ h fd. some 528;
  mmap = λ h len fd. 4096;
  fields_at = λ h p. (10, 8);
  refcount = λ h p. counted h;
}

machine-Documented : Documented machine
machine-Documented = record {
  exclusive = λ h e. rw e refl;
  absent = λ h e. rw e refl;
  counter = λ h p. refl;
}

-- A publisher's block, and a history in which the object is there.
abbrev block : Block
block = record {
  block_num = 8;
  block_size = 10;
  cap = 528;
  managed_shm = 4096;
  state = 4096;
  buffer = 4544;
}

abbrev there : History
there = opens create_or_open (some 3) ∷ []
