-- ===== src/ShmBlock.antt =====
-- Opening and closing of the shared-memory blocks: class `ShmBlock` of
-- c++/20221213-pubsub-shm-udp/shm.hpp. The operating system is a parameter: what a call answers may
-- depend on all that was called before, the newest first. A descriptor that is -1 is `none`. Sizes
-- are taken to fit an `int`. The later class of c++/20230108-pubsub-shm-udp-3 is in ShmBlock/Uncounted.antt.
pub mod Fields
pub mod Descriptors
pub mod Users
pub mod Failures
pub mod Uncounted
mod Tests
use code_c.Base.{
  ℕ, ◌+◌, ◌*◌, ◌^◌, ◌-◌, Bool, true, false, not, ◌&&◌, Option, none, some, List, [], ◌∷◌, ◌==◌,
  if◌then◌else◌,
}
use code_c.Base.Int.{ℤ, pos, negsuc}

-- The flags of `shm_open` besides `O_RDWR`.
pub data Flags : Type 0 where
  create_exclusive create_or_open existing : Flags

-- The calls, `constructs` the placement `new`, `adds_ref` and `subs_ref` those of the two methods of
-- `State`, with the address of the state.
pub data Call : Type 0 where
  opens : Flags → Option ℕ → Call
  truncates : Option ℕ → ℕ → Call
  stats : Option ℕ → Call
  maps : ℕ → Option ℕ → ℕ → Call
  unmaps : ℕ → ℕ → Call
  closes : Option ℕ → Call
  unlinks : Call
  constructs : ℕ → ℕ → ℕ → Call
  adds_ref : ℕ → Call
  subs_ref : ℕ → Call

abbrev pub History : Type 0
History = List Call

pub record Os : Type 0 where
  pub shm_open : History → Flags → Option ℕ
  pub errno : History → ℕ
  pub ftruncate : History → Option ℕ → ℕ → Bool  -- it did not fail
  pub fstat : History → Option ℕ → Option ℕ  -- `st_size`
  pub mmap : History → ℕ → Option ℕ → ℕ
  pub fields_at : History → ℕ → ℕ × ℕ  -- `block_size_` and `block_num_` of the state at an address
  pub refcount : History → ℕ → ℤ

abbrev pub eexist : ℕ
eexist = 17

-- `(void *)-1`
abbrev pub map_failed : ℕ
map_failed = 2 ^ 64 - 1

-- `sizeof(State)`: four parts of 64 bytes, and 64 locks of 4 bytes in place of the last.
abbrev pub sizeof_state : ℕ
sizeof_state = 448

-- The fields of `ShmBlock`; a null pointer is 0.
pub record Block : Type 0 where
  pub block_num : ℕ
  pub block_size : ℕ
  pub cap : ℕ
  pub managed_shm : ℕ
  pub state : ℕ
  pub buffer : ℕ

pub record Result : Type 0 where
  pub ok : Bool
  pub block : Block
  pub history : History

-- The constructor.
unfoldable pub new_block : ℕ → ℕ → Block
new_block block_num block_size = record {
  block_num = block_num;
  block_size = block_size;
  cap = sizeof_state + block_num * block_size;
  managed_shm = 0;
  state = 0;
  buffer = 0;
}

abbrev pub fails : Block → History → Result
fails b h = record { ok = false; block = b; history = h }

abbrev pub succeeds : Block → History → Result
succeeds b h = record { ok = true; block = b; history = h }

-- `State::CheckValid`
pub check_valid : ℕ × ℕ → ℕ → ℕ → Bool
check_valid (size, num) block_size block_num = (size == block_size) && (num == block_num)

-- The ends of both functions, with the state at hand: `IncreaseRefCount` and `buffer_`.
pub attached : Block → History → Result
attached b h = succeeds (record b { buffer = b.managed_shm + sizeof_state }) (adds_ref b.state ∷ h)

-- `munmap` and `managed_shm_ = nullptr`
pub detached : ℕ → Block → History → Result
detached len b h = fails (record b { managed_shm = 0 }) (unmaps b.managed_shm len ∷ h)

-- `OpenOnly`, from the answer of `mmap` on, of `fstat` on, and of `shm_open` on.
pub use_mapped : Os → Block → ℕ → History → Result
use_mapped os b len h =
    if b.state == 0
    then detached len b h
    else if not (check_valid (os.fields_at h b.state) b.block_size b.block_num)
    then fails b h
    else attached b h

pub map_only : Os → Block → Option ℕ → ℕ → History → ℕ → Result
map_only os b fd len h p =
    if p == map_failed
    then fails (record b { managed_shm = p }) (closes fd ∷ maps len fd p ∷ h)
    else use_mapped os (record b { managed_shm = p; state = p }) len (closes fd ∷ maps len fd p ∷ h)

pub stat_only : Os → Block → Option ℕ → History → Option ℕ → Result
stat_only os b fd h none = fails b (closes fd ∷ h)
stat_only os b fd h (some len) = map_only os b fd len h (os.mmap h len fd)

pub opened_only : Os → Block → History → Option ℕ → Result
opened_only os b h none = fails b h
opened_only os b h (some fd) = stat_only os b (some fd) (stats (some fd) ∷ h) (os.fstat h (some fd))

pub open_only : Os → Block → History → Result
open_only os b h =
    if not (b.managed_shm == 0)
    then succeeds b h
    else opened_only os b (opens existing (os.shm_open h existing) ∷ h) (os.shm_open h existing)

-- `OpenOrCreate`, likewise.
pub construct : Os → Block → History → Result
construct os b h =
    if b.state == 0
    then fails (record b { managed_shm = 0 }) (unlinks ∷ unmaps b.managed_shm b.cap ∷ h)
    else attached b h

pub map_created : Os → Block → Option ℕ → History → ℕ → Result
map_created os b fd h p =
    if p == map_failed
    then fails (record b { managed_shm = p }) (unlinks ∷ closes fd ∷ maps b.cap fd p ∷ h)
    else construct os (record b { managed_shm = p; state = p })
        (constructs p b.block_num b.block_size ∷ closes fd ∷ maps b.cap fd p ∷ h)

pub truncate_created : Os → Block → Option ℕ → History → Bool → Result
truncate_created os b fd h false = fails b (closes fd ∷ h)
truncate_created os b fd h true = map_created os b fd h (os.mmap h b.cap fd)

pub created : Os → Block → History → Option ℕ → Result
created os b h none = if os.errno h == eexist then open_only os b h else fails b h
created os b h (some fd) =
    truncate_created os b (some fd) (truncates (some fd) b.cap ∷ h) (os.ftruncate h (some fd) b.cap)

pub open_or_create : Os → Block → History → Result
open_or_create os b h =
    if not (b.managed_shm == 0)
    then succeeds b h
    else created os b (opens create_exclusive (os.shm_open h create_exclusive) ∷ h)
        (os.shm_open h create_exclusive)

-- `~ShmBlock`; `none` is an access through a null `state_`.
pub last_user : ℤ → Bool
last_user (pos n) = n == 1
last_user (negsuc n) = false

pub dropped : Os → ℕ → History → History
dropped os p h = if last_user (os.refcount h p) then unlinks ∷ subs_ref p ∷ h else subs_ref p ∷ h

pub destroy : Os → Block → History → Option History
destroy os b h = if b.state == 0 then none else some (dropped os b.state h)

-- What an `Acquire` function gives: a null pointer, the pointer to a block, or an access through a
-- null `state_` or a failed `assert`. The block `i` is what `LockForWrite` or `LockForRead` returns,
-- the latter -1 where nothing was written yet.
pub data Acquired : Type 0 where
  gives_null faults : Acquired
  gives : ℕ → Acquired

pub acquired : ℕ → Result → Acquired
acquired i r =
    if not r.ok
    then gives_null
    else if r.block.state == 0
    then faults
    else gives (r.block.buffer + i * r.block.block_size)

pub acquire_block_to_write : Os → ℕ → Block → History → Acquired × Block × History
acquire_block_to_write os i b h =
    let r = open_or_create os b h in (acquired i r, r.block, r.history)

-- With `assert(i >= 0)`.
pub acquired_to_read : ℤ → Result → Acquired
acquired_to_read (pos i) r = acquired i r
acquired_to_read (negsuc n) r = if not r.ok then gives_null else faults

pub acquire_block_to_read : Os → ℤ → Block → History → Acquired × Block × History
acquire_block_to_read os i b h =
    let r = open_only os b h in (acquired_to_read i r, r.block, r.history)
