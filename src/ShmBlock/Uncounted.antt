-- ===== src/ShmBlock/Uncounted.antt =====
-- Class `ShmBlock` of c++/20230108-pubsub-shm-udp-3/shm.hpp, which counts no users: the object is
-- made and set up anew by `Create`, whether it is there or not.
pub mod Reader
pub mod Publisher
mod Tests
use code_c.Base.{
  ℕ, ◌+◌, ◌*◌, Bool, true, false, not, Option, none, some, List, [], ◌∷◌, ◌==◌, if◌then◌else◌,
}
use code_c.Base.Int.{ℤ}
use code_c.ShmBlock.{
  Block, Os, History, Result, create_or_open, existing, opens, truncates, stats, maps, unmaps,
  closes, unlinks, constructs, map_failed, eexist, sizeof_state, fails, succeeds, detached,
  Acquired, acquired, acquired_to_read,
}

-- The ends of both functions: `buffer_`.
unfoldable pub buffered : Block → History → Result
buffered b h = succeeds (record b { buffer = b.managed_shm + sizeof_state }) h

-- `Create`, from the last answer on, as in `open_or_create`.
unfoldable pub construct_shared : Os → Block → History → Result
construct_shared os b h =
    if b.state == 0
    then fails (record b { managed_shm = 0 }) (unlinks ∷ unmaps b.managed_shm b.cap ∷ h)
    else buffered b h

unfoldable pub map_shared : Os → Block → Option ℕ → History → ℕ → Result
map_shared os b fd h p =
    if p == map_failed
    then fails (record b { managed_shm = p }) (unlinks ∷ closes fd ∷ maps b.cap fd p ∷ h)
    else construct_shared os (record b { managed_shm = p; state = p })
        (constructs p b.block_num b.block_size ∷ closes fd ∷ maps b.cap fd p ∷ h)

unfoldable pub truncate_shared : Os → Block → Option ℕ → History → Bool → Result
truncate_shared os b fd h false = fails b (closes fd ∷ h)
truncate_shared os b fd h true = map_shared os b fd h (os.mmap h b.cap fd)

unfoldable pub truncated : Os → Block → Option ℕ → History → Result
truncated os b fd h = truncate_shared os b fd (truncates fd b.cap ∷ h) (os.ftruncate h fd b.cap)

-- With `EEXIST` it goes on with the descriptor -1.
unfoldable pub opened_shared : Os → Block → History → Option ℕ → Result
opened_shared os b h none = if os.errno h == eexist then truncated os b none h else fails b h
opened_shared os b h (some fd) = truncated os b (some fd) h

unfoldable pub create : Os → Block → History → Result
create os b h =
    if not (b.managed_shm == 0)
    then succeeds b h
    else opened_shared os b (opens create_or_open (os.shm_open h create_or_open) ∷ h)
        (os.shm_open h create_or_open)

-- `Open`
pub use_existing : Os → Block → ℕ → History → Result
use_existing os b len h = if b.state == 0 then detached len b h else buffered b h

pub map_existing : Os → Block → Option ℕ → ℕ → History → ℕ → Result
map_existing os b fd len h p =
    if p == map_failed
    then fails (record b { managed_shm = 0 }) (closes fd ∷ maps len fd p ∷ h)
    else use_existing os (record b { managed_shm = p; state = p }) len
        (closes fd ∷ maps len fd p ∷ h)

pub stat_existing : Os → Block → Option ℕ → History → Option ℕ → Result
stat_existing os b fd h none = fails b (closes fd ∷ h)
stat_existing os b fd h (some len) = map_existing os b fd len h (os.mmap h len fd)

unfoldable pub opened_existing : Os → Block → History → Option ℕ → Result
opened_existing os b h none = fails b h
opened_existing os b h (some fd) =
    stat_existing os b (some fd) (stats (some fd) ∷ h) (os.fstat h (some fd))

unfoldable pub open_existing : Os → Block → History → Result
open_existing os b h =
    if not (b.managed_shm == 0)
    then succeeds b h
    else opened_existing os b (opens existing (os.shm_open h existing) ∷ h) (os.shm_open h existing)

-- `Stop` and `~ShmBlock`
pub stop_block : Block → History → Block × History
stop_block b h =
    if not (b.managed_shm == 0)
    then (record b { managed_shm = 0 }, unmaps b.managed_shm b.cap ∷ h)
    else (b, h)

pub unlink_block : Block → History → History
unlink_block b h = if not (b.managed_shm == 0) then unlinks ∷ h else h

-- The two `Acquire` functions, with the block `i` that the lock function returns.
pub write_block : Os → ℕ → Block → History → Acquired × Block × History
write_block os i b h = let r = create os b h in (acquired i r, r.block, r.history)

pub read_block : Os → ℤ → Block → History → Acquired × Block × History
read_block os i b h = let r = open_existing os b h in (acquired_to_read i r, r.block, r.history)
