-- ===== src/Message.antt =====
-- c++/20230108-pubsub-shm-udp-3/message.hpp: publishers and subscribers in different processes, which
-- meet by announced topics and hand messages over in shared memory. A socket address is its 16 bytes.
-- The string given to a subscriber's constructor is taken to live as long as the subscriber.
pub mod Notified
pub mod Woken
mod Tests
use code_c.Base.{
  ℕ, zero, suc, ◌+◌, ◌-◌, ◌*◌, Bool, true, false, not, Option, none, some, List, [], ◌∷◌, ◌++◌,
  ◌==◌, leb, ltb, if◌then◌else◌, length, take, map, replicate, ◌>>=◌,
}
use code_c.Base.Int.{ℤ, pos, negsuc}
use code_c.ShmLocks.{block_index}
use code_c.ShmBlock.{Block, Os, History, Result, new_block, Acquired, gives, gives_null, faults}
use code_c.ShmBlock.Uncounted.{
  create, open_existing, stop_block, unlink_block, write_block, read_block,
}
use code_c.Discover.{Text, Discover, Called, Answers, new_discover, recv, packet, discover_read_cb}

-- `kNotifyRead` and `kNotifyOpen`
abbrev pub notify_read : ℕ
notify_read = 114

abbrev pub notify_open : ℕ
notify_open = 111

-- `kBlockNum` and `kBlockSize`
abbrev pub number_of_blocks : ℕ
number_of_blocks = 8

abbrev pub size_of_block : ℕ
size_of_block = 4 * 1024 * 1024

-- "message/" + topic + "/sub" and "message/" + topic + "/pub"
abbrev pub slash : Text → Text → Text
slash topic ending = 109 ∷ 101 ∷ 115 ∷ 115 ∷ 97 ∷ 103 ∷ 101 ∷ 47 ∷ (topic ++ (47 ∷ ending))

pub sub_topic : Text → Text
sub_topic topic = slash topic (115 ∷ 117 ∷ 98 ∷ [])

pub pub_topic : Text → Text
pub_topic topic = slash topic (112 ∷ 117 ∷ 98 ∷ [])

-- `MessagePublisher`; `running` is whether `loop_` is set.
pub record Publisher : Type 0 where
  pub running : Bool
  pub discover : Discover
  pub subs : List (List ℕ)
  pub shm : Block

-- The constructor: the publisher, the announcement, whose value `addr` is what the stack holds, and
-- the calls for the shared memory. `none` is a `throw`.
pub publisher_with :
    Os → History → Text → List ℕ → Discover → Result → Option (Publisher × List ℕ × History)
publisher_with os h topic addr d r =
    if r.ok
    then some (
      record { running = true; discover = recv (sub_topic topic) 0 d; subs = []; shm = r.block },
      packet (pub_topic topic) addr,
      r.history,
    )
    else none

pub new_publisher :
    Os → History → Answers → List ℕ → Bool → Text → List ℕ → Option (Publisher × List ℕ × History)
new_publisher os h a memory udp_ok topic addr = do
  d ← new_discover a memory
  (if udp_ok
      then publisher_with os h topic addr d (create os (new_block number_of_blocks size_of_block) h)
      else none)

-- The callback of the constructor, `*(struct sockaddr_in *)value.base`; `none` is an access behind the
-- buffer.
pub address_in : List ℕ → Option (List ℕ)
address_in value = if leb 16 (length value) then some (take 16 value) else none

pub with_subs : List Called → List (List ℕ) → Option (List (List ℕ))
with_subs [] subs = some subs
with_subs (c ∷ cs) subs = do addr ← address_in c.value; with_subs cs (subs ++ (addr ∷ []))

-- A datagram of `n` bytes for the publisher's `ServiceDiscover`, after which `buffer_` is as given.
pub publisher_hears : ℤ → List ℕ → Publisher → Option Publisher
publisher_hears n buffer p = do
  (d, calls) ← discover_read_cb n (record p.discover { buffer = buffer })
  subs ← with_subs calls p.subs
  some (record p { discover = d; subs = subs })

-- `Acquire`: the pointer and the size, where `LockForWrite` returns block `i`. `none` is a `throw`.
pub acquire : Os → ℕ → ℕ → Publisher → History → Option ((Acquired × ℕ) × Publisher × History)
acquire os i size p h =
    let r = write_block os i p.shm h in
    if ltb size_of_block size
    then none
    else some ((r.0, size_of_block), record p { shm = r.1 }, r.2)

-- `Publish`: the block that `ReleaseWrittenBlock` gives back, and the datagrams sent, each with its
-- address.
pub notification : List ℕ → List ℕ × List ℕ
notification sub = (sub, notify_read ∷ [])

pub publish : Publisher → ℕ → ℕ × List (List ℕ × List ℕ)
publish p data_at = (block_index p.shm.buffer p.shm.block_size data_at, map notification p.subs)

-- `Stop` and the destructor, which ends with that of `shm_`.
pub stop_publisher : Publisher → Publisher
stop_publisher p = record p { running = false }

pub destroy_publisher : Publisher → History → Publisher × History
destroy_publisher p h = (if p.running then stop_publisher p else p, unlink_block p.shm h)

-- `MessageSubscriber`, with the messages given to `callback_`, the newest first.
pub record Subscriber : Type 0 where
  pub running : Bool
  pub topic : Text
  pub address : List ℕ
  pub discover : Discover
  pub shm : Block
  pub received : List (ℕ × ℕ)

-- The constructor, where `uv_udp_getsockname` gives `address`: the subscriber, the announcement and
-- the calls for the shared memory. Only `uv_udp_init` may throw.
pub subscriber_with : Text → List ℕ → Discover → Result → Subscriber × List ℕ × History
subscriber_with topic address d r = (
  record {
    running = true;
    topic = topic;
    address = address;
    discover = recv (pub_topic topic) 1 d;
    shm = r.block;
    received = [];
  },
  packet (sub_topic topic) address,
  r.history,
)

pub new_subscriber :
    Os → History → Answers → List ℕ → Bool → Text → List ℕ → Option (Subscriber × List ℕ × History)
new_subscriber os h a memory udp_ok topic address = do
  d ← new_discover a memory
  (if udp_ok
      then some (
          subscriber_with topic address d
            (open_existing os (new_block number_of_blocks size_of_block) h))
      else none)

-- A datagram for the subscriber's `ServiceDiscover`: it announces itself again at each call.
pub announcements : Subscriber → List Called → List (List ℕ)
announcements s [] = []
announcements s (c ∷ cs) = packet (sub_topic s.topic) s.address ∷ announcements s cs

pub subscriber_hears : ℤ → List ℕ → Subscriber → Option (Subscriber × List (List ℕ))
subscriber_hears n buffer s = do
  (d, calls) ← discover_read_cb n (record s.discover { buffer = buffer })
  some (record s { discover = d }, announcements s calls)

-- `message_read_cb` on a datagram of `n` bytes that begins with `byte`, where `LockForRead` returns
-- `i`. `none` is a failed `assert`, here or in `AcquireBlockToRead`, or an access through a null
-- pointer.
pub read_with : Subscriber → Acquired × Block × History → Option (Subscriber × History)
read_with s (gives_null, b, h) = some (record s { shm = b }, h)
read_with s (faults, b, h) = none
read_with s (gives p, b, h) =
    some (record s { shm = b; received = (p, size_of_block) ∷ s.received }, h)

pub reopened : Os → Subscriber → Block × History → Option (Subscriber × History)
reopened os s (b, h) = let r = open_existing os b h in some (record s { shm = r.block }, r.history)

pub notified : Os → ℤ → ℕ → Subscriber → History → Option (Subscriber × History)
notified os i byte s h =
    if byte == notify_read
    then read_with s (read_block os i s.shm h)
    else if byte == notify_open
    then reopened os s (stop_block s.shm h)
    else some (s, h)

pub message_read_cb : Os → ℤ → ℤ → ℕ → Subscriber → History → Option (Subscriber × History)
message_read_cb os i (negsuc n) byte s h = none
message_read_cb os i (pos zero) byte s h = some (s, h)
message_read_cb os i (pos (suc n)) byte s h = notified os i byte s h

-- `Stop` and the destructor, which ends with that of `shm_`.
pub stop_subscriber : Subscriber → Subscriber
stop_subscriber s = record s { running = false }

pub destroy_subscriber : Subscriber → History → Subscriber × History
destroy_subscriber s h = (if s.running then stop_subscriber s else s, unlink_block s.shm h)
