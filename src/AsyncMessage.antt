-- ===== src/AsyncMessage.antt =====
-- c++/20221211-pubsub-libuv-multithread/message.hpp: a subscriber whose callback runs on an event
-- loop, with publishers and callers of `Stop` on other threads, an atomic access at a time.
-- `Publish` holds `subscribers_mutex_` from the store into `buffer_` to `uv_async_send`. libuv runs
-- the callback of a handle at some time after a send, once for any number of sends before it, and
-- not after `uv_close`. A buffer is known by its number.
pub mod Latest
pub mod Leaves
mod Tests
use code_c.Base.{
  ℕ, zero, suc, ◌+◌, ◌≡◌, Bool, true, false, Option, none, some, List, [], ◌∷◌, if◌then◌else◌,
}

-- Where the loop stands in `async_subscriber_cb`: not in it, at its begin, behind the test of `stop_`,
-- and behind `uv_close`.
pub data Loop : Type 0 where
  idle began loads leaves : Loop

-- `MessageSubscriber`: whether it is in `subscribers_`, its members, whether a send is not yet served
-- and `uv_close` was called, `callback_`'s buffers, the newest first; whether a `Publish` stands
-- between store and send, and how many callers of `Stop` do; and whether it is not yet destroyed.
pub record Subscriber : Type 0 where
  pub inside : Bool
  pub buffer : Option ℕ
  pub stop : Bool
  pub sent : Bool
  pub closed : Bool
  pub loop : Loop
  pub received : List ℕ
  pub posting : Bool
  pub stopping : ℕ
  pub alive : Bool

-- The constructor, which inserts the subscriber at its end.
pub new_subscriber : Subscriber
new_subscriber = record {
  inside = true;
  buffer = none;
  stop = false;
  sent = false;
  closed = false;
  loop = idle;
  received = [];
  posting = false;
  stopping = 0;
  alive = true;
}

-- `Post` in its two parts.
pub post_begins : ℕ → Subscriber → Subscriber
post_begins b s = record s { buffer = some b; posting = true }

pub post_ends : Subscriber → Subscriber
post_ends s = record s { sent = true; posting = false }

-- `Stop` in its two parts.
pub told : Subscriber → Subscriber
told s = record s { stop = true; stopping = suc s.stopping }

pub stop_sent : ℕ → Subscriber → Subscriber
stop_sent n s = record s { sent = true; stopping = n }

-- `async_subscriber_cb`: the test of `stop_`, and the load of `buffer_` with the call.
pub tested : Subscriber → Subscriber
tested s = record s {
  loop = if s.stop then leaves else loads;
  closed = if s.stop then true else s.closed;
}

pub with_buffer : Option ℕ → List ℕ → List ℕ
with_buffer none received = received
with_buffer (some b) received = b ∷ received

pub loaded : Subscriber → Subscriber
loaded s = record s { loop = idle; received = with_buffer s.buffer s.received }

-- `~MessageSubscriber`
pub destroyed : Subscriber → Subscriber
destroyed s = record s { stop = true; sent = if s.stop then s.sent else true; alive = false }

-- The steps of all threads but the destructor.
pub data Step (s : Subscriber) : Subscriber → Type 0 where
  stores : (b : ℕ) → s.inside ≡ true → s.posting ≡ false → Step s (post_begins b s)
  posts : s.posting ≡ true → Step s (post_ends s)
  stops : Step s (told s)
  sends_stop : (n : ℕ) → s.stopping ≡ suc n → Step s (stop_sent n s)
  begins :
      s.loop ≡ idle
      → s.sent ≡ true
      → s.closed ≡ false
      → Step s (record s { loop = began; sent = false })
  tests : s.loop ≡ began → Step s (tested s)
  calls : s.loop ≡ loads → Step s (loaded s)
  erased : s.loop ≡ leaves → s.posting ≡ false → Step s (record s { loop = idle; inside = false })

pub data Reach (s : Subscriber) : Subscriber → Type 0 where
  start : Reach s s
  later : {t u : Subscriber} → Reach s t → Step t u → Reach s u

-- The steps that finish what was begun: none stores or stops anew.
abbrev pub Finishing : {s t : Subscriber} → Step s t → Type 0
Finishing (stores b i p) = ⊥
Finishing (posts p) = Unit
Finishing stops = ⊥
Finishing (sends_stop n e) = Unit
Finishing (begins l n c) = Unit
Finishing (tests l) = Unit
Finishing (calls l) = Unit
Finishing (erased l p) = Unit

pub data Finish (s : Subscriber) : Subscriber → Type 0 where
  rests : Finish s s
  more : {t u : Subscriber} → Finish s t → (st : Step t u) → Finishing st → Finish s u
