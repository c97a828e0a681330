-- ===== src/PubSub.antt =====
-- c++/20221206-pubsub/message.hpp: publishers and subscribers that meet by a topic. The code only
-- compares topics, so a topic is a number. A delegate or a subscriber is known by its place in the
-- list of all that were made; a destroyed subscriber keeps its place and is not alive. An operation
-- that reaches a subscriber which is not alive gives `none`.
pub mod Sets
pub mod Touch
pub mod Valid
pub mod Subscribe
pub mod Leave
pub mod Deliver
pub mod Hazards
pub mod Publisher
pub mod Threads
mod Tests
use code_c.Base.{
  ℕ, ◌+◌, Bool, true, false, not, Option, none, some, List, [], ◌∷◌, ◌++◌, ◌==◌, if◌then◌else◌,
  length, get_elem?, set, ◌>>=◌,
}

-- `Buffer`, with 0 for a null `data_`
pub record Buffer : Type 0 where
  pub data_at : ℕ
  pub size : ℕ

-- `MessagePublisherDelegate`
pub record Delegate : Type 0 where
  pub topic : ℕ
  pub subscribers : List ℕ

-- `MessageSubscriber`
pub record Subscriber : Type 0 where
  pub publisher : Option ℕ
  pub buffer : Option Buffer
  pub stop : Bool
  pub alive : Bool

pub record Hub : Type 0 where
  pub topics : List (ℕ × ℕ)  -- `GetTopics()`
  pub delegates : List Delegate
  pub subscribers : List Subscriber

-- `GetTopics().find(topic)` and `GetTopics().erase(topic)`
pub find : ℕ → List (ℕ × ℕ) → Option ℕ
find t [] = none
find t ((u, d) ∷ rest) = if u == t then some d else find t rest

pub erase_topic : ℕ → List (ℕ × ℕ) → List (ℕ × ℕ)
erase_topic t [] = []
erase_topic t ((u, d) ∷ rest) =
    let others = erase_topic t rest in if u == t then others else (u, d) ∷ others

-- A `std::set` of subscribers.
pub elem : ℕ → List ℕ → Bool
elem s [] = false
elem s (x ∷ xs) = if x == s then true else elem s xs

pub insert : ℕ → List ℕ → List ℕ
insert s xs = if elem s xs then xs else s ∷ xs

pub erase : ℕ → List ℕ → List ℕ
erase s [] = []
erase s (x ∷ xs) = let others = erase s xs in if x == s then others else x ∷ others

pub members_of : Option Delegate → List ℕ
members_of none = []
members_of (some d) = d.subscribers

pub members : Hub → ℕ → List ℕ
members h d = members_of (get_elem? h.delegates d)

-- `MessagePublisherDelegate::GetOrNew`
pub found_or_new : Hub → ℕ → Option ℕ → ℕ × Hub
found_or_new h t (some d) = (d, h)
found_or_new h t none = (
  length h.delegates,
  record h {
    topics = (t, length h.delegates) ∷ h.topics;
    delegates = h.delegates ++ (record { topic = t; subscribers = [] } ∷ []);
  },
)

pub get_or_new : Hub → ℕ → ℕ × Hub
get_or_new h t = found_or_new h t (find t h.topics)

-- Run `f` on subscriber `s`, and on each subscriber of a set.
pub touch_found :
    (Subscriber → Subscriber) → ℕ → List Subscriber → Option Subscriber → Option (List Subscriber)
touch_found f s us none = none
touch_found f s us (some u) = if u.alive then some (set us s (f u)) else none

pub touch : (Subscriber → Subscriber) → ℕ → List Subscriber → Option (List Subscriber)
touch f s us = touch_found f s us (get_elem? us s)

pub touch_all : (Subscriber → Subscriber) → List ℕ → List Subscriber → Option (List Subscriber)
touch_all f [] us = some us
touch_all f (s ∷ ss) us = do vs ← touch f s us; touch_all f ss vs

pub holding : Buffer → Subscriber → Subscriber
holding b u = record u { buffer = some b }

pub stopping : Subscriber → Subscriber
stopping u = record u { stop = true }

-- `MessagePublisherDelegate::Publish`
pub publish : ℕ → Buffer → Hub → Option Hub
publish d b h = do
  us ← touch_all (holding b) (members h d) h.subscribers
  some (record h { subscribers = us })

-- `MessagePublisherDelegate::Stop`
pub topic_of : Option Delegate → List (ℕ × ℕ) → List (ℕ × ℕ)
topic_of none ts = ts
topic_of (some d) ts = erase_topic d.topic ts

pub stop_delegate : ℕ → Hub → Option Hub
stop_delegate d h = do
  us ← touch_all stopping (members h d) h.subscribers
  some (record h { topics = topic_of (get_elem? h.delegates d) h.topics; subscribers = us })

-- The constructor of `MessageSubscriber` in its two parts: `GetOrNew` and the insertion under
-- `subscribers_mutex_`, then the assignments. `stop_` holds `garbage` in between.
pub with_subscriber : ℕ → Option Delegate → List Delegate → ℕ → List Delegate
with_subscriber s none ds d = ds
with_subscriber s (some x) ds d = set ds d (record x { subscribers = insert s x.subscribers })

pub inserted : Bool → ℕ → Hub → Hub
inserted garbage d h = record h {
  delegates = with_subscriber (length h.subscribers) (get_elem? h.delegates d) h.delegates d;
  subscribers =
      h.subscribers
      ++ (record { publisher = none; buffer = none; stop = garbage; alive = true } ∷ []);
}

pub assigned : ℕ → Subscriber → Subscriber
assigned d u = record u { stop = false; publisher = some d }

pub subscribe_finishes : ℕ → ℕ → Hub → Option Hub
subscribe_finishes s d h = do
  us ← touch (assigned d) s h.subscribers
  some (record h { subscribers = us })

-- The whole constructor with nothing in between: the subscriber, and the hub.
pub subscribe : Bool → ℕ → Hub → Option (ℕ × Hub)
subscribe garbage t h =
    let (d, h1) = get_or_new h t in
    do
      h2 ← subscribe_finishes (length h1.subscribers) d (inserted garbage d h1)
      some (length h1.subscribers, h2)

-- `MessageSubscriber::Stop`
pub without_subscriber : ℕ → Option Delegate → List Delegate → ℕ → List Delegate
without_subscriber s none ds d = ds
without_subscriber s (some x) ds d = set ds d (record x { subscribers = erase s x.subscribers })

pub forgotten : ℕ → Option ℕ → List Delegate → List Delegate
forgotten s none ds = ds
forgotten s (some d) ds = without_subscriber s (get_elem? ds d) ds d

pub stop_found : ℕ → Hub → Option Subscriber → Option Hub
stop_found s h none = none
stop_found s h (some u) = do
  us ← touch stopping s h.subscribers
  some (record h { delegates = forgotten s u.publisher h.delegates; subscribers = us })

pub stop_subscriber : ℕ → Hub → Option Hub
stop_subscriber s h = stop_found s h (get_elem? h.subscribers s)

-- `~MessageSubscriber`
pub dying : Subscriber → Subscriber
dying u = record u { alive = false }

pub destroyed : ℕ → Hub → Option Hub
destroyed s h = do us ← touch dying s h.subscribers; some (record h { subscribers = us })

pub destroy_found : ℕ → Hub → Option Subscriber → Option Hub
destroy_found s h none = none
destroy_found s h (some u) =
    if not u.stop then (do h' ← stop_subscriber s h; destroyed s h') else destroyed s h

pub destroy : ℕ → Hub → Option Hub
destroy s h = destroy_found s h (get_elem? h.subscribers s)

-- One round of a subscriber's thread: it returns, sleeps, calls back, or goes round again.
pub data Turn : Type 0 where
  finished sleeps goes_on : Turn
  calls : Buffer → Turn

pub called : Option Buffer → Turn
called none = goes_on
called (some b) = if b.data_at == 0 then goes_on else calls b

-- From the swap on, which a thread that was woken does at once.
pub woken : Subscriber → Turn × Subscriber
woken u = (called u.buffer, record u { buffer = none })

pub waits_or_takes : Subscriber → Option Buffer → Turn × Subscriber
waits_or_takes u none = (sleeps, u)
waits_or_takes u (some b) = woken u

pub turn : Subscriber → Turn × Subscriber
turn u = if u.stop then (finished, u) else waits_or_takes u u.buffer
