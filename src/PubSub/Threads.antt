-- ===== src/PubSub/Threads.antt =====
-- One topic of message.hpp with the threads of its subscribers, a critical section or an access at a
-- time. `mutex_` guards what a subscriber's thread, `Publish` and the two `Stop` do, so each section
-- is one step; both `Stop` call `notify_all` after they have unlocked. A thread may wake unasked. The
-- insertion of a constructor, which holds `subscribers_mutex_` only, is one step too; its data race with
-- the loops under `mutex_` is not modelled.
pub mod Served
pub mod Ends
pub mod Calls
mod Tests
use code_c.Base.{
  ℕ, zero, suc, ◌≡◌, ◌≢◌, Bool, true, false, Option, none, some, List, [], ◌∷◌, ◌++◌, map,
  if◌then◌else◌,
}
use code_c.PubSub.{
  Buffer, Subscriber, holding, stopping, assigned, Turn, finished, sleeps, goes_on, calls, turn,
  woken,
}

-- Where a subscriber's thread stands: its constructor is not done, at the head of the loop, in
-- `cond_.wait`, woken there, in `callback_`, or returned.
pub data Thread : Type 0 where
  building running asleep awake ended : Thread
  calling : Buffer → Thread

-- A subscriber, whether it is in `subscribers_`, and its thread.
pub record Member : Type 0 where
  pub subscriber : Subscriber
  pub inside : Bool
  pub thread : Thread

-- `notifiers` counts the callers of `Stop` between the unlocking and `notify_all`.
pub record System : Type 0 where
  pub members : List Member
  pub notifiers : ℕ

-- `notify_all`
pub notified : Thread → Thread
notified asleep = awake
notified t = t

pub notify : Member → Member
notify m = record m { thread = notified m.thread }

-- What a loop over `subscribers_` does to a subscriber.
pub touched : (Subscriber → Subscriber) → Member → Member
touched f m = if m.inside then record m { subscriber = f m.subscriber } else m

-- The constructor: up to the insertion, with `garbage` in `stop_`; and the rest.
pub entering : Bool → Member
entering garbage = record {
  subscriber = record { publisher = none; buffer = none; stop = garbage; alive = true };
  inside = true;
  thread = building;
}

pub begun : Member → Member
begun m = record m { subscriber = assigned 0 m.subscriber; thread = running }

-- The section of `Stop` of a subscriber.
pub leaving : Member → Member
leaving m = record m { subscriber = stopping m.subscriber; inside = false }

-- What a thread does after the outcome of a round.
pub after : Turn → Thread
after finished = ended
after sleeps = asleep
after goes_on = running
after (calls b) = calling b

pub begins_round : Member → Member
begins_round m = record m {
  subscriber = (turn m.subscriber).1;
  thread = after (turn m.subscriber).0;
}

pub after_wait : Member → Member
after_wait m = record m {
  subscriber = (woken m.subscriber).1;
  thread = after (woken m.subscriber).0;
}

pub data Step (s : System) : System → Type 0 where
  subscriber_enters :
      (garbage : Bool) → Step s (record s { members = s.members ++ (entering garbage ∷ []) })
  subscriber_begins :
      (xs ys : List Member) (m : Member)
      → s.members ≡ xs ++ (m ∷ ys)
      → m.thread ≡ building
      → Step s (record s { members = xs ++ (begun m ∷ ys) })
  publishes :
      (b : Buffer)
      → Step s (record s { members = map notify (map (touched (holding b)) s.members) })
  publisher_stops :
      Step s (record s { members = map (touched stopping) s.members; notifiers = suc s.notifiers })
  subscriber_stops :
      (xs ys : List Member) (m : Member)
      → s.members ≡ xs ++ (m ∷ ys)
      → m.thread ≢ building
      → Step s (record s { members = xs ++ (leaving m ∷ ys); notifiers = suc s.notifiers })
  notifies :
      (n : ℕ)
      → s.notifiers ≡ suc n
      → Step s (record s { members = map notify s.members; notifiers = n })
  wakes :
      (xs ys : List Member) (m : Member)
      → s.members ≡ xs ++ (m ∷ ys)
      → m.thread ≡ asleep
      → Step s (record s { members = xs ++ (notify m ∷ ys) })
  goes_round :
      (xs ys : List Member) (m : Member)
      → s.members ≡ xs ++ (m ∷ ys)
      → m.thread ≡ running
      → Step s (record s { members = xs ++ (begins_round m ∷ ys) })
  goes_awake :
      (xs ys : List Member) (m : Member)
      → s.members ≡ xs ++ (m ∷ ys)
      → m.thread ≡ awake
      → Step s (record s { members = xs ++ (after_wait m ∷ ys) })
  returns :
      (xs ys : List Member) (m : Member) (b : Buffer)
      → s.members ≡ xs ++ (m ∷ ys)
      → m.thread ≡ calling b
      → Step s (record s { members = xs ++ (record m { thread = running } ∷ ys) })

pub data Reach (s : System) : System → Type 0 where
  start : Reach s s
  later : {t u : System} → Reach s t → Step t u → Reach s u

-- The steps that no caller of an operation begins: a `notify_all` that is still to come, and those of
-- the subscribers' threads.
abbrev pub Inner : {s t : System} → Step s t → Type 0
Inner (subscriber_enters garbage) = ⊥
Inner (subscriber_begins xs ys m e b) = ⊥
Inner (publishes b) = ⊥
Inner publisher_stops = ⊥
Inner (subscriber_stops xs ys m e b) = ⊥
Inner (notifies n e) = Unit
Inner (wakes xs ys m e a) = ⊥
Inner (goes_round xs ys m e r) = Unit
Inner (goes_awake xs ys m e a) = Unit
Inner (returns xs ys m b e c) = Unit

pub data Runs (s : System) : System → Type 0 where
  rests : Runs s s
  runs : {t u : System} → Runs s t → (st : Step t u) → Inner st → Runs s u
