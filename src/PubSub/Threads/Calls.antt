-- ===== src/PubSub/Threads/Calls.antt =====
-- What a subscriber's thread in message.hpp does with a buffer, and a `Stop` that comes too early.
use code_c.Base.{
  suc, ◌<◌, ◌≡◌, ◌≢◌, refl, ap, ◌∙◌, false, none, some, List, ◌∷◌, ◌++◌, map, map-map, arith,
  length, length-map, map-middle,
}
use code_c.PubSub.{Buffer, Subscriber, stopping, assigned, turn, waits_or_takes, called, woken}
use code_c.PubSub.Threads.{
  Thread, building, running, asleep, awake, ended, calling, Member, System, notified, notify,
  touched, begun, after, begins_round, after_wait, Step, subscriber_begins, publisher_stops,
  notifies, goes_round, goes_awake, Reach, start, later, rests, runs,
}
use code_c.PubSub.Threads.Served.{Served, nobody}
use code_c.PubSub.Threads.Ends.{Reaches, running_reaches, calling_reaches, served}

-- A subscriber that is not stopped and has buffer `b`, whose `data_` is not null.
abbrev Has : Buffer → Subscriber → Type 0
Has b u = (u.buffer ≡ some b) × (u.stop ≡ false) × (0 < b.data_at)

abbrev CallsWith : Buffer → Member → Type 0
CallsWith b m = m.thread ≡ calling b

round_calls : (b : Buffer) (m : Member) → Has b m.subscriber → CallsWith b (begins_round m)
unfolding begins_round turn waits_or_takes called woken after
round_calls b m h = ground arith

awake_calls : (b : Buffer) (m : Member) → Has b m.subscriber → CallsWith b (after_wait m)
unfolding after_wait called woken after
awake_calls b m h = ground arith

calls_from :
    (s : System) (xs ys : List Member) (m : Member) (b : Buffer) (th : Thread)
    → m.thread ≡ th
    → s.members ≡ xs ++ (m ∷ ys)
    → Served s.notifiers m
    → Has b m.subscriber
    → th ≢ building
    → Reaches s (length xs) (CallsWith b)
calls_from s xs ys m b building t e h has made = absurd (made refl)
calls_from s xs ys m b running t e h has made =
    running_reaches (Has b) (CallsWith b) (round_calls b) s xs ys m e t has
calls_from s xs ys m b asleep t e h has made = absurd (ground (arith, h.0 t))
calls_from s xs ys m b awake t e h has made = (
  record s { members = xs ++ (after_wait m ∷ ys) },
  xs,
  ys,
  after_wait m,
  runs rests (goes_awake xs ys m e t) tt,
  refl,
  refl,
  awake_calls b m has,
)
calls_from s xs ys m b ended t e h has made = absurd (ground (arith, h.2 t))
calls_from s xs ys m b (calling c) t e h has made =
    calling_reaches (Has b) (CallsWith b) (round_calls b) s xs ys m c e t has

-- What was published is called back: whatever happened since the program began, when a subscriber
-- has a buffer whose `data_` is not null, is not stopped, and its constructor is done, some steps of
-- subscribers' threads and calls of `notify_all` that are still to come lead to a state where its
-- thread is in `callback_` with that buffer.
pub buffer_called :
    (s : System) (xs ys : List Member) (m : Member) (b : Buffer)
    → Reach nobody s
    → s.members ≡ xs ++ (m ∷ ys)
    → m.subscriber.buffer ≡ some b
    → m.subscriber.stop ≡ false
    → 0 < b.data_at
    → m.thread ≢ building
    → Reaches s (length xs) (λ n. n.thread ≡ calling b)
buffer_called s xs ys m b r e has goes real made =
    calls_from s xs ys m b m.thread refl e (served s xs ys m r e) (has, goes, real) made

abbrev Waits : Member → Type 0
Waits m = (m.thread ≡ asleep) × (m.subscriber.stop ≡ false)

stop_overwritten : (m : Member) → m.subscriber.buffer ≡ none → Waits (begins_round (begun m))
unfolding begins_round begun assigned turn waits_or_takes after
stop_overwritten m e = ground arith

still_building :
    (m : Member) → m.thread ≡ building → (notify (touched stopping m)).thread ≡ building
unfolding notify notified touched
still_building m b = ground arith

still_empty :
    (m : Member)
    → m.subscriber.buffer ≡ none
    → (notify (touched stopping m)).subscriber.buffer ≡ none
unfolding notify touched stopping
still_empty m e = ground arith

begun_running : (m : Member) → (begun m).thread ≡ running
unfolding begun
begun_running m = refl

-- `Stop` of the publisher, on the whole list of subscribers.
abbrev pub stop_begun : System → System
stop_begun s = record s { members = map (touched stopping) s.members; notifiers = suc s.notifiers }

-- A publisher's `Stop` is lost on a subscriber that is between the insertion and the assignments of
-- its constructor and has no buffer: from the state after the section of `Stop`, a state is reachable
-- where `notify_all` was called too, the subscriber's thread waits and its `stop_` is not set.
pub stop_lost :
    (s : System) (xs ys : List Member) (m : Member)
    → s.members ≡ xs ++ (m ∷ ys)
    → m.thread ≡ building
    → m.subscriber.buffer ≡ none
    → Step s (stop_begun s)
      × (t : System) × (xs' ys' : List Member) × (n : Member) × Reach (stop_begun s) t
      × (t.notifiers ≡ s.notifiers)
      × (t.members ≡ xs' ++ (n ∷ ys'))
      × (length xs' ≡ length xs)
      × (n.thread ≡ asleep)
      × (n.subscriber.stop ≡ false)
stop_lost s xs ys m e b empty =
    let f : Member → Member = λ k. notify (touched stopping k) in
    let start_of : map notify (map (touched stopping) s.members) ≡ map f xs ++ (f m ∷ map f ys) =
      map-map _ _ s.members ∙ ap (map f) e ∙ map-middle f xs ys m in
    let built : (f m).thread ≡ building = still_building m b in
    let waits = stop_overwritten (f m) (still_empty m empty) in
    (
      publisher_stops,
      record s { members = map f xs ++ (begins_round (begun (f m)) ∷ map f ys) },
      map f xs,
      map f ys,
      begins_round (begun (f m)),
      later
          (later (later start (notifies s.notifiers refl))
            (subscriber_begins (map f xs) (map f ys) (f m) start_of built))
          (goes_round (map f xs) (map f ys) (begun (f m)) refl (begun_running (f m))),
      refl,
      refl,
      length-map xs f,
      waits.0,
      waits.1,
    )
