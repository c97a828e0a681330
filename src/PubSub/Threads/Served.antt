-- ===== src/PubSub/Threads/Served.antt =====
-- What holds of every subscriber's thread in message.hpp at all times.
use code_c.Base.{
  ℕ, suc, ◌<◌, ◌≡◌, subst, Bool, true, none, List, [], ◌∷◌, ◌++◌, map, arith, All, All-middle,
  All-replaced, All-snoc, All-map, All-weaker,
}
use code_c.PubSub.{Buffer, holding, stopping, assigned, turn, waits_or_takes, called, woken}
use code_c.PubSub.Threads.{
  running, asleep, ended, Member, System, notified, notify, touched, entering, begun, leaving,
  after, begins_round, after_wait, Step, subscriber_enters, subscriber_begins, publishes,
  publisher_stops, subscriber_stops, notifies, wakes, goes_round, goes_awake, returns, Reach, start,
  later,
}

-- A thread in `cond_.wait` has no buffer, and is not stopped unless a `notify_all` is still to come;
-- a thread that has returned was stopped.
abbrev pub Served : ℕ → Member → Type 0
Served n m =
    (m.thread ≡ asleep → m.subscriber.buffer ≡ none)
    × (m.thread ≡ asleep → m.subscriber.stop ≡ true → 0 < n)
    × (m.thread ≡ ended → m.subscriber.stop ≡ true)

notify-Served : (n k : ℕ) (m : Member) → Served n m → Served k (notify m)
unfolding notify notified
notify-Served n k m h = ground arith

published-Served :
    (n : ℕ) (b : Buffer) (m : Member) → Served n m → Served n (notify (touched (holding b) m))
unfolding notify notified touched holding
published-Served n b m h = ground arith

stopped-Served : (n : ℕ) (m : Member) → Served n m → Served (suc n) (touched stopping m)
unfolding touched stopping
stopped-Served n m h = ground arith

leaving-Served : (n : ℕ) (m : Member) → Served n m → Served (suc n) (leaving m)
unfolding leaving stopping
leaving-Served n m h = ground arith

more-Served : (n : ℕ) (m : Member) → Served n m → Served (suc n) m
more-Served n m h = ground arith

begins_round-Served : (n : ℕ) (m : Member) → Served n (begins_round m)
unfolding begins_round after turn waits_or_takes called woken
begins_round-Served n m = ground arith

after_wait-Served : (n : ℕ) (m : Member) → Served n (after_wait m)
unfolding after_wait after called woken
after_wait-Served n m = ground arith

entering-Served : (n : ℕ) (garbage : Bool) → Served n (entering garbage)
unfolding entering
entering-Served n garbage = ground arith

module _ (n : ℕ) (s : System) (h : All (Served n) s.members) where
  moved-Served :
      (xs ys : List Member) (m m' : Member)
      → s.members ≡ xs ++ (m ∷ ys)
      → Served n m'
      → All (Served n) (xs ++ (m' ∷ ys))
  moved-Served xs ys m m' e p = All-replaced (Served n) xs ys m m' p (subst (All (Served n)) e h)

  left-Served :
      (xs ys : List Member) (m : Member)
      → s.members ≡ xs ++ (m ∷ ys)
      → All (Served (suc n)) (xs ++ (leaving m ∷ ys))
  left-Served xs ys m e =
      let there = subst (All (Served n)) e h in
      All-replaced (Served (suc n)) xs ys m (leaving m)
        (leaving-Served n m (All-middle (Served n) xs ys m there))
        (All-weaker (Served n) (Served (suc n)) _ (more-Served n) there)

abbrev pub AllServed : System → Type 0
AllServed s = All (Served s.notifiers) s.members

Step-AllServed : {s t : System} → Step s t → AllServed s → AllServed t
unfolding begun assigned
Step-AllServed {s} (subscriber_enters g) h =
    All-snoc _ s.members _ h (entering-Served s.notifiers g)
Step-AllServed {s} (subscriber_begins xs ys m e b) h =
    moved-Served s.notifiers s h xs ys m (begun m) e (ground arith)
Step-AllServed {s} (publishes b) h =
    All-map (λ m. Served s.notifiers (notify m)) (Served s.notifiers) notify
      (map (touched (holding b)) s.members) (λ m p. p)
      (All-map (Served s.notifiers) (λ m. Served s.notifiers (notify m)) (touched (holding b))
        s.members (published-Served s.notifiers b) h)
Step-AllServed {s} publisher_stops h =
    All-map _ _ (touched stopping) s.members (stopped-Served s.notifiers) h
Step-AllServed {s} (subscriber_stops xs ys m e b) h = left-Served s.notifiers s h xs ys m e
Step-AllServed {s} (notifies n e) h = All-map _ _ notify s.members (notify-Served s.notifiers n) h
Step-AllServed {s} (wakes xs ys m e a) h =
    let there = subst (All (Served s.notifiers)) e h in
    moved-Served s.notifiers s h xs ys m (notify m) e
      (notify-Served s.notifiers s.notifiers m (All-middle _ xs ys m there))
Step-AllServed {s} (goes_round xs ys m e r) h =
    moved-Served s.notifiers s h xs ys m (begins_round m) e (begins_round-Served s.notifiers m)
Step-AllServed {s} (goes_awake xs ys m e r) h =
    moved-Served s.notifiers s h xs ys m (after_wait m) e (after_wait-Served s.notifiers m)
Step-AllServed {s} (returns xs ys m b e r) h =
    moved-Served s.notifiers s h xs ys m (record m { thread = running }) e (ground arith)

-- The program before it has a subscriber.
abbrev pub nobody : System
nobody = record { members = []; notifiers = 0 }

pub Reach-AllServed : {s : System} → Reach nobody s → AllServed s
Reach-AllServed start = tt
Reach-AllServed (later r st) = Step-AllServed st (Reach-AllServed r)
