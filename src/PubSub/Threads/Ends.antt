-- ===== src/PubSub/Threads/Ends.antt =====
-- What a subscriber's thread in message.hpp comes to by its own steps and those of `notify_all`.
use code_c.Base.{
  ℕ, ◌-◌, ◌<◌, ◌≡◌, ◌≢◌, refl, ap, ◌∙◌, subst, true, none, ◌⊎◌, List, ◌∷◌, ◌++◌, map, arith, length,
  length-map, map-middle, All, All-middle, Bool-cases, Option-cases, inl, inr, ◌==◌,
}
use code_c.PubSub.{Buffer, Subscriber, turn, called, woken}
use code_c.PubSub.Threads.{
  Thread, building, running, asleep, awake, ended, calling, Member, System, notified, notify, after,
  begins_round, after_wait, Step, notifies, goes_round, goes_awake, returns, Inner, Runs, rests,
  runs, Reach,
}
use code_c.PubSub.Threads.Served.{Served, nobody, Reach-AllServed}

Runs-trans : {s t u : System} → Runs s t → Runs t u → Runs s u
Runs-trans r rests = r
Runs-trans r (runs q st i) = runs (Runs-trans r q) st i

-- From `s` inner steps lead to a state where `P` holds of the member at place `k`.
abbrev pub Reaches : System → ℕ → (Member → Type 0) → Type 0
Reaches s k P =
    (t : System) × (xs ys : List Member) × (m : Member) × Runs s t
    × (t.members ≡ xs ++ (m ∷ ys))
    × (length xs ≡ k)
    × P m

pub after_step :
    {s t : System} {k : ℕ} {P : Member → Type 0} (st : Step s t)
    → Inner st
    → Reaches t k P
    → Reaches s k P
after_step st i (u, xs, ys, m, r, e, l, p) = (u, xs, ys, m, Runs-trans (runs rests st i) r, e, l, p)

-- Where a round of a subscriber with `K` ends in `P`, its thread comes to `P` from the head of the
-- loop and from `callback_`.
module _ (K : Subscriber → Type 0) (P : Member → Type 0)
    (round : (m : Member) → K m.subscriber → P (begins_round m)) where
  pub running_reaches :
      (s : System) (xs ys : List Member) (m : Member)
      → s.members ≡ xs ++ (m ∷ ys)
      → m.thread ≡ running
      → K m.subscriber
      → Reaches s (length xs) P
  running_reaches s xs ys m e r k = (
    record s { members = xs ++ (begins_round m ∷ ys) },
    xs,
    ys,
    begins_round m,
    runs rests (goes_round xs ys m e r) tt,
    refl,
    refl,
    round m k,
  )

  pub calling_reaches :
      (s : System) (xs ys : List Member) (m : Member) (b : Buffer)
      → s.members ≡ xs ++ (m ∷ ys)
      → m.thread ≡ calling b
      → K m.subscriber
      → Reaches s (length xs) P
  calling_reaches s xs ys m b e c k =
      after_step (returns xs ys m b e c) tt
        (running_reaches _ xs ys (record m { thread = running }) refl refl k)

abbrev Stopped : Subscriber → Type 0
Stopped u = u.stop ≡ true

abbrev Ended : Member → Type 0
Ended m = m.thread ≡ ended

finishes : (m : Member) → Stopped m.subscriber → Ended (begins_round m)
unfolding begins_round after turn
finishes m stop = ground arith

after_wait-cases :
    (m : Member)
    → ((after_wait m).thread ≡ running) ⊎ ((b : Buffer) × ((after_wait m).thread ≡ calling b))
unfolding after_wait after woken called
after_wait-cases m = elim (Option-cases m.subscriber.buffer) [
  | inl n ↦ inl (rw n refl)
  | inr (b, n) ↦ elim (Bool-cases (b.data_at == 0)) [
    | inl z ↦ inl (rw (n, z) refl)
    | inr z ↦ inr (b, rw (n, z) refl)
  ]
]

module _ (s : System) (xs ys : List Member) (m : Member) (e : s.members ≡ xs ++ (m ∷ ys)) where
  awake_ends : m.thread ≡ awake → Stopped m.subscriber → Reaches s (length xs) Ended
  unfolding after_wait woken
  awake_ends a stop = after_step (goes_awake xs ys m e a) tt (elim (after_wait-cases m) [
    | inl r ↦ running_reaches Stopped Ended finishes _ xs ys (after_wait m) refl r stop
    | inr (b, c) ↦ calling_reaches Stopped Ended finishes _ xs ys (after_wait m) b refl c stop
  ])

notified_members :
    (s : System) (xs ys : List Member) (m : Member)
    → s.members ≡ xs ++ (m ∷ ys)
    → map notify s.members ≡ map notify xs ++ (notify m ∷ map notify ys)
notified_members s xs ys m e = ap (map notify) e ∙ map-middle notify xs ys m

asleep_ends :
    (s : System) (xs ys : List Member) (m : Member)
    → s.members ≡ xs ++ (m ∷ ys)
    → m.thread ≡ asleep
    → Stopped m.subscriber
    → 0 < s.notifiers
    → Reaches s (length xs) Ended
unfolding notify notified
asleep_ends s xs ys m e a stop some_come =
    let t : System = record { members = map notify s.members; notifiers = s.notifiers - 1 } in
    after_step (notifies (s.notifiers - 1) (omega arith)) tt (
      subst (λ k. Reaches t k Ended) (length-map xs notify)
        (awake_ends t (map notify xs) (map notify ys) (notify m) (notified_members s xs ys m e)
          (rw a refl) stop))

ends_from :
    (s : System) (xs ys : List Member) (m : Member) (th : Thread)
    → m.thread ≡ th
    → s.members ≡ xs ++ (m ∷ ys)
    → Served s.notifiers m
    → Stopped m.subscriber
    → th ≢ building
    → Reaches s (length xs) Ended
ends_from s xs ys m building t e h stop made = absurd (made refl)
ends_from s xs ys m running t e h stop made =
    running_reaches Stopped Ended finishes s xs ys m e t stop
ends_from s xs ys m asleep t e h stop made = asleep_ends s xs ys m e t stop (h.1 t stop)
ends_from s xs ys m awake t e h stop made = awake_ends s xs ys m e t stop
ends_from s xs ys m ended t e h stop made = (s, xs, ys, m, rests, e, refl, t)
ends_from s xs ys m (calling b) t e h stop made =
    calling_reaches Stopped Ended finishes s xs ys m b e t stop

module _ (s : System) (xs ys : List Member) (m : Member) (r : Reach nobody s)
    (e : s.members ≡ xs ++ (m ∷ ys)) where
  pub served : Served s.notifiers m
  served = All-middle _ xs ys m (subst (All (Served s.notifiers)) e (Reach-AllServed r))

  -- No wakeup is lost: whatever happened since the program began, a subscriber's thread that waits
  -- has no buffer, and when its `stop_` is set a `notify_all` is still to come.
  pub no_lost_wakeup :
      m.thread ≡ asleep
      → (m.subscriber.buffer ≡ none) × (m.subscriber.stop ≡ true → 0 < s.notifiers)
  no_lost_wakeup a = (served.0 a, served.1 a)

  -- A stopped subscriber's thread ends: whatever happened since the program began, when `stop_` of a
  -- subscriber is set and its constructor is done, some steps of subscribers' threads and calls of
  -- `notify_all` that are still to come lead to a state where its thread has returned.
  pub stopped_ends :
      m.subscriber.stop ≡ true → m.thread ≢ building → Reaches s (length xs) (λ n. n.thread ≡ ended)
  stopped_ends stop made = ends_from s xs ys m m.thread refl e served stop made
