-- ===== src/PubSub/Leave.antt =====
-- `Stop` and the destructor of a subscriber.
use code_c.Base.{
  some_injective, ℕ, ◌≡◌, ◌≢◌, refl, ap, sym, ◌∙◌, true, false, some, Option-cases, Bool-cases, inl,
  inr, List, ℕ_discrete, arith, get_elem?, set, get_elem?-set_self, get_elem?-set_ne, set-set,
  get_elem?-lt,
}
use code_c.PubSub.{
  Delegate, Subscriber, Hub, find, elem, erase, members, members_of, stopping, without_subscriber,
  forgotten, turn, finished, stop_subscriber, stop_found, destroy, destroy_found, destroyed, dying,
}
use code_c.PubSub.Sets.{elem-erase_self, elem-erase_ne}
use code_c.PubSub.Touch.{touch_lem}
use code_c.PubSub.Valid.{Valid, Belongs}

-- What `Stop` leaves behind.
abbrev pub left_hub : ℕ → Subscriber → Hub → Hub
left_hub s u h = record h {
  delegates = forgotten s u.publisher h.delegates;
  subscribers = set h.subscribers s (stopping u);
}

stop_subscriber_lem :
    (s : ℕ) (h : Hub) (u : Subscriber)
    → get_elem? h.subscribers s ≡ some u
    → u.alive ≡ true
    → stop_subscriber s h ≡ some (left_hub s u h)
unfolding stop_subscriber stop_found
stop_subscriber_lem s h u here alive =
    rw (here, touch_lem stopping s h.subscribers (u, here, alive)) refl

forgotten_self :
    (s d : ℕ) (ds : List Delegate)
    → members_of (get_elem? (forgotten s (some d) ds) d) ≡ erase s (members_of (get_elem? ds d))
unfolding members_of forgotten without_subscriber erase
forgotten_self s d ds = elim (Option-cases (get_elem? ds d)) [
  | inl e ↦ rw (e, e) refl
  | inr (x, e) ↦
      rw
        (
          e,
          get_elem?-set_self ds d (record x { subscribers = erase s x.subscribers })
              (get_elem?-lt ds d e),
        )
        refl
]

forgotten_ne :
    (s d e : ℕ) (ds : List Delegate)
    → d ≢ e
    → get_elem? (forgotten s (some d) ds) e ≡ get_elem? ds e
unfolding forgotten without_subscriber
forgotten_ne s d e ds other = elim (Option-cases (get_elem? ds d)) [
  | inl n ↦ rw n refl
  | inr (x, n) ↦ rw n (get_elem?-set_ne ds _ other)
]

forgotten_topic :
    (s d e : ℕ) (ds : List Delegate) (x : Delegate)
    → get_elem? ds e ≡ some x
    → (y : Delegate) × (get_elem? (forgotten s (some d) ds) e ≡ some y) × (y.topic ≡ x.topic)
unfolding forgotten without_subscriber
forgotten_topic s d e ds x here = elim (ℕ_discrete d e) [
  | no other ↦ (x, forgotten_ne s d e ds other ∙ here, refl)
  | yes same ↦
      let at : get_elem? ds d ≡ some x = rw same here in
      (
        record x { subscribers = erase s x.subscribers },
        rw (sym same, at) (get_elem?-set_self ds d _ (get_elem?-lt ds d at)),
        refl,
      )
]

module _ (s d : ℕ) (h : Hub) (u : Subscriber) (valid : Valid h)
    (here : get_elem? h.subscribers s ≡ some u) (mine : u.publisher ≡ some d) where
  members_left : members (left_hub s u h) d ≡ erase s (members h d)
  unfolding members
  members_left = rw mine (forgotten_self s d h.delegates)

  members_left_ne : (e : ℕ) → d ≢ e → members (left_hub s u h) e ≡ members h e
  unfolding members
  members_left_ne e apart = rw mine (ap members_of (forgotten_ne s d e h.delegates apart))

  -- Who is still a member was one before, and is not the one who left.
  left-member :
      (e i : ℕ)
      → elem i (members (left_hub s u h) e) ≡ true
      → (s ≢ i) × (elem i (members h e) ≡ true)
  left-member e i m = elim (ℕ_discrete d e) [
    | yes same ↦
        let now : elem i (erase s (members h d)) ≡ true =
          ap (elem i) (sym members_left) ∙ ap (λ k. elem i (members (left_hub s u h) k)) same ∙ m in
        elim (ℕ_discrete s i) [
          | yes self ↦
              let gone : elem i (erase s (members h d)) ≡ false =
                rw (sym self) (elem-erase_self s (members h d)) in
              absurd (grind arith)
          | no other ↦ (other, rw (sym same) (sym (elem-erase_ne s i (members h d) other) ∙ now))
        ]
    | no apart ↦
        let before : elem i (members h e) ≡ true =
          ap (elem i) (sym (members_left_ne e apart)) ∙ m in
        (
          λ self.
              let at = valid.members_belong e i before in
              apart (
                some_injective (
                  sym mine
                  ∙ ap (λ w. w.publisher)
                      (some_injective (sym here ∙ ap (get_elem? h.subscribers) self ∙ at.1))
                  ∙ at.3)),
          before,
        )
  ]

  -- A subscriber whose constructor has ended leaves every delegate when it stops.
  pub left_nowhere : (e : ℕ) → elem s (members (left_hub s u h) e) ≡ false
  left_nowhere e = elim (Bool-cases (elem s (members (left_hub s u h) e))) [
    | inl m ↦ absurd ((left-member e s m).0 refl)
    | inr m ↦ m
  ]

  left-topics :
      (t e : ℕ)
      → find t h.topics ≡ some e
      → (y : Delegate) × (get_elem? (left_hub s u h).delegates e ≡ some y) × (y.topic ≡ t)
  left-topics t e f =
      let (x, at, top) = valid.topics_right t e f in
      let (y, there, same) = forgotten_topic s d e h.delegates x at in
      (y, rw mine there, same ∙ top)

  -- The same, when `f` is done to the subscriber that leaves.
  changed-Valid :
      (w : Subscriber) → Valid (record (left_hub s u h) { subscribers = set h.subscribers s w })
  unfolding stopping members
  changed-Valid w = record {
    topics_right = left-topics;
    members_belong = λ e i m.
        let (other, before) = left-member e i m in
        let (v, at, alive, yours) = valid.members_belong e i before in
        (v, get_elem?-set_ne h.subscribers w other ∙ at, alive, yours);
  }

-- `Stop` of a constructed subscriber that is alive, in a well-formed hub: it succeeds, the
-- subscriber is no member of any delegate then, its thread returns in its next round, the other
-- subscribers are as before, and the hub stays well formed.
pub stop_subscriber-Valid :
    (s d : ℕ) (h : Hub)
    → Valid h
    → Belongs h.subscribers d s
    → (h' : Hub) × (v : Subscriber) × (stop_subscriber s h ≡ some h')
      × ((e : ℕ) → elem s (members h' e) ≡ false)
      × (get_elem? h'.subscribers s ≡ some v)
      × (turn v ≡ (finished, v))
      × ((i : ℕ) → s ≢ i → get_elem? h'.subscribers i ≡ get_elem? h.subscribers i)
      × Valid h'
unfolding turn stopping
stop_subscriber-Valid s d h valid (u, here, alive, mine) = (
  left_hub s u h,
  stopping u,
  stop_subscriber_lem s h u here alive,
  left_nowhere s d h u valid here mine,
  get_elem?-set_self h.subscribers s (stopping u) (get_elem?-lt h.subscribers s here),
  refl,
  λ i other. get_elem?-set_ne h.subscribers (stopping u) other,
  changed-Valid s d h u valid here mine (stopping u),
)

-- The destructor of a constructed subscriber that nobody has stopped, in a well-formed hub:
-- it succeeds, the subscriber is then a member of no delegate, and the hub stays well formed.
destroy-Valid :
    (s d : ℕ) (h : Hub) (u : Subscriber)
    → Valid h
    → get_elem? h.subscribers s ≡ some u
    → u.alive ≡ true
    → u.publisher ≡ some d
    → u.stop ≡ false
    → (h' : Hub) × (destroy s h ≡ some h') × ((e : ℕ) → elem s (members h' e) ≡ false) × Valid h'
unfolding destroy destroy_found destroyed members stopping
destroy-Valid s d h u valid here alive mine runs = (
  record (left_hub s u h) { subscribers = set h.subscribers s (dying (stopping u)) },
  rw (here, runs, stop_subscriber_lem s h u here alive)
      (rw (touch_lem dying s (set h.subscribers s (stopping u)) (stopping u, at, alive)) (
        ap (λ v. some (record (left_hub s u h) { subscribers = v }))
          (set-set h.subscribers s (stopping u) (dying (stopping u))))),
  left_nowhere s d h u valid here mine,
  changed-Valid s d h u valid here mine (dying (stopping u)),
)
  where
    at : get_elem? (set h.subscribers s (stopping u)) s ≡ some (stopping u)
    at = get_elem?-set_self h.subscribers s (stopping u) (get_elem?-lt h.subscribers s here)
