-- ===== src/PubSub/Subscribe.antt =====
-- The constructor of a subscriber.
use code_c.Base.{
  some_injective, ℕ, ◌≡◌, ◌≢◌, refl, ap, sym, ◌∙◌, Bool, true, false, none, some, [], ◌∷◌, ◌++◌,
  ℕ_discrete, arith, length, get_elem?, set, get_elem?-set_self, get_elem?-set_ne, get_elem?-lt,
  get_elem?-append_last, length-append, ◌<◌, get_elem?-append_some,
}
use code_c.PubSub.{
  Delegate, Subscriber, Hub, elem, insert, members, members_of, get_or_new, inserted, assigned,
  with_subscriber, subscribe_finishes, subscribe,
}
use code_c.PubSub.Sets.{elem-insert_self, elem-insert_ne}
use code_c.PubSub.Touch.{touch_lem}
use code_c.PubSub.Valid.{
  Valid, Belongs, get_or_new_found, get_or_new_topic, get_or_new_hit, get_or_new-Valid,
}

abbrev blank : Bool → Subscriber
blank garbage = record { publisher = none; buffer = none; stop = garbage; alive = true }

-- A hub with one more subscriber of delegate `d`, which is `x`.
abbrev pub joined : Bool → ℕ → Delegate → Hub → Hub
joined garbage d x h = record h {
  delegates =
      set h.delegates d (record x { subscribers = insert (length h.subscribers) x.subscribers });
  subscribers =
      set (h.subscribers ++ (blank garbage ∷ [])) (length h.subscribers)
        (assigned d (blank garbage));
}

subscribe_lem :
    (garbage : Bool) (t : ℕ) (h : Hub) (x : Delegate)
    → let (d, h1) = get_or_new h t in
      get_elem? h1.delegates d ≡ some x
      → subscribe garbage t h ≡ some (length h1.subscribers, joined garbage d x h1)
unfolding subscribe subscribe_finishes inserted with_subscriber
subscribe_lem garbage t h x here =
    let h1 = (get_or_new h t).1 in
    rw
      (
        here,
        touch_lem (assigned (get_or_new h t).0) (length h1.subscribers)
            (h1.subscribers ++ (blank garbage ∷ []))
            (blank garbage, get_elem?-append_last h1.subscribers (blank garbage), refl),
      )
      refl

module _ (garbage : Bool) (d : ℕ) (x : Delegate) (h : Hub) (valid : Valid h)
    (here : get_elem? h.delegates d ≡ some x) where
  fresh_place : length h.subscribers < length (h.subscribers ++ (blank garbage ∷ []))
  fresh_place = omega (arith, length-append h.subscribers (blank garbage ∷ []))

  pub joined-new :
      get_elem? (joined garbage d x h).subscribers (length h.subscribers)
      ≡ some (assigned d (blank garbage))
  joined-new = get_elem?-set_self _ (length h.subscribers) _ fresh_place

  joined-old :
      (i : ℕ) {u : Subscriber}
      → get_elem? h.subscribers i ≡ some u
      → get_elem? (joined garbage d x h).subscribers i ≡ some u
  joined-old i e =
      get_elem?-set_ne (h.subscribers ++ (blank garbage ∷ [])) _
        (let low = get_elem?-lt h.subscribers i e in omega arith)
      ∙ get_elem?-append_some h.subscribers (blank garbage ∷ []) i e

  joined-members : members (joined garbage d x h) d ≡ insert (length h.subscribers) x.subscribers
  unfolding members members_of
  joined-members =
      rw
        (get_elem?-set_self h.delegates d
          (record x { subscribers = insert (length h.subscribers) x.subscribers })
          (get_elem?-lt h.delegates d here))
        refl

  joined-members_ne : (e : ℕ) → d ≢ e → members (joined garbage d x h) e ≡ members h e
  unfolding members members_of
  joined-members_ne e other = ap members_of (get_elem?-set_ne h.delegates _ other)

  members_here : members h d ≡ x.subscribers
  unfolding members members_of
  members_here = rw here refl

  old-Belongs :
      (e s : ℕ) → Belongs h.subscribers e s → Belongs (joined garbage d x h).subscribers e s
  old-Belongs e s (u, at, alive, mine) = (u, joined-old s at, alive, mine)

  joined-belong :
      (e s : ℕ)
      → elem s (members (joined garbage d x h) e) ≡ true
      → Belongs (joined garbage d x h).subscribers e s
  unfolding assigned
  joined-belong e s m = elim (ℕ_discrete d e) [
    | no other ↦
        old-Belongs e s
          (valid.members_belong e s (ap (elem s) (sym (joined-members_ne e other)) ∙ m))
    | yes same ↦ elim (ℕ_discrete (length h.subscribers) s) [
      | yes new ↦ rw (sym same, sym new) (assigned d (blank garbage), joined-new, refl, refl)
      | no old ↦
          let before : elem s (members h e) ≡ true =
            rw (sym same, members_here)
              (sym (elem-insert_ne (length h.subscribers) s x.subscribers old)
                ∙ ap (elem s) (sym joined-members)
                ∙ ap (λ k. elem s (members (joined garbage d x h) k)) same
                ∙ m) in
          old-Belongs e s (valid.members_belong e s before)
    ]
  ]

  pub joined-Valid : Valid (joined garbage d x h)
  joined-Valid = record {
    topics_right = λ t e f. elim (ℕ_discrete d e) [
      | no other ↦
          let old = valid.topics_right t e f in
          (old.0, get_elem?-set_ne h.delegates _ other ∙ old.1, old.2)
      | yes same ↦
          let old = valid.topics_right t e f in
          let is_x : old.0 ≡ x =
            some_injective (sym old.1 ∙ ap (get_elem? h.delegates) (sym same) ∙ here) in
          (
            record x { subscribers = insert (length h.subscribers) x.subscribers },
            rw (sym same) (get_elem?-set_self h.delegates d _ (get_elem?-lt h.delegates d here)),
            ap (λ y. y.topic) (sym is_x) ∙ old.2,
          )
    ];
    members_belong = joined-belong;
  }

-- In a well-formed hub the constructor of a subscriber succeeds, whatever `stop_` held before: the
-- hub stays well formed, `GetOrNew` of the topic still finds the same delegate, and the new
-- subscriber is one of its members, not stopped and with no buffer.
pub subscribe-Valid :
    (garbage : Bool) (t : ℕ) (h : Hub)
    → Valid h
    → (s d : ℕ) × (h' : Hub) × (subscribe garbage t h ≡ some (s, h'))
      × (get_or_new h' t ≡ (d, h'))
      × (elem s (members h' d) ≡ true)
      × (get_elem? h'.subscribers s
          ≡ some (record { publisher = some d; buffer = none; stop = false; alive = true }))
      × Valid h'
unfolding assigned
subscribe-Valid garbage t h valid =
    let h1 = (get_or_new h t).1 in
    let d = (get_or_new h t).0 in
    let (x, here, top) = get_or_new_found h t valid in
    (
      length h1.subscribers,
      d,
      joined garbage d x h1,
      subscribe_lem garbage t h x here,
      get_or_new_hit (joined garbage d x h1) t d (get_or_new_topic h t),
      ap (elem (length h1.subscribers))
            (joined-members garbage d x h1 (get_or_new-Valid h t valid) here)
          ∙ elem-insert_self (length h1.subscribers) x.subscribers,
      joined-new garbage d x h1 (get_or_new-Valid h t valid) here,
      joined-Valid garbage d x h1 (get_or_new-Valid h t valid) here,
    )
