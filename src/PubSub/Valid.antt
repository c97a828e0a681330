-- ===== src/PubSub/Valid.antt =====
-- Well-formed hubs, and `GetOrNew`, `Publish` and `Stop` of a publisher on them.
use code_c.Base.{
  some_injective, ℕ, ◌≡◌, ◌≢◌, refl, ap, sym, ◌∙◌, true, none, some, Option-cases, Bool-cases, inl,
  inr, List, [], ◌∷◌, ◌++◌, ℕ_discrete, arith, length, get_elem?, get_elem?-length,
  get_elem?-append_last, get_elem?-append_ne, get_elem?-append_some,
}
use code_c.PubSub.{
  Buffer, Delegate, Subscriber, Hub, find, erase_topic, elem, members, members_of, get_or_new,
  found_or_new, holding, stopping, publish, stop_delegate, topic_of,
}
use code_c.PubSub.Sets.{find-erase_self, find-erase_ne, find-cons_self, find-cons_ne}
use code_c.PubSub.Touch.{Live, Touched, touch_all_lem}

-- Subscriber `s` is alive and belongs to delegate `d`.
abbrev pub Belongs : List Subscriber → ℕ → ℕ → Type 0
Belongs us d s =
    (u : Subscriber) × (get_elem? us s ≡ some u) × (u.alive ≡ true) × (u.publisher ≡ some d)

-- The delegate found under a topic has that topic, and the members of a delegate belong to it.
pub record Valid (h : Hub) : Type 0 where
  pub topics_right :
      (t d : ℕ)
      → find t h.topics ≡ some d
      → (x : Delegate) × (get_elem? h.delegates d ≡ some x) × (x.topic ≡ t)
  pub members_belong : (d s : ℕ) → elem s (members h d) ≡ true → Belongs h.subscribers d s

pub empty-Valid : Valid (record { topics = []; delegates = []; subscribers = [] })
unfolding find members members_of elem
empty-Valid = record {
  topics_right = λ t d e. absurd (grind arith);
  members_belong = λ d s m. absurd (grind arith);
}

pub members_appended :
    (ds : List Delegate) (t d : ℕ)
    → members_of (get_elem? (ds ++ (record { topic = t; subscribers = [] } ∷ [])) d)
      ≡ members_of (get_elem? ds d)
unfolding members_of
members_appended ds t d = elim (ℕ_discrete d (length ds)) [
  | yes same ↦
      rw
        (
          same,
          get_elem?-append_last ds (record { topic = t; subscribers = [] }),
          get_elem?-length ds,
        )
        refl
  | no other ↦ rw (get_elem?-append_ne ds (record { topic = t; subscribers = [] }) d other) refl
]

-- What `GetOrNew` finds or makes.
pub get_or_new_found :
    (h : Hub) (t : ℕ)
    → Valid h
    → let (d, h') = get_or_new h t in
      (x : Delegate) × (get_elem? h'.delegates d ≡ some x) × (x.topic ≡ t)
unfolding get_or_new found_or_new
get_or_new_found h t valid = elim (Option-cases (find t h.topics)) [
  | inl e ↦ rw e (
    record { topic = t; subscribers = [] },
    get_elem?-append_last h.delegates (record { topic = t; subscribers = [] }),
    refl,
  )
  | inr (d, e) ↦ rw e (valid.topics_right t d e)
]

pub get_or_new-Valid : (h : Hub) (t : ℕ) → Valid h → Valid (get_or_new h t).1
unfolding get_or_new found_or_new find members
get_or_new-Valid h t valid = elim (Option-cases (find t h.topics)) [
  | inr (d, e) ↦ rw e valid
  | inl e ↦ rw e (record {
    topics_right = λ u d f. elim (ℕ_discrete t u) [
      | yes same ↦
          let at : d ≡ length h.delegates =
            some_injective (sym f ∙ find-cons_self t u (length h.delegates) h.topics same) in
          rw at (
            record { topic = t; subscribers = [] },
            get_elem?-append_last h.delegates (record { topic = t; subscribers = [] }),
            same,
          )
      | no other ↦
          let old =
            valid.topics_right u d
              (sym (find-cons_ne t u (length h.delegates) h.topics other) ∙ f) in
          (old.0, get_elem?-append_some h.delegates _ d old.1, old.2)
    ];
    members_belong = λ d s m.
        valid.members_belong d s (ap (elem s) (sym (members_appended h.delegates t d)) ∙ m);
  })
]

-- A change of subscribers that keeps them alive and where they belong.
pub Touched-Belongs :
    (f : Subscriber → Subscriber)
    → ((u : Subscriber) → (f u).alive ≡ u.alive)
    → ((u : Subscriber) → (f u).publisher ≡ u.publisher)
    → (ss : List ℕ) (us vs : List Subscriber) (d s : ℕ) → Touched f ss us vs
    → Belongs us d s
    → Belongs vs d s
Touched-Belongs f lives stays ss us vs d s t (u, here, alive, mine) =
    elim (Bool-cases (elem s ss)) [
      | inl m ↦ (f u, t s ∙ rw (m, here) refl, lives u ∙ alive, stays u ∙ mine)
      | inr m ↦ (u, t s ∙ rw m here, alive, mine)
    ]

pub Belongs-Live : (us : List Subscriber) (d s : ℕ) → Belongs us d s → Live us s
Belongs-Live us d s (u, here, alive, mine) = (u, here, alive)

-- `Publish` in a well-formed hub reaches no destroyed subscriber: it changes the members of the
-- delegate, each of which holds the buffer afterwards, and nothing else, and the hub stays well formed.
pub publish_lem :
    (h : Hub) (d : ℕ) (b : Buffer)
    → Valid h
    → (vs : List Subscriber) × (publish d b h ≡ some (record h { subscribers = vs }))
      × Touched (holding b) (members h d) h.subscribers vs
      × Valid (record h { subscribers = vs })
unfolding publish holding members
publish_lem h d b valid =
    let (vs, ends, t) =
      touch_all_lem (holding b) (λ u. refl) (λ u. refl) (members h d) h.subscribers
        (λ i m. Belongs-Live h.subscribers d i (valid.members_belong d i m)) in
    (
      vs,
      rw ends refl,
      t,
      record {
        topics_right = valid.topics_right;
        members_belong = λ e s m.
            Touched-Belongs (holding b) (λ u. refl) (λ u. refl) (members h d) h.subscribers vs e s t
              (valid.members_belong e s m);
      },
    )

-- `Stop` of a publisher in a well-formed hub reaches no destroyed subscriber: the members of the
-- delegate are told to stop, its topic is found no more, other topics as before, and the hub stays well formed.
pub stop_delegate_lem :
    (h : Hub) (d : ℕ) (x : Delegate)
    → Valid h
    → get_elem? h.delegates d ≡ some x
    → (h' : Hub) × (stop_delegate d h ≡ some h')
      × Touched stopping (members h d) h.subscribers h'.subscribers
      × (find x.topic h'.topics ≡ none)
      × ((t : ℕ) → x.topic ≢ t → find t h'.topics ≡ find t h.topics)
      × (h'.delegates ≡ h.delegates)
      × Valid h'
unfolding stop_delegate stopping members topic_of
stop_delegate_lem h d x valid here =
    let (vs, ends, t) =
      touch_all_lem stopping (λ u. refl) (λ u. refl) (members h d) h.subscribers
        (λ i m. Belongs-Live h.subscribers d i (valid.members_belong d i m)) in
    (
      record h { topics = erase_topic x.topic h.topics; subscribers = vs },
      rw (ends, here) refl,
      t,
      find-erase_self x.topic h.topics,
      λ u other. find-erase_ne x.topic u h.topics other,
      refl,
      record {
        topics_right = λ u e f. elim (ℕ_discrete x.topic u) [
          | yes same ↦
              let gone : find u (erase_topic x.topic h.topics) ≡ none =
                rw (sym same) (find-erase_self x.topic h.topics) in
              absurd (grind (arith, gone, f))
          | no other ↦ valid.topics_right u e (sym (find-erase_ne x.topic u h.topics other) ∙ f)
        ];
        members_belong = λ e s m.
            Touched-Belongs stopping (λ u. refl) (λ u. refl) (members h d) h.subscribers vs e s t
              (valid.members_belong e s m);
      },
    )

-- The table holds what `GetOrNew` returned, and what it holds is found again, with no change.
pub get_or_new_topic : (h : Hub) (t : ℕ) → let (d, h') = get_or_new h t in find t h'.topics ≡ some d
unfolding get_or_new found_or_new
get_or_new_topic h t = elim (Option-cases (find t h.topics)) [
  | inl e ↦ rw e (find-cons_self t t (length h.delegates) h.topics refl)
  | inr (d, e) ↦ rw e e
]

pub get_or_new_hit : (h : Hub) (t d : ℕ) → find t h.topics ≡ some d → get_or_new h t ≡ (d, h)
unfolding get_or_new found_or_new
get_or_new_hit h t d e = rw e refl
