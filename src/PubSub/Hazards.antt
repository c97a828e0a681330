-- ===== src/PubSub/Hazards.antt =====
-- `Stop` of a publisher in message.hpp, before and after other operations.
use code_c.Base.{
  some_injective, ℕ, ◌+◌, ◌≡◌, ◌≢◌, refl, ap, sym, subst, ◌∙◌, true, false, none, some, List, [],
  ◌∷◌, arith, get_elem?, set, length, ℕ_discrete, Bool-cases, Option-cases, inl, inr,
  get_elem?-set_self, get_elem?-set_ne, get_elem?-lt, get_elem?-append_some, length-append,
}
use code_c.PubSub.{
  Buffer, Delegate, Subscriber, Hub, members, get_or_new, found_or_new, holding, stopping, publish,
  stop_delegate, elem, find, destroy, destroy_found, destroyed, dying, touch, touch_found,
  touch_all,
}
use code_c.PubSub.Touch.{touch_lem}
use code_c.PubSub.Valid.{Valid, stop_delegate_lem, get_or_new-Valid}

abbrev Dead : List Subscriber → ℕ → Type 0
Dead us s = (u : Subscriber) × (get_elem? us s ≡ some u) × (u.alive ≡ false)

-- A set with a destroyed subscriber in it cannot be gone through.
module _ (f : Subscriber → Subscriber) where
  touch_gone : (us : List Subscriber) (s : ℕ) → Dead us s → touch f s us ≡ none
  unfolding touch touch_found
  touch_gone us s (u, here, dead) = rw (here, dead) refl

  touch_written :
      (us vs : List Subscriber) (i : ℕ)
      → touch f i us ≡ some vs
      → (w : Subscriber) × (set us i (f w) ≡ vs)
  unfolding touch touch_found
  touch_written us vs i e = elim (Option-cases (get_elem? us i)) [
    | inl n ↦ let stuck : none ≡ some vs = sym (rw n refl) ∙ e in absurd (grind arith)
    | inr (w, n) ↦ elim (Bool-cases w.alive) [
      | inl a ↦ (w, some_injective (sym (rw (n, a) refl) ∙ e))
      | inr a ↦ let stuck : none ≡ some vs = sym (rw (n, a) refl) ∙ e in absurd (grind arith)
    ]
  ]

  touch-Dead :
      (us vs : List Subscriber) (i s : ℕ) → i ≢ s → touch f i us ≡ some vs → Dead us s → Dead vs s
  touch-Dead us vs i s other e (u, here, dead) =
      let (w, wrote) = touch_written us vs i e in
      (u, ap (λ v. get_elem? v s) (sym wrote) ∙ get_elem?-set_ne us (f w) other ∙ here, dead)

  touch_all_gone :
      (ss : List ℕ) (us : List Subscriber) (s : ℕ)
      → elem s ss ≡ true
      → Dead us s
      → touch_all f ss us ≡ none
  unfolding touch_all elem
  touch_all_gone [] us s m dead = absurd (grind arith)
  touch_all_gone (i ∷ ss) us s m dead = elim (ℕ_discrete i s) [
    | yes same ↦ rw (same, touch_gone us s dead) refl
    | no other ↦ elim (Option-cases (touch f i us)) [
      | inl n ↦ rw n refl
      | inr (vs, e) ↦
          rw e (touch_all_gone ss vs s (ground arith) (touch-Dead us vs i s other e dead))
    ]
  ]

-- `Stop` of a publisher, and then the destruction of one of its subscribers, leave the subscriber in
-- the set of the delegate, since the destructor takes a stopped subscriber for one that has left: in
-- a well-formed hub both succeed, and then `Publish` and `Stop` of the publisher reach the destroyed
-- subscriber.
pub stop_destroy_dangles :
    (h : Hub) (d s : ℕ) (x : Delegate) (b : Buffer)
    → Valid h
    → get_elem? h.delegates d ≡ some x
    → elem s (members h d) ≡ true
    → (h1 h2 : Hub) × (stop_delegate d h ≡ some h1)
      × (destroy s h1 ≡ some h2)
      × (publish d b h2 ≡ none)
      × (stop_delegate d h2 ≡ none)
unfolding destroy destroy_found destroyed stopping dying publish stop_delegate members
stop_destroy_dangles h d s x b valid here inside =
    let (u, at, alive, mine) = valid.members_belong d s inside in
    let (h1, ends, t, gone, others, same, valid1) = stop_delegate_lem h d x valid here in
    let at1 : get_elem? h1.subscribers s ≡ some (stopping u) = t s ∙ rw (inside, at) refl in
    let dead : Dead (set h1.subscribers s (dying (stopping u))) s = (
      dying (stopping u),
      get_elem?-set_self h1.subscribers s (dying (stopping u)) (get_elem?-lt h1.subscribers s at1),
      refl,
    ) in
    let still : elem s (members h1 d) ≡ true = rw same inside in
    (
      h1,
      record h1 { subscribers = set h1.subscribers s (dying (stopping u)) },
      ends,
      rw at1 (rw (touch_lem dying s h1.subscribers (stopping u, at1, alive)) refl),
      rw
          (touch_all_gone (holding b) (members h1 d) (set h1.subscribers s (dying (stopping u))) s
            still dead)
          refl,
      rw
          (touch_all_gone stopping (members h1 d) (set h1.subscribers s (dying (stopping u))) s
            still dead)
          refl,
    )

stop_topic :
    (h : Hub) (t d : ℕ) (x : Delegate)
    → Valid h
    → get_elem? h.delegates d ≡ some x
    → x.topic ≡ t
    → (h' : Hub) × (stop_delegate d h ≡ some h')
      × (find t h'.topics ≡ none)
      × (h'.delegates ≡ h.delegates)
      × Valid h'
stop_topic h t d x valid here top =
    let (h', ends, touched, gone, others, same, valid') = stop_delegate_lem h d x valid here in
    (h', ends, subst (λ k. find k h'.topics ≡ none) top gone, same, valid')

fresh_delegate :
    (h : Hub) (t : ℕ) → find t h.topics ≡ none → (get_or_new h t).0 ≡ length h.delegates
unfolding get_or_new found_or_new
fresh_delegate h t e = rw e refl

grown :
    (h : Hub) (t : ℕ)
    → find t h.topics ≡ none
    → length (get_or_new h t).1.delegates ≡ length h.delegates + 1
unfolding get_or_new found_or_new
grown h t e = rw e (length-append h.delegates (record { topic = t; subscribers = [] } ∷ []))

kept :
    (h : Hub) (t d : ℕ) (x : Delegate)
    → find t h.topics ≡ none
    → get_elem? h.delegates d ≡ some x
    → get_elem? (get_or_new h t).1.delegates d ≡ some x
unfolding get_or_new found_or_new
kept h t d x e here = rw e (get_elem?-append_some h.delegates _ d here)

-- A publisher that is stopped twice, as `Stop` and then the destructor do, takes the topic away from
-- a publisher made in between: in a well-formed hub where the topic has a delegate, stopping that
-- delegate succeeds, `GetOrNew` then gives the topic another delegate, stopping the first again
-- succeeds too, and after it `GetOrNew` gives the topic a delegate that is not the second.
pub second_stop_takes_topic :
    (h : Hub) (t d : ℕ)
    → Valid h
    → find t h.topics ≡ some d
    → (h1 h3 : Hub) × (stop_delegate d h ≡ some h1)
      × ((get_or_new h1 t).0 ≢ d)
      × (stop_delegate d (get_or_new h1 t).1 ≡ some h3)
      × ((get_or_new h3 t).0 ≢ (get_or_new h1 t).0)
second_stop_takes_topic h t d valid found =
    let (x, here, top) = valid.topics_right t d found in
    let (h1, ends, gone, same, valid1) = stop_topic h t d x valid here top in
    let here1 : get_elem? h1.delegates d ≡ some x = ap (λ ds. get_elem? ds d) same ∙ here in
    let (h3, ends3, gone3, same3, valid3) =
      stop_topic (get_or_new h1 t).1 t d x (get_or_new-Valid h1 t valid1) (kept h1 t d x gone here1)
        top in
    (
      h1,
      h3,
      ends,
      (let low = get_elem?-lt h1.delegates d here1 in omega (arith, fresh_delegate h1 t gone)),
      ends3,
      omega (
        arith,
        fresh_delegate h1 t gone,
        fresh_delegate h3 t gone3,
        ap (λ ds. length ds) same3,
        grown h1 t gone,
      ),
    )
