-- ===== src/PubSub/Deliver.antt =====
-- What subscribers receive.
use mathlib.Core.Option
use code_c.Base.{
  ℕ, ◌<◌, ◌≡◌, refl, ap, sym, ◌∙◌, Bool, true, false, Option, none, some, if◌then◌else◌, ◌==◌,
  arith, get_elem?, get_elem?-ext, ◌>>=◌,
}
use code_c.PubSub.{
  Buffer, Subscriber, Hub, members, get_or_new, holding, publish, elem, subscribe, turn, called,
  calls, waits_or_takes, woken,
}
use code_c.PubSub.Valid.{Valid, publish_lem}
use code_c.PubSub.Subscribe.{subscribe-Valid}

held_twice :
    (m : Bool) (a b : Buffer) (o : Option Subscriber)
    → (if m
        then Option.map (holding b) (if m then Option.map (holding a) o else o)
        else (if m then Option.map (holding a) o else o))
      ≡ (if m then Option.map (holding b) o else o)
unfolding holding
held_twice false a b o = refl
held_twice true a b none = refl
held_twice true a b (some u) = refl

-- A subscriber that has not taken a buffer loses it to the next one: in a well-formed hub,
-- publishing two buffers at once does what publishing the second does.
publish_latest :
    (h : Hub) (d : ℕ) (a b : Buffer) → Valid h → (publish d a h >>= publish d b) ≡ publish d b h
unfolding members
publish_latest h d a b valid =
    let (v1, e1, t1, valid1) = publish_lem h d a valid in
    let (v2, e2, t2, valid2) = publish_lem (record h { subscribers = v1 }) d b valid1 in
    let (v3, e3, t3, valid3) = publish_lem h d b valid in
    let same : v2 ≡ v3 = get_elem?-ext v2 v3 (λ i.
      t2 i
      ∙ ap (λ o. if elem i (members h d) then Option.map (holding b) o else o) (t1 i)
      ∙ held_twice (elem i (members h d)) a b (get_elem? h.subscribers i)
      ∙ sym (t3 i)) in
    ap (λ r. r >>= publish d b) e1
    ∙ e2
    ∙ ap (λ v. some (record h { subscribers = v })) same
    ∙ sym e3

-- A subscriber of a topic gets what is published on the topic: in a well-formed hub the constructor
-- succeeds, `GetOrNew` gives the publisher of the topic its delegate, publishing there a buffer whose
-- `data_` is not null succeeds, and the next round of the subscriber calls back with the buffer and
-- leaves none behind.
pub subscriber_gets :
    (garbage : Bool) (t : ℕ) (h : Hub) (b : Buffer)
    → Valid h
    → 0 < b.data_at
    → (s : ℕ) × (h1 h2 : Hub) × (u : Subscriber) × (subscribe garbage t h ≡ some (s, h1))
      × (publish (get_or_new h1 t).0 b h1 ≡ some h2)
      × (get_elem? h2.subscribers s ≡ some u)
      × (turn u ≡ (calls b, record u { buffer = none }))
unfolding turn waits_or_takes woken called holding
subscriber_gets garbage t h b valid real =
    let (s, d, h1, made, found, inside, new, valid1) = subscribe-Valid garbage t h valid in
    let (vs, sent, t1, valid2) = publish_lem h1 d b valid1 in
    (
      s,
      h1,
      record h1 { subscribers = vs },
      record { publisher = some d; buffer = some b; stop = false; alive = true },
      made,
      rw found sent,
      t1 s ∙ rw (inside, new) refl,
      (let given : (b.data_at == 0) ≡ false = ground arith in rw given refl),
    )
