-- ===== src/AsyncMessage/Leaves.antt =====
-- How a subscriber in message.hpp leaves, and its destructor.
use code_c.Base.{ℕ, zero, suc, ◌≡◌, refl, ◌∙◌, true, false, arith, inl, inr, Bool-cases}
use code_c.AsyncMessage.{
  Loop, idle, began, loads, leaves, Subscriber, new_subscriber, post_begins, post_ends, told,
  stop_sent, tested, loaded, destroyed, Step, stores, posts, stops, sends_stop, begins, tests,
  calls, erased, Reach, start, later, Finishing, Finish, rests, more,
}
use code_c.AsyncMessage.Latest.{Inv, Step-Inv, Reach-Inv, Finish-trans}

-- What was begun is finished, and the subscriber has left.
abbrev pub Leaves : Subscriber → Type 0
Leaves s = (t : Subscriber) × Finish s t × (t.closed ≡ true) × (t.inside ≡ false)

before : {s t : Subscriber} (st : Step s t) → Finishing st → Leaves t → Leaves s
before st i (u, f, c, out) = (u, Finish-trans (more rests st i) f, c, out)

closed_leaves :
    (s : Subscriber) (l : Loop)
    → s.loop ≡ l
    → Inv s
    → s.posting ≡ false
    → s.closed ≡ true
    → Leaves s
closed_leaves s leaves e h p c =
    (record s { loop = idle; inside = false }, more rests (erased e p) tt, c, refl)
closed_leaves s idle e h p c = (s, rests, c, ground (arith, h.left c))
closed_leaves s began e h p c = absurd (ground (arith, h.closes c))
closed_leaves s loads e h p c = absurd (ground (arith, h.closes c))

began_leaves :
    (s : Subscriber) → s.loop ≡ began → Inv s → s.posting ≡ false → s.stop ≡ true → Leaves s
unfolding tested
began_leaves s e h p st =
    before (tests e) tt
      (closed_leaves (tested s) leaves (rw st refl) (Step-Inv (tests e) h) p (rw st refl))

sent_leaves :
    (s : Subscriber)
    → s.loop ≡ idle
    → Inv s
    → s.posting ≡ false
    → s.stop ≡ true
    → s.closed ≡ false
    → s.sent ≡ true
    → Leaves s
sent_leaves s e h p st c n =
    let on = begins e n c in before on tt (began_leaves _ refl (Step-Inv on h) p st)

open_leaves :
    (s : Subscriber) (l : Loop)
    → s.loop ≡ l
    → Inv s
    → s.posting ≡ false
    → s.stop ≡ true
    → s.stopping ≡ 0
    → s.closed ≡ false
    → Leaves s
unfolding loaded
open_leaves s idle e h p st z c = elim (Bool-cases s.sent) [
  | inl n ↦ sent_leaves s e h p st c n
  | inr n ↦ absurd (ground (arith, h.noticed st c z n))
]
open_leaves s began e h p st z c = began_leaves s e h p st
open_leaves s loads e h p st z c = elim (Bool-cases s.sent) [
  | inl n ↦ before (calls e) tt (sent_leaves _ refl (Step-Inv (calls e) h) p st c n)
  | inr n ↦ absurd (ground (arith, h.noticed st c z n))
]
open_leaves s leaves e h p st z c = absurd (ground (arith, h.leaving e))

-- Once nobody is between the setting of `stop_` and the send.
told_leaves :
    (n : ℕ) (s : Subscriber) → s.stopping ≡ n → Inv s → s.posting ≡ false → s.stop ≡ true → Leaves s
unfolding stop_sent
told_leaves zero s z h p st = elim (Bool-cases s.closed) [
  | inl c ↦ closed_leaves s s.loop refl h p c
  | inr c ↦ open_leaves s s.loop refl h p st z c
]
told_leaves (suc n) s e h p st =
    let on = sends_stop n e in before on tt (told_leaves n _ refl (Step-Inv on h) p st)

finally_leaves : (s : Subscriber) → Inv s → s.stop ≡ true → Leaves s
unfolding post_ends
finally_leaves s h st = elim (Bool-cases s.posting) [
  | inr p ↦ told_leaves s.stopping s refl h p st
  | inl p ↦
      before (posts p) tt (told_leaves s.stopping (post_ends s) refl (Step-Inv (posts p) h) refl st)
]

closed_step :
    {s t : Subscriber}
    → Step s t
    → Inv s
    → s.closed ≡ true
    → (t.closed ≡ true) × (t.received ≡ s.received)
unfolding post_begins post_ends told stop_sent tested loaded
closed_step (stores b i p) h c = (c, refl)
closed_step (posts p) h c = (c, refl)
closed_step stops h c = (c, refl)
closed_step (sends_stop n e) h c = (c, refl)
closed_step (begins l n o) h c = (c, refl)
closed_step (tests l) h c = absurd (ground (arith, h.closes c))
closed_step (calls l) h c = absurd (ground (arith, h.closes c))
closed_step (erased l p) h c = (c, refl)

Reach-trans : {s t u : Subscriber} → Reach s t → Reach t u → Reach s u
Reach-trans r start = r
Reach-trans r (later q st) = later (Reach-trans r q) st

-- A closed subscriber stays closed, and `callback_` gets nothing more.
closed_stays :
    {s t : Subscriber}
    → Reach new_subscriber s
    → s.closed ≡ true
    → Reach s t
    → (t.closed ≡ true) × (t.received ≡ s.received)
closed_stays r c start = (c, refl)
closed_stays r c (later q st) =
    let (shut, same) = closed_stays r c q in
    let (shut', same') = closed_step st (Reach-Inv (Reach-trans r q)) shut in (shut', same' ∙ same)

finished : {s t u : Subscriber} → Reach s t → Finish t u → Reach s u
finished r rests = r
finished r (more f st i) = later (finished r f) st

-- A stopped subscriber leaves: whatever happened since it was made, when its `stop_` is set, then
-- steps that finish what was begun lead to a state where it is closed and not in the set, and
-- whatever happens from there on, `callback_` gets nothing more.
pub stop_leaves :
    (s : Subscriber)
    → Reach new_subscriber s
    → s.stop ≡ true
    → (t : Subscriber) × Finish s t
      × (t.closed ≡ true)
      × (t.inside ≡ false)
      × ((u : Subscriber) → Reach t u → u.received ≡ t.received)
stop_leaves s r st =
    let (t, f, c, out) = finally_leaves s (Reach-Inv r) st in
    (t, f, c, out, λ u q. (closed_stays (finished r f) c q).1)

-- The destructor of an open subscriber leaves it to others: whatever happened since it was made, when
-- it is not closed, the destroyed subscriber is still in the set that `Publish` goes through, and
-- when its `stop_` was not set, a callback that reads `stop_` of the destroyed subscriber is to come.
pub destructor_dangles :
    (s : Subscriber)
    → Reach new_subscriber s
    → s.closed ≡ false
    → ((destroyed s).alive ≡ false)
      × ((destroyed s).inside ≡ true)
      × ((destroyed s).closed ≡ false)
      × (s.stop ≡ false → (destroyed s).sent ≡ true)
unfolding destroyed
destructor_dangles s r c = ground (arith, (Reach-Inv r).outside)
