-- ===== src/AsyncMessage/Latest.antt =====
-- What a subscriber in message.hpp receives.
use code_c.Base.{
  ℕ, ◌≡◌, ◌≢◌, refl, ◌∙◌, true, false, some, List, [], ◌∷◌, arith, inl, inr, Bool-cases,
}
use code_c.AsyncMessage.{
  Loop, idle, began, loads, leaves, Subscriber, new_subscriber, post_begins, post_ends, told,
  stop_sent, tested, with_buffer, loaded, Step, stores, posts, stops, sends_stop, begins, tests,
  calls, erased, Reach, start, later, Finishing, Finish, rests, more,
}

-- The newest buffer given to the callback is `b`.
abbrev pub Newest : ℕ → List ℕ → Type 0
Newest b [] = ⊥
Newest b (x ∷ xs) = x ≡ b

-- Nothing is on its way to the loop.
abbrev pub Quiet : Subscriber → Type 0
Quiet s = (s.loop ≡ idle) × (s.sent ≡ false) × (s.posting ≡ false)

-- What was post_begins was called back, is on its way, or is stopped; a subscriber that is not stopped is
-- in the set and open, and one that is stopped is closed or will look at `stop_`.
pub record Inv (s : Subscriber) : Type 0 where
  pub called : Quiet s → s.stop ≡ false → (b : ℕ) → s.buffer ≡ some b → Newest b s.received
  pub open_inside : s.stop ≡ false → (s.inside ≡ true) × (s.closed ≡ false) × (s.loop ≢ leaves)
  pub noticed : s.stop ≡ true → s.closed ≡ false → s.stopping ≡ 0 → s.sent ≡ false → s.loop ≡ began
  pub closes : s.closed ≡ true → (s.stop ≡ true) × (s.loop ≢ began) × (s.loop ≢ loads)
  pub leaving : s.loop ≡ leaves → s.closed ≡ true
  pub outside : s.inside ≡ false → s.closed ≡ true
  pub left : s.closed ≡ true → s.loop ≢ leaves → s.inside ≡ false
  pub posts_inside : s.posting ≡ true → s.inside ≡ true

new_subscriber-Inv : Inv new_subscriber
unfolding new_subscriber
new_subscriber-Inv = ground arith

pub Step-Inv : {s t : Subscriber} → Step s t → Inv s → Inv t
unfolding post_begins post_ends told stop_sent tested loaded with_buffer
Step-Inv (stores b i p) h = ground arith
Step-Inv (posts p) h = ground arith
Step-Inv stops h = ground arith
Step-Inv (sends_stop n e) h = ground arith
Step-Inv (begins l n c) h = ground arith
Step-Inv {s} (tests l) h = ground arith
Step-Inv {s} (calls l) h = ground arith
Step-Inv (erased l p) h = ground arith

pub Reach-Inv : {s : Subscriber} → Reach new_subscriber s → Inv s
Reach-Inv start = new_subscriber-Inv
Reach-Inv (later r st) = Step-Inv st (Reach-Inv r)

pub Finish-Inv : {s t : Subscriber} → Finish s t → Inv s → Inv t
Finish-Inv rests h = h
Finish-Inv (more f st i) h = Step-Inv st (Finish-Inv f h)

pub Finish-trans : {s t u : Subscriber} → Finish s t → Finish t u → Finish s u
Finish-trans f rests = f
Finish-trans f (more g st i) = more (Finish-trans f g) st i

-- What was begun is finished, with the buffer of before, and the subscriber is not stopped.
abbrev Settles : Subscriber → Type 0
Settles s = (t : Subscriber) × Finish s t × Quiet t × (t.buffer ≡ s.buffer) × (t.stop ≡ false)

before :
    {s t : Subscriber} (st : Step s t) → Finishing st → t.buffer ≡ s.buffer → Settles t → Settles s
before st i e (u, f, q, b, go) = (u, Finish-trans (more rests st i) f, q, b ∙ e, go)

idle_settles :
    (s : Subscriber)
    → s.loop ≡ idle
    → s.posting ≡ false
    → s.closed ≡ false
    → s.stop ≡ false
    → Settles s
unfolding loaded tested
idle_settles s l p c st = elim (Bool-cases s.sent) [
  | inr quiet ↦ (s, rests, (l, quiet, p), refl, st)
  | inl n ↦ before (begins l n c) tt refl (
      before (tests refl) tt refl
        (before (calls (rw st refl)) tt refl (_, rests, (refl, refl, p), refl, st)))
]

loop_settles :
    (s : Subscriber) (l : Loop)
    → s.loop ≡ l
    → l ≢ leaves
    → s.posting ≡ false
    → s.closed ≡ false
    → s.stop ≡ false
    → Settles s
unfolding loaded tested
loop_settles s idle e ne p c st = idle_settles s e p c st
loop_settles s began e ne p c st =
    before (tests e) tt refl
      (before (calls (rw st refl)) tt refl (idle_settles _ refl p (rw st c) st))
loop_settles s loads e ne p c st = before (calls e) tt refl (idle_settles _ refl p c st)
loop_settles s leaves e ne p c st = absurd (ne refl)

settles : (s : Subscriber) → Inv s → s.stop ≡ false → Settles s
unfolding post_ends
settles s h st =
    let (i, c, ne) = h.open_inside st in
    elim (Bool-cases s.posting) [
      | inl p ↦ before (posts p) tt refl (loop_settles (post_ends s) s.loop refl ne refl c st)
      | inr p ↦ loop_settles s s.loop refl ne p c st
    ]

-- The latest message arrives: whatever happened since the subscriber was made, when it is not stopped
-- and buffer `b` was post_begins last, then steps that finish what was begun lead to a state where nothing
-- is on its way to the loop and `b` is the newest buffer that `callback_` was given.
pub latest_called :
    (s : Subscriber) (b : ℕ)
    → Reach new_subscriber s
    → s.stop ≡ false
    → s.buffer ≡ some b
    → (t : Subscriber) × Finish s t × Quiet t × Newest b t.received
latest_called s b r st e =
    let h = Reach-Inv r in
    let (t, f, q, same, on) = settles s h st in (t, f, q, (Finish-Inv f h).called q on b (same ∙ e))
