-- ===== src/Timers/Kept.antt =====
-- What libuv calls when a timer of component.h runs out.
use code_c.Base.{
  ℕ, suc, ◌+◌, ◌-◌, ◌/◌, ◌≡◌, ◌≤◌, ◌<◌, refl, ap, ap₂, ◌∙◌, sym, subst, true, false, some, List, [],
  ◌∷◌, ◌++◌, ◌==◌, arith, length, length-append, get_elem?, map, append_assoc, append-nil,
}
use code_c.Timers.{
  Timer, Handle, Component, new_component, push_back, started, add_timer, on_time_out,
}

-- A call of `AddTimer`, and several one after the other.
pub record Request : Type 0 where
  pub period_us : ℕ
  pub one_shot : ℕ
  pub proc : ℕ
  pub priv : ℕ

abbrev pub adds : (ℕ → ℕ) → Request → Component → Component
adds grow r c = (add_timer grow r.period_us r.one_shot r.proc r.priv c).1

unfoldable pub add_all : (ℕ → ℕ) → List Request → Component → Component
add_all grow [] c = c
add_all grow (r ∷ rs) c = add_all grow rs (adds grow r c)

-- `*timer_id` of each of the calls.
unfoldable pub given_out : (ℕ → ℕ) → List Request → Component → List ℕ
given_out grow [] c = []
given_out grow (r ∷ rs) c =
    (add_timer grow r.period_us r.one_shot r.proc r.priv c).0 ∷ given_out grow rs (adds grow r c)

-- The timers asked for, numbered from `n`, and their handles in one piece of memory.
abbrev pub timers_of : ℕ → List Request → List Timer
timers_of n [] = []
timers_of n (r ∷ rs) = record { timer_id = n; priv = r.priv; proc = r.proc } ∷ timers_of (suc n) rs

abbrev pub handles_of : ℕ → ℕ → List Request → List Handle
handles_of piece n [] = []
handles_of piece n (r ∷ rs) =
    record { piece = piece; place = n; period = r.period_us / 1000 } ∷ handles_of piece (suc n) rs

length-timers_of : (n : ℕ) (rs : List Request) → length (timers_of n rs) ≡ length rs
length-timers_of n [] = refl
length-timers_of n (r ∷ rs) = ap suc (length-timers_of (suc n) rs)

timers_of_append :
    (n : ℕ) (rs : List Request) (r : Request)
    → timers_of n (rs ++ (r ∷ []))
      ≡ timers_of n rs ++ (record { timer_id = n + length rs; priv = r.priv; proc = r.proc } ∷ [])
timers_of_append n [] r =
    ap (λ k. record { timer_id = k; priv = r.priv; proc = r.proc } ∷ []) (omega arith)
timers_of_append n (q ∷ rs) r =
    let e : suc n + length rs ≡ n + suc (length rs) = omega arith in
    ap (λ t. record { timer_id = n; priv = q.priv; proc = q.proc } ∷ t)
      (timers_of_append (suc n) rs r
        ∙ ap
            (λ k.
              timers_of (suc n) rs ++ (record { timer_id = k; priv = r.priv; proc = r.proc } ∷ []))
            e)

handles_of_append :
    (piece n : ℕ) (rs : List Request) (r : Request)
    → handles_of piece n (rs ++ (r ∷ []))
      ≡ handles_of piece n rs
        ++ (record { piece = piece; place = n + length rs; period = r.period_us / 1000 } ∷ [])
handles_of_append piece n [] r =
    ap (λ k. record { piece = piece; place = k; period = r.period_us / 1000 } ∷ []) (omega arith)
handles_of_append piece n (q ∷ rs) r =
    let e : suc n + length rs ≡ n + suc (length rs) = omega arith in
    ap (λ t. record { piece = piece; place = n; period = q.period_us / 1000 } ∷ t)
      (handles_of_append piece (suc n) rs r
        ∙ ap
            (λ k.
              handles_of piece (suc n) rs
              ++ (record { piece = piece; place = k; period = r.period_us / 1000 } ∷ []))
            e)

-- The component after some requests that one piece of memory has held.
abbrev pub Holds : ℕ → ℕ → List Request → Component → Type 0
Holds capacity piece rs c =
    (c.capacity ≡ capacity)
    × (c.piece ≡ piece)
    × (c.timers ≡ timers_of 0 rs)
    × (c.active ≡ handles_of piece 0 rs)

push_back_room :
    (grow : ℕ → ℕ) (t : Timer) (c : Component)
    → (length c.timers == c.capacity) ≡ false
    → push_back grow t c ≡ record c { timers = c.timers ++ (t ∷ []) }
unfolding push_back
push_back_room grow t c room = rw room refl

Holds-adds :
    (grow : ℕ → ℕ) (capacity piece : ℕ) (rs : List Request) (r : Request) (c : Component)
    → length rs < capacity
    → Holds capacity piece rs c
    → Holds capacity piece (rs ++ (r ∷ [])) (adds grow r c)
unfolding add_timer started
Holds-adds grow capacity piece rs r c lt (cap, at_piece, timers, active) =
    let sized : length c.timers ≡ 0 + length rs =
      ap length timers ∙ length-timers_of 0 rs ∙ omega arith in
    let t : Timer = record { timer_id = length c.timers; priv = r.priv; proc = r.proc } in
    let last : length (c.timers ++ (t ∷ [])) - 1 ≡ 0 + length rs =
      omega (arith, length-append {0} c.timers (t ∷ [])) in
    rw (push_back_room grow t c (ground (arith, sized, cap))) (
      cap,
      at_piece,
      ap (λ n. c.timers ++ (record { timer_id = n; priv = r.priv; proc = r.proc } ∷ [])) sized
          ∙ ap
              (λ ts. ts ++ (record { timer_id = 0 + length rs; priv = r.priv; proc = r.proc } ∷ []))
              timers
          ∙ sym (timers_of_append 0 rs r),
      ap
            (λ p.
              c.active
              ++ (record {
                piece = p;
                place = length (c.timers ++ (t ∷ [])) - 1;
                period = r.period_us / 1000;
              }
                  ∷ []))
            at_piece
          ∙ ap
              (λ n.
                c.active ++ (record { piece = piece; place = n; period = r.period_us / 1000 } ∷ []))
              last
          ∙ ap
              (λ hs.
                hs
                ++ (record { piece = piece; place = 0 + length rs; period = r.period_us / 1000 }
                    ∷ []))
              active
          ∙ sym (handles_of_append piece 0 rs r),
    )

Holds-first : (grow : ℕ → ℕ) (r : Request) → Holds (grow 0) 1 (r ∷ []) (adds grow r new_component)
unfolding add_timer started push_back new_component
Holds-first grow r = (refl, refl, refl, refl)

Holds-add_all :
    (grow : ℕ → ℕ) (capacity piece : ℕ) (rs more : List Request) (c : Component)
    → length rs + length more ≤ capacity
    → Holds capacity piece rs c
    → Holds capacity piece (rs ++ more) (add_all grow more c)
unfolding add_all
Holds-add_all grow capacity piece rs [] c le h =
    subst (λ all. Holds capacity piece all c) (sym (append-nil rs)) h
Holds-add_all grow capacity piece rs (r ∷ more) c le h =
    subst (λ all. Holds capacity piece all (add_all grow more (adds grow r c)))
      (append_assoc rs (r ∷ []) more)
      (Holds-add_all grow capacity piece (rs ++ (r ∷ [])) more (adds grow r c)
        (omega (arith, length-append {0} rs (r ∷ [])))
        (Holds-adds grow capacity piece rs r c (omega arith) h))

get_middle :
    (before : List Timer) (t : Timer) (behind : List Timer)
    → get_elem? (before ++ (t ∷ behind)) (length before) ≡ some t
get_middle [] t behind = refl
get_middle (b ∷ before) t behind = get_middle before t behind

same_piece : (n : ℕ) → (n == n) ≡ true
same_piece n = ground arith

fires :
    (c : Component) (n : ℕ) (before behind : List Timer) (t : Timer) (period : ℕ)
    → length before ≡ n
    → c.timers ≡ before ++ (t ∷ behind)
    → on_time_out c (record { piece = c.piece; place = n; period = period }) ≡ some t
unfolding on_time_out
fires c n before behind t period len e = rw (same_piece c.piece) (
    ap (λ ts. get_elem? ts n) e
    ∙ ap (get_elem? (before ++ (t ∷ behind))) (sym len)
    ∙ get_middle before t behind)

all_fire :
    (c : Component) (n : ℕ) (before : List Timer) (rs : List Request)
    → length before ≡ n
    → c.timers ≡ before ++ timers_of n rs
    → map (on_time_out c) (handles_of c.piece n rs) ≡ map some (timers_of n rs)
all_fire c n before [] len e = refl
all_fire c n before (r ∷ rs) len e =
    let t : Timer = record { timer_id = n; priv = r.priv; proc = r.proc } in
    ap₂ ◌∷◌ (fires c n before (timers_of (suc n) rs) t (r.period_us / 1000) len e) (
      all_fire c (suc n) (before ++ (t ∷ [])) rs (omega (arith, length-append {0} before (t ∷ [])))
        (e ∙ sym (append_assoc before (t ∷ []) (timers_of (suc n) rs))))

first_given :
    (grow : ℕ → ℕ) (r : Request)
    → (add_timer grow r.period_us r.one_shot r.proc r.priv new_component).0 ≡ 0
unfolding add_timer new_component
first_given grow r = refl

given-Holds :
    (grow : ℕ → ℕ) (capacity piece : ℕ) (rs : List Request) (r : Request) (c : Component)
    → Holds capacity piece rs c
    → (add_timer grow r.period_us r.one_shot r.proc r.priv c).0 ≡ length rs
unfolding add_timer
given-Holds grow capacity piece rs r c h = ap length h.2 ∙ length-timers_of 0 rs

given_out-Holds :
    (grow : ℕ → ℕ) (capacity piece : ℕ) (rs more : List Request) (c : Component)
    → length rs + length more ≤ capacity
    → Holds capacity piece rs c
    → given_out grow more c ≡ map (λ t. t.timer_id) (timers_of (length rs) more)
unfolding given_out
given_out-Holds grow capacity piece rs [] c le h = refl
given_out-Holds grow capacity piece rs (r ∷ more) c le h =
    let one_more : length (rs ++ (r ∷ [])) ≡ suc (length rs) =
      omega (arith, length-append {0} rs (r ∷ [])) in
    ap₂ ◌∷◌ (given-Holds grow capacity piece rs r c h) (
      given_out-Holds grow capacity piece (rs ++ (r ∷ [])) more (adds grow r c)
        (omega (arith, one_more, le)) (Holds-adds grow capacity piece rs r c (omega (arith, le)) h)
      ∙ ap (λ n. map (λ t. t.timer_id) (timers_of n more)) one_more)

-- For any growth of the vector and any calls of `AddTimer` on a new component, at least one and not
-- more than the first piece of memory holds: libuv runs one timer for each call, with the period asked
-- for in milliseconds; on the time out of each it finds the `proc` and `priv` of that call and the
-- number in the order of the calls, from 0 on; and those numbers are what the calls stored in
-- `*timer_id`.
pub timers_fire :
    (grow : ℕ → ℕ) (r : Request) (rs : List Request)
    → suc (length rs) ≤ grow 0
    → let c = add_all grow (r ∷ rs) new_component in
      (c.active ≡ handles_of 1 0 (r ∷ rs))
      × (map (on_time_out c) c.active ≡ map some (timers_of 0 (r ∷ rs)))
      × (given_out grow (r ∷ rs) new_component ≡ map (λ t. t.timer_id) (timers_of 0 (r ∷ rs)))
unfolding add_all given_out
timers_fire grow r rs fits =
    let c = add_all grow (r ∷ rs) new_component in
    let h : Holds (grow 0) 1 (r ∷ rs) (add_all grow (r ∷ rs) new_component) =
      Holds-add_all grow (grow 0) 1 (r ∷ []) rs (adds grow r new_component) (omega arith)
        (Holds-first grow r) in
    (
      h.3,
      ap (map (on_time_out c)) (h.3 ∙ ap (λ p. handles_of p 0 (r ∷ rs)) (sym h.1))
          ∙ all_fire c 0 [] (r ∷ rs) refl h.2,
      ap₂ ◌∷◌ (first_given grow r) (
          given_out-Holds grow (grow 0) 1 (r ∷ []) rs (adds grow r new_component) (omega arith)
            (Holds-first grow r)),
    )
