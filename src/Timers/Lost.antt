-- ===== src/Timers/Lost.antt =====
-- What a growing vector does to the timers of component.h that run.
use code_c.Base.{ℕ, ◌≡◌, ◌≤◌, ◌<◌, sym, subst, none, List, [], ◌∷◌, ◌++◌, arith, length, All}
use code_c.Timers.{
  Timer, Handle, Component, new_component, push_back, started, add_timer, on_time_out,
}
use code_c.Timers.Kept.{Request, adds, add_all}

-- After the constructor and any calls of `AddTimer` the handles stand in pieces of memory that the
-- vector has had.
abbrev Old : ℕ → Handle → Type 0
Old piece h = h.piece ≤ piece

All-append :
    (piece : ℕ) (hs : List Handle) (h : Handle)
    → All (Old piece) hs
    → h.piece ≤ piece
    → All (Old piece) (hs ++ (h ∷ []))
All-append piece [] h a le = (le, tt)
All-append piece (x ∷ hs) h a le = (a.0, All-append piece hs h a.1 le)

All-older : (p q : ℕ) (hs : List Handle) → p ≤ q → All (Old p) hs → All (Old q) hs
All-older p q [] le a = tt
All-older p q (h ∷ hs) le a = (omega (arith, a.0), All-older p q hs le a.1)

push_back-piece :
    (grow : ℕ → ℕ) (t : Timer) (c : Component)
    → (c.piece ≤ (push_back grow t c).piece) × ((push_back grow t c).active ≡ c.active)
unfolding push_back
push_back-piece grow t c = ground arith

adds-Old :
    (grow : ℕ → ℕ) (r : Request) (c : Component)
    → All (Old c.piece) c.active
    → All (Old (adds grow r c).piece) (adds grow r c).active
unfolding add_timer started
adds-Old grow r c a =
    let t : Timer = record { timer_id = length c.timers; priv = r.priv; proc = r.proc } in
    let f = push_back-piece grow t c in
    All-append (push_back grow t c).piece (push_back grow t c).active _
      (subst (All (Old (push_back grow t c).piece)) (sym f.1)
        (All-older c.piece (push_back grow t c).piece c.active f.0 a))
      (omega arith)

add_all-Old :
    (grow : ℕ → ℕ) (rs : List Request) (c : Component)
    → All (Old c.piece) c.active
    → All (Old (add_all grow rs c).piece) (add_all grow rs c).active
unfolding add_all
add_all-Old grow [] c a = a
add_all-Old grow (r ∷ rs) c a = add_all-Old grow rs (adds grow r c) (adds-Old grow r c a)

moved :
    (grow : ℕ → ℕ) (r : Request) (c : Component)
    → length c.timers ≡ c.capacity
    → c.piece < (adds grow r c).piece
unfolding add_timer started push_back
moved grow r c full = ground arith

new_component-Old : All (Old new_component.piece) new_component.active
unfolding new_component
new_component-Old = tt

lost_handles :
    (c : Component) (piece : ℕ) (hs : List Handle)
    → piece < c.piece
    → All (Old piece) hs
    → All (λ h. on_time_out c h ≡ none) hs
unfolding on_time_out
lost_handles c piece [] lt a = tt
lost_handles c piece (h ∷ hs) lt a = (ground (arith, a.0), lost_handles c piece hs lt a.1)

-- For any growth of the vector and any calls of `AddTimer` on a new component that have filled the
-- vector: after one more call, the time out of each of the timers that ran before goes to memory that
-- the vector has left.
pub timers_lost :
    (grow : ℕ → ℕ) (rs : List Request) (r : Request)
    → length (add_all grow rs new_component).timers ≡ (add_all grow rs new_component).capacity
    → let c = add_all grow rs new_component in
      All (λ h. on_time_out (adds grow r c) h ≡ none) c.active
timers_lost grow rs r full =
    let c = add_all grow rs new_component in
    lost_handles (adds grow r c) c.piece c.active (moved grow r c full)
      (add_all-Old grow rs new_component new_component-Old)
