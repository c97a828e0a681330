-- ===== src/Timers.antt =====
-- c++/20230203-component-schedule/component.h: the timers of a component. `timers_` is a vector, which
-- moves to a new piece of memory when it is full; libuv keeps the address of a timer. An access to
-- memory that the vector has left is `none`.
pub mod Kept
pub mod Lost
mod Tests
use code_c.Base.{
  ℕ, zero, suc, ◌+◌, ◌-◌, ◌/◌, Bool, true, false, ◌&&◌, not, Option, none, some, List, [], ◌∷◌,
  ◌++◌, ◌==◌, if◌then◌else◌, length, get_elem?, ◌>>=◌,
}

-- `ComponentTimer`: `timer_id`, and `proc` and `priv` by their numbers.
pub record Timer : Type 0 where
  pub timer_id : ℕ
  pub priv : ℕ
  pub proc : ℕ

-- A timer that libuv runs: the address of its handle, a place in a piece of memory, and its period in
-- milliseconds.
pub record Handle : Type 0 where
  pub piece : ℕ
  pub place : ℕ
  pub period : ℕ

-- `Component`, with the handles that libuv runs.
pub record Component : Type 0 where
  pub piece : ℕ
  pub capacity : ℕ
  pub timers : List Timer
  pub active : List Handle

-- The constructor: the vector has no memory yet.
pub new_component : Component
new_component = record { piece = 0; capacity = 0; timers = []; active = [] }

-- `timers_.push_back`, where a vector of `n` places that is full grows to `grow n`.
pub push_back : (ℕ → ℕ) → Timer → Component → Component
push_back grow t c =
    if length c.timers == c.capacity
    then record c { piece = c.piece + 1; capacity = grow c.capacity; timers = c.timers ++ (t ∷ []) }
    else record c { timers = c.timers ++ (t ∷ []) }

-- `uv_timer_start` on the last element, with the same time for the start and for the repetition.
pub started : ℕ → Component → Component
started period_us c = record c {
  active =
      c.active
      ++ (record { piece = c.piece; place = length c.timers - 1; period = period_us / 1000 } ∷ []);
}

-- `AddTimer`: `*timer_id`, and the component. `one_shot` is not used.
pub add_timer : (ℕ → ℕ) → ℕ → ℕ → ℕ → ℕ → Component → ℕ × Component
add_timer grow period_us one_shot proc priv c = (
  length c.timers,
  started period_us
      (push_back grow (record { timer_id = length c.timers; priv = priv; proc = proc }) c),
)

-- `uv_timer_stop(&timers_[timer_id].timer_req)`: the handle that it stops must be the one that runs.
pub is_at : ℕ → ℕ → Handle → Bool
is_at piece place h = (h.piece == piece) && (h.place == place)

pub without : ℕ → ℕ → List Handle → List Handle
without piece place [] = []
without piece place (h ∷ hs) =
    let others = without piece place hs in if is_at piece place h then others else h ∷ others

pub runs_elsewhere : ℕ → ℕ → List Handle → Bool
runs_elsewhere piece place [] = false
runs_elsewhere piece place (h ∷ hs) =
    let others = runs_elsewhere piece place hs in
    if (h.place == place) && not (h.piece == piece) then true else others

pub stopped : ℕ → Component → Option Timer → Option Component
stopped timer_id c none = none
stopped timer_id c (some t) =
    if runs_elsewhere c.piece timer_id c.active
    then none
    else some (record c { active = without c.piece timer_id c.active })

-- `DelTimer`
pub del_timer : ℕ → Component → Option Component
del_timer timer_id c = stopped timer_id c (get_elem? c.timers timer_id)

-- `OnTimeOut` for a handle: the `proc` called, with `timer_id` and `priv`.
pub on_time_out : Component → Handle → Option Timer
on_time_out c h = if h.piece == c.piece then get_elem? c.timers h.place else none
