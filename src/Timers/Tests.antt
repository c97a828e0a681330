-- ===== src/Timers/Tests.antt =====
-- Two timers of component.h, in a vector that grows to eight places at first or one by one.
use code_c.Base.{◌+◌, ◌≡◌, refl, none, some, [], ◌∷◌, arith, map, All}
use code_c.Timers.{new_component, push_back, started, add_timer, on_time_out}
use code_c.Timers.Kept.{Request, adds, add_all, given_out, timers_of, handles_of, timers_fire}
use code_c.Timers.Lost.{timers_lost}

abbrev request : Request
request = record { period_us = 50000; one_shot = 0; proc = 7; priv = 9 }

timers_fire_example :
    let c = add_all (λ n. n + 8) (request ∷ request ∷ []) new_component in
    (c.active ≡ handles_of 1 0 (request ∷ request ∷ []))
    × (map (on_time_out c) c.active ≡ map some (timers_of 0 (request ∷ request ∷ [])))
    × (given_out (λ n. n + 8) (request ∷ request ∷ []) new_component
        ≡ map (λ t. t.timer_id) (timers_of 0 (request ∷ request ∷ [])))
timers_fire_example = timers_fire (λ n. n + 8) request (request ∷ []) (omega arith)

timers_lost_example :
    let c = add_all (λ n. n + 1) (request ∷ []) new_component in
    All (λ h. on_time_out (adds (λ n. n + 1) request c) h ≡ none) c.active
unfolding add_all new_component add_timer started push_back
timers_lost_example = timers_lost (λ n. n + 1) (request ∷ []) request refl
