-- ===== src/PubSub/Threads/Tests.antt =====
-- A subscriber that waits, and what a publisher of message.hpp does to it.
use code_c.Base.{◌<◌, ◌≡◌, ◌≢◌, refl, true, false, none, some, List, [], ◌∷◌, ◌++◌, arith, length}
use code_c.PubSub.{Buffer, holding, stopping, assigned, turn, waits_or_takes}
use code_c.PubSub.Threads.{
  Thread, building, asleep, awake, ended, calling, Member, System, entering, begun, notified,
  notify, touched, after, begins_round, Step, subscriber_enters, subscriber_begins, publishes,
  publisher_stops, goes_round, Reach, start, later,
}
use code_c.PubSub.Threads.Served.{nobody}
use code_c.PubSub.Threads.Ends.{Reaches, no_lost_wakeup, stopped_ends}
use code_c.PubSub.Threads.Calls.{buffer_called, stop_begun, stop_lost}

abbrev hello : Buffer
hello = record { data_at = 4096; size = 5 }

abbrev fresh : Member
fresh = record {
  subscriber = record { publisher = none; buffer = none; stop = true; alive = true };
  inside = true;
  thread = building;
}

abbrev at_rest : Member
at_rest = record {
  subscriber = record { publisher = some 0; buffer = none; stop = false; alive = true };
  inside = true;
  thread = asleep;
}

abbrev one_waits : System
one_waits = record { members = at_rest ∷ []; notifiers = 0 }

one_built : Reach nobody (record { members = fresh ∷ []; notifiers = 0 })
unfolding entering
one_built = later start (subscriber_enters true)

waiting : Reach nobody one_waits
unfolding begins_round begun entering assigned turn waits_or_takes after
waiting =
    later (later one_built (subscriber_begins [] [] fresh refl refl))
      (goes_round [] [] (begun fresh) refl refl)

abbrev woken_up : Member
woken_up = record {
  subscriber = record { publisher = some 0; buffer = some hello; stop = false; alive = true };
  inside = true;
  thread = awake;
}

message_there : Reach nobody (record { members = woken_up ∷ []; notifiers = 0 })
unfolding notify notified touched holding
message_there = later waiting (publishes hello)

abbrev told : Member
told = record {
  subscriber = record { publisher = some 0; buffer = none; stop = true; alive = true };
  inside = true;
  thread = asleep;
}

told_there : Reach nobody (record { members = told ∷ []; notifiers = 1 })
unfolding touched stopping
told_there = later waiting publisher_stops

no_lost_wakeup_example : (told.subscriber.buffer ≡ none) × (told.subscriber.stop ≡ true → 0 < 1)
no_lost_wakeup_example =
    no_lost_wakeup (record { members = told ∷ []; notifiers = 1 }) [] [] told told_there refl refl

not_building : {t : Thread} → t ≡ asleep → t ≢ building
not_building e b = ground arith

not_building_awake : {t : Thread} → t ≡ awake → t ≢ building
not_building_awake e b = ground arith

stopped_ends_example :
    Reaches (record { members = told ∷ []; notifiers = 1 }) 0 (λ n. n.thread ≡ ended)
stopped_ends_example =
    stopped_ends (record { members = told ∷ []; notifiers = 1 }) [] [] told told_there refl refl
      (not_building refl)

buffer_called_example :
    Reaches (record { members = woken_up ∷ []; notifiers = 0 }) 0 (λ n. n.thread ≡ calling hello)
buffer_called_example =
    buffer_called (record { members = woken_up ∷ []; notifiers = 0 }) [] [] woken_up hello
      message_there refl refl refl (omega arith) (not_building_awake refl)

stop_lost_example :
    Step
      (record { members = fresh ∷ []; notifiers = 0 })
      (stop_begun (record { members = fresh ∷ []; notifiers = 0 }))
    × (t : System) × (xs' ys' : List Member) × (n : Member) × Reach
        (stop_begun (record { members = fresh ∷ []; notifiers = 0 }))
        t
    × (t.notifiers ≡ 0)
    × (t.members ≡ xs' ++ (n ∷ ys'))
    × (length xs' ≡ 0)
    × (n.thread ≡ asleep)
    × (n.subscriber.stop ≡ false)
stop_lost_example =
    stop_lost (record { members = fresh ∷ []; notifiers = 0 }) [] [] fresh refl refl refl
