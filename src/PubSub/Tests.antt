-- ===== src/PubSub/Tests.antt =====
-- Two subscribers of one topic.
use code_c.Base.{ℕ, zero, suc, ◌≡◌, refl, true, false, none, some, List, [], ◌∷◌, arith, get_elem?}
use code_c.PubSub.{
  Buffer, Delegate, Subscriber, Hub, find, members, members_of, elem, publish, stop_delegate,
  subscribe, destroy, turn, calls, holding,
}
use code_c.PubSub.Valid.{Valid, Belongs, publish_lem}
use code_c.PubSub.Touch.{Touched}
use code_c.PubSub.Publisher.{new_message_publisher, publish_message, publisher_reaches}
use code_c.PubSub.Hazards.{stop_destroy_dangles}

abbrev nothing_yet : Hub
nothing_yet = record { topics = []; delegates = []; subscribers = [] }

abbrev listener : Subscriber
listener = record { publisher = some 0; buffer = none; stop = false; alive = true }

abbrev seven : Delegate
seven = record { topic = 7; subscribers = 1 ∷ 0 ∷ [] }

abbrev two : Hub
two = record {
  topics = (7, 0) ∷ [];
  delegates = seven ∷ [];
  subscribers = listener ∷ listener ∷ [];
}

abbrev hello : Buffer
hello = record { data_at = 4096; size = 5 }

abbrev bye : Buffer
bye = record { data_at = 8192; size = 3 }

two_topics :
    (t d : ℕ)
    → find t two.topics ≡ some d
    → (x : Delegate) × (get_elem? two.delegates d ≡ some x) × (x.topic ≡ t)
unfolding find
two_topics t zero e = (seven, refl, ground arith)
two_topics t (suc d) e = absurd (ground arith)

two_members : (d s : ℕ) → elem s (members two d) ≡ true → Belongs two.subscribers d s
unfolding elem members members_of
two_members zero zero m = (listener, refl, refl, refl)
two_members zero (suc zero) m = (listener, refl, refl, refl)
two_members zero (suc (suc s)) m = absurd (ground arith)
two_members (suc d) s m = absurd (ground arith)

two-Valid : Valid two
two-Valid = record { topics_right = two_topics; members_belong = two_members }

is_member : elem 1 (members two 0) ≡ true
unfolding elem members members_of
is_member = refl

publish_lem_example :
    (vs : List Subscriber) × (publish 0 hello two ≡ some (record two { subscribers = vs }))
    × Touched (holding hello) (members two 0) two.subscribers vs
    × Valid (record two { subscribers = vs })
publish_lem_example = publish_lem two 0 hello two-Valid

publisher_reaches_example :
    (s : ℕ) × (h1 h2 : Hub) × (u : Subscriber) × (subscribe true 7 two ≡ some (s, h1))
    × (publish_message (new_message_publisher 7 h1).0 hello (new_message_publisher 7 h1).1
        ≡ some h2)
    × (get_elem? h2.subscribers s ≡ some u)
    × (turn u ≡ (calls hello, record u { buffer = none }))
publisher_reaches_example = publisher_reaches true 7 two hello two-Valid (omega arith)

stop_destroy_dangles_example :
    (h1 h2 : Hub) × (stop_delegate 0 two ≡ some h1)
    × (destroy 1 h1 ≡ some h2)
    × (publish 0 hello h2 ≡ none)
    × (stop_delegate 0 h2 ≡ none)
stop_destroy_dangles_example = stop_destroy_dangles two 0 1 seven hello two-Valid refl is_member

topic_found : find 7 two.topics ≡ some 0
unfolding find
topic_found = refl
