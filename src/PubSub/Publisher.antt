-- ===== src/PubSub/Publisher.antt =====
-- `MessagePublisher` of message.hpp, the class that a program uses, which holds a delegate.
use code_c.Base.{
  some_injective, ℕ, ◌<◌, ◌≡◌, ◌≢◌, ap, sym, subst, ◌∙◌, Bool, Option, none, some, get_elem?,
}
use code_c.PubSub.{
  Buffer, Subscriber, Hub, find, get_or_new, publish, stop_delegate, subscribe, turn, calls,
}
use code_c.PubSub.Valid.{Valid}
use code_c.PubSub.Subscribe.{subscribe-Valid}
use code_c.PubSub.Deliver.{subscriber_gets}
use code_c.PubSub.Hazards.{second_stop_takes_topic}

-- `MessagePublisher`, with the place of `delegate_`
pub record MessagePublisher : Type 0 where
  pub delegate : ℕ

-- The constructor.
pub new_message_publisher : ℕ → Hub → MessagePublisher × Hub
new_message_publisher t h = let (d, h') = get_or_new h t in (record { delegate = d }, h')

-- `Publish`, `Stop` and the destructor, which stops whether or not `Stop` was called.
pub publish_message : MessagePublisher → Buffer → Hub → Option Hub
publish_message p b h = publish p.delegate b h

stop_message_publisher : MessagePublisher → Hub → Option Hub
stop_message_publisher p h = stop_delegate p.delegate h

destroy_message_publisher : MessagePublisher → Hub → Option Hub
destroy_message_publisher p h = stop_delegate p.delegate h

-- In a well-formed hub, a publisher of a topic is stopped, another publisher of the topic is made, and
-- the first is destroyed: all of it succeeds, and a third publisher of the topic has another delegate
-- than the second.
destroyed_takes_topic :
    (h : Hub) (t : ℕ) (p : MessagePublisher)
    → Valid h
    → find t h.topics ≡ some p.delegate
    → (h1 h3 : Hub) × (stop_message_publisher p h ≡ some h1)
      × (destroy_message_publisher p (new_message_publisher t h1).1 ≡ some h3)
      × ((new_message_publisher t h3).0.delegate ≢ (new_message_publisher t h1).0.delegate)
unfolding new_message_publisher stop_message_publisher destroy_message_publisher
destroyed_takes_topic h t p valid found =
    let (h1, h3, stops, other, ends, apart) = second_stop_takes_topic h t p.delegate valid found in
    (h1, h3, stops, ends, apart)

finds_again :
    (garbage : Bool) (t s : ℕ) (h h1 : Hub)
    → Valid h
    → subscribe garbage t h ≡ some (s, h1)
    → (get_or_new h1 t).1 ≡ h1
finds_again garbage t s h h1 valid made =
    let (s', d, h', made', found, inside, new, valid') = subscribe-Valid garbage t h valid in
    let same : h' ≡ h1 = ap (λ q. q.1) (some_injective (sym made' ∙ made)) in
    subst (λ k. (get_or_new k t).1 ≡ k) same (ap (λ q. q.1) found)

-- In a well-formed hub a subscriber of a topic is made and then a publisher of the topic: when the
-- publisher publishes a buffer whose `data_` is not null, this succeeds and the next round of the
-- subscriber calls back with the buffer.
pub publisher_reaches :
    (garbage : Bool) (t : ℕ) (h : Hub) (b : Buffer)
    → Valid h
    → 0 < b.data_at
    → (s : ℕ) × (h1 h2 : Hub) × (u : Subscriber) × (subscribe garbage t h ≡ some (s, h1))
      × (publish_message (new_message_publisher t h1).0 b (new_message_publisher t h1).1 ≡ some h2)
      × (get_elem? h2.subscribers s ≡ some u)
      × (turn u ≡ (calls b, record u { buffer = none }))
unfolding new_message_publisher publish_message
publisher_reaches garbage t h b valid real =
    let (s, h1, h2, u, made, sent, stands, goes) = subscriber_gets garbage t h b valid real in
    let again = finds_again garbage t s h h1 valid made in
    (s, h1, h2, u, made, ap (publish (get_or_new h1 t).0 b) again ∙ sent, stands, goes)
