-- ===== src/Message/Notified.antt =====
-- Whom a publisher of message.hpp notifies.
use code_c.Base.{
  ℕ, zero, suc, ◌+◌, ◌≡◌, ◌≤◌, refl, sym, ap, ◌∙◌, Bool, true, false, Option, some, List, [], ◌∷◌,
  ◌++◌, if◌then◌else◌, arith, length, take, drop, map, append-nil, append_assoc, Option-cases, inl,
  inr, ◌>>=◌, All, le→leb, length-append,
}
use code_c.Base.Int.{pos}
use code_c.ShmBlock.{Os, History, Result, new_block}
use code_c.ShmBlock.Uncounted.{create}
use code_c.Text.{text_eq}
use code_c.Discover.{
  Text, Discover, Answers, packet, callbacks_for, call_all, c_string, value_after, heard,
  discover_read_cb, new_discover, recv,
}
use code_c.Discover.Registered.{registers, heard-callbacks, run_one}
use code_c.Discover.Announced.{
  NoZero, read_cb_lem, c_string_lem, value_after_lem, buffer_split, all_registered, length-packet,
}
use code_c.Message.{
  Publisher, sub_topic, publisher_with, new_publisher, address_in, with_subs, publisher_hears,
  notification, publish, number_of_blocks, size_of_block,
}

-- A datagram that `Send` made of a topic and a value, with the buffer in which it was received.
pub record Announced : Type 0 where
  pub topic : Text
  pub value : List ℕ
  pub buffer : List ℕ

-- A topic has no 0, a value has an address in it, and the datagram is at the front of the buffer.
abbrev pub IsReceived : Announced → Type 0
IsReceived a =
    NoZero a.topic
    × (16 ≤ length a.value)
    × (take (length (packet a.topic a.value)) a.buffer ≡ packet a.topic a.value)

-- The publisher receives them one after the other.
pub hears_all : List Announced → Publisher → Option Publisher
hears_all [] p = some p
hears_all (a ∷ others) p = do
  q ← publisher_hears (pos (length (packet a.topic a.value))) a.buffer p
  hears_all others q

-- The addresses announced for a topic, in order.
abbrev pub addresses : Text → List Announced → List (List ℕ)
addresses t [] = []
addresses t (a ∷ others) =
    let rest = addresses t others in if text_eq t a.topic then take 16 a.value ∷ rest else rest

-- The publisher of a topic waits for announcements of its subscribers, and for nothing else.
abbrev Listens : Text → Publisher → Type 0
Listens topic p =
    (u : Text)
    → callbacks_for u p.discover.callbacks ≡ (if text_eq (sub_topic topic) u then 0 ∷ [] else [])

take-append : (n : ℕ) (xs ys : List ℕ) → n ≤ length xs → take n (xs ++ ys) ≡ take n xs
take-append zero xs ys h = refl
take-append (suc n) [] ys h = absurd (omega arith)
take-append (suc n) (x ∷ xs) ys h = ap (λ t. x ∷ t) (take-append n xs ys (omega arith))

address_in_lem : (v rest : List ℕ) → 16 ≤ length v → address_in (v ++ rest) ≡ some (take 16 v)
unfolding address_in
address_in_lem v rest h =
    rw (le→leb 16 (length (v ++ rest)) (omega (arith, length-append {0} v rest)))
      (ap some (take-append 16 v rest h))

recv-callbacks :
    (a : Answers) (memory : List ℕ) (d : Discover) (t u : Text)
    → new_discover a memory ≡ some d
    → callbacks_for u (recv t 0 d).callbacks ≡ (if text_eq t u then 0 ∷ [] else [])
recv-callbacks a memory d t u made =
    all_registered a memory (registers t 0 ∷ []) d (recv t 0 d) u made (run_one t 0 d)

publisher_with-Listens :
    (os : Os) (h h' : History) (topic : Text) (addr sent : List ℕ) (d : Discover) (r : Result)
    (p : Publisher)
    → publisher_with os h topic addr d r ≡ some (p, sent, h')
    → (p.discover ≡ recv (sub_topic topic) 0 d) × (p.subs ≡ [])
unfolding publisher_with
publisher_with-Listens os h h' topic addr sent d r p made = ground arith

new_publisher-Listens :
    (os : Os) (h h' : History) (a : Answers) (memory : List ℕ) (ok : Bool) (topic : Text)
    (addr sent : List ℕ) (p : Publisher)
    → new_publisher os h a memory ok topic addr ≡ some (p, sent, h')
    → Listens topic p × (p.subs ≡ [])
unfolding new_publisher
new_publisher-Listens os h h' a memory ok topic addr sent p made =
    elim (Option-cases (new_discover a memory)) [
      | inl bad ↦ absurd (ground arith)
      | inr (d, e) ↦
          let r = create os (new_block number_of_blocks size_of_block) h in
          let m : publisher_with os h topic addr d r ≡ some (p, sent, h') = ground arith in
          let f = publisher_with-Listens os h h' topic addr sent d r p m in
          (
            λ u.
                ap (λ (x : Discover). callbacks_for u x.callbacks) f.0
                ∙ recv-callbacks a memory d (sub_topic topic) u e,
            f.1,
          )
    ]

with_subs_one :
    (b : Bool) (t v rest : List ℕ) (subs : List (List ℕ))
    → 16 ≤ length v
    → with_subs (call_all t (v ++ rest) (if b then 0 ∷ [] else [])) subs
      ≡ some (subs ++ (if b then take 16 v ∷ [] else []))
unfolding with_subs call_all
with_subs_one true t v rest subs h = rw (address_in_lem v rest h) refl
with_subs_one false t v rest subs h = ap some (sym (append-nil subs))

read_announced :
    (d : Discover) (a : Announced) (cs : List ℕ)
    → IsReceived a
    → callbacks_for a.topic d.callbacks ≡ cs
    → discover_read_cb (pos (length (packet a.topic a.value))) (record d { buffer = a.buffer })
      ≡ some (
        (heard (record d { buffer = a.buffer }) a.topic).0,
        call_all a.topic (a.value ++ drop (length (packet a.topic a.value)) a.buffer) cs,
      )
read_announced d a cs (no_zero, long, there) e =
    let split = buffer_split a.buffer a.topic a.value there in
    let rest : List ℕ = a.value ++ drop (length (packet a.topic a.value)) a.buffer in
    ap (λ k. discover_read_cb (pos k) (record d { buffer = a.buffer }))
      (length-packet a.topic a.value)
    ∙ read_cb_lem (record d { buffer = a.buffer }) (length a.topic + length a.value) a.topic rest cs
        (ap c_string split ∙ c_string_lem a.topic rest no_zero)
        (ap (value_after a.topic) split ∙ value_after_lem a.topic rest) e

hears_one :
    (topic : Text) (p : Publisher) (a : Announced)
    → Listens topic p
    → IsReceived a
    → (q : Publisher) × (publisher_hears (pos (length (packet a.topic a.value))) a.buffer p
        ≡ some q)
      × Listens topic q
      × (q.subs ≡ p.subs ++ addresses (sub_topic topic) (a ∷ []))
unfolding publisher_hears
hears_one topic p a listens received =
    let b : Bool = text_eq (sub_topic topic) a.topic in
    let e = read_announced p.discover a (if b then 0 ∷ [] else []) received (listens a.topic) in
    let w =
      with_subs_one b a.topic a.value (drop (length (packet a.topic a.value)) a.buffer) p.subs
        received.1 in
    (
      record p {
        discover = (heard (record p.discover { buffer = a.buffer }) a.topic).0;
        subs = p.subs ++ (if b then take 16 a.value ∷ [] else []);
      },
      rw (e, w) refl,
      λ u. heard-callbacks u a.topic (record p.discover { buffer = a.buffer }) ∙ listens u,
      refl,
    )

addresses_cons :
    (t : Text) (a : Announced) (others : List Announced)
    → addresses t (a ∷ []) ++ addresses t others ≡ addresses t (a ∷ others)
addresses_cons t a others = ground arith

hears_all-subs :
    (topic : Text) (p : Publisher) (others : List Announced)
    → Listens topic p
    → All IsReceived others
    → (q : Publisher) × (hears_all others p ≡ some q)
      × (q.subs ≡ p.subs ++ addresses (sub_topic topic) others)
unfolding hears_all
hears_all-subs topic p [] listens received = (p, refl, sym (append-nil p.subs))
hears_all-subs topic p (a ∷ others) listens received =
    let (q, heard_it, still, one) = hears_one topic p a listens received.0 in
    let (r, heard_rest, all) = hears_all-subs topic q others still received.1 in
    let t : Text = sub_topic topic in
    (
      r,
      rw heard_it heard_rest,
      all
          ∙ ap (λ xs. xs ++ addresses t others) one
          ∙ append_assoc p.subs (addresses t (a ∷ [])) (addresses t others)
          ∙ ap (λ xs. p.subs ++ xs) (addresses_cons t a others),
    )

-- For a publisher made by the constructor, and any sequence of datagrams that `Send` made of topics
-- with no 0 and values of 16 bytes or more, each received at the front of the buffer: `Publish` then
-- notifies the addresses at the front of the values that were announced under the topic of its
-- subscribers, one time for each announcement, in their order.
pub publish-addresses :
    (os : Os) (h h' : History) (a : Answers) (memory : List ℕ) (ok : Bool) (topic : Text)
    (addr sent : List ℕ) (p : Publisher) (known : List Announced) (data_at : ℕ)
    → new_publisher os h a memory ok topic addr ≡ some (p, sent, h')
    → All IsReceived known
    → (q : Publisher) × (hears_all known p ≡ some q)
      × ((publish q data_at).1 ≡ map notification (addresses (sub_topic topic) known))
unfolding publish
publish-addresses os h h' a memory ok topic addr sent p known data_at made received =
    let f = new_publisher-Listens os h h' a memory ok topic addr sent p made in
    let (q, hears, subs) = hears_all-subs topic p known f.0 received in
    (
      q,
      hears,
      ap (map notification) (subs ∙ ap (λ xs. xs ++ addresses (sub_topic topic) known) f.1),
    )
