-- ===== src/Discover/Announced.antt =====
-- What `Send` puts into a datagram and `discover_read_cb` takes out of it, in service_discover.hpp.
use code_c.Base.{
  ℕ, zero, suc, ◌+◌, ◌≡◌, ◌≢◌, ◌≤◌, refl, sym, ap, ◌∙◌, some, List, [], ◌∷◌, ◌++◌, arith, length,
  take, drop, set, replicate, length-replicate, append-nil, append_assoc, take-append-drop,
  length-append, All,
}
use code_c.Base.Int.{pos}
use code_c.Discover.{
  Text, Discover, Answers, copied, packet, callbacks_for, c_string, value_after, call_all, heard,
  discover_read_cb, new_discover,
}
use code_c.Discover.Registered.{Event, run, registered, run-callbacks}

set-append : (xs ys : List ℕ) (y z : ℕ) → set (xs ++ (y ∷ ys)) (length xs) z ≡ xs ++ (z ∷ ys)
set-append [] ys y z = refl
set-append (x ∷ xs) ys y z = ap (λ t. x ∷ t) (set-append xs ys y z)

copied_lem :
    (xs ys zs : List ℕ)
    → length zs ≤ length ys
    → copied (xs ++ ys) (length xs) zs ≡ xs ++ (zs ++ drop (length zs) ys)
unfolding copied
copied_lem xs ys [] h = refl
copied_lem xs [] (z ∷ zs) h = absurd (omega arith)
copied_lem xs (y ∷ ys) (z ∷ zs) h =
    let longer : length (xs ++ (z ∷ [])) ≡ suc (length xs) =
      omega (arith, length-append {0} xs (z ∷ [])) in
    ap (λ t. copied t (suc (length xs)) zs)
      (set-append xs ys y z ∙ sym (append_assoc xs (z ∷ []) ys))
    ∙ ap (λ k. copied ((xs ++ (z ∷ [])) ++ ys) k zs) (sym longer)
    ∙ copied_lem (xs ++ (z ∷ [])) ys zs (omega arith)
    ∙ append_assoc xs (z ∷ []) (zs ++ drop (length zs) ys)

abbrev zeros : ℕ → List ℕ
zeros n = replicate n 0

drop-zeros : (k n : ℕ) → drop k (zeros (k + n)) ≡ zeros n
drop-zeros zero n = ap zeros (omega arith)
drop-zeros (suc k) n =
    let e : suc k + n ≡ suc (k + n) = omega arith in
    ap (λ m. drop (suc k) (zeros m)) e ∙ drop-zeros k n

length-zeros : (n : ℕ) → length (zeros n) ≡ n
length-zeros n = length-replicate n 0

-- The topic is copied, and the 0 stands behind it.
topic_copied :
    (t : List ℕ) (n : ℕ)
    → set (copied (zeros (n + length t + 1)) 0 t) (length t) 0 ≡ t ++ (0 ∷ zeros n)
topic_copied t n =
    let e : n + length t + 1 ≡ length t + suc n = omega arith in
    ap (λ m. set (copied (zeros m) 0 t) (length t) 0) e
    ∙ ap (λ x. set x (length t) 0)
        (copied_lem [] (zeros (length t + suc n)) t
          (omega (arith, length-zeros (length t + suc n))))
    ∙ ap (λ x. set (t ++ x) (length t) 0) (drop-zeros (length t) (suc n))
    ∙ set-append t (zeros n) 0 0

pub packet_lem : (t v : List ℕ) → packet t v ≡ t ++ (0 ∷ v)
unfolding packet
packet_lem t v =
    let longer : length t + 1 ≡ length (t ++ (0 ∷ [])) =
      omega (arith, length-append {0} t (0 ∷ [])) in
    let none_left : drop (length v) (zeros (length v)) ≡ [] =
      ap (λ m. drop (length v) (zeros m)) (omega arith) ∙ drop-zeros (length v) 0 in
    ap (λ x. copied x (length t + 1) v) (topic_copied t (length v))
    ∙ ap (λ x. copied x (length t + 1) v) (sym (append_assoc t (0 ∷ []) (zeros (length v))))
    ∙ ap (λ k. copied ((t ++ (0 ∷ [])) ++ zeros (length v)) k v) longer
    ∙ copied_lem (t ++ (0 ∷ [])) (zeros (length v)) v (omega (arith, length-zeros (length v)))
    ∙ ap (λ x. (t ++ (0 ∷ [])) ++ (v ++ x)) none_left
    ∙ ap (λ x. (t ++ (0 ∷ [])) ++ x) (append-nil v)
    ∙ append_assoc t (0 ∷ []) v

pub length-packet : (t v : List ℕ) → length (packet t v) ≡ suc (length t + length v)
length-packet t v = omega (arith, ap length (packet_lem t v), length-append {0} t (0 ∷ v))

-- A text with no 0 in it.
abbrev pub NoZero : Text → Type 0
NoZero t = All (λ c. c ≢ 0) t

pub c_string_lem : (t rest : List ℕ) → NoZero t → c_string (t ++ (0 ∷ rest)) ≡ some t
unfolding c_string
c_string_lem [] rest h = refl
c_string_lem (x ∷ t) rest h = ground (arith, c_string_lem t rest h.1, h.0)

add-one : (n : ℕ) → n + 1 ≡ suc n
add-one n = omega arith

drop_past : (xs ys : List ℕ) (y : ℕ) → drop (suc (length xs)) (xs ++ (y ∷ ys)) ≡ ys
drop_past [] ys y = refl
drop_past (x ∷ xs) ys y = drop_past xs ys y

pub value_after_lem : (t v : List ℕ) → value_after t (t ++ (0 ∷ v)) ≡ v
unfolding value_after
value_after_lem t v = ap (λ k. drop k (t ++ (0 ∷ v))) (add-one (length t)) ∙ drop_past t v 0

-- The datagram stands at the front of the buffer; what was there before follows.
pub buffer_split :
    (buffer t v : List ℕ)
    → take (length (packet t v)) buffer ≡ packet t v
    → buffer ≡ t ++ (0 ∷ (v ++ drop (length (packet t v)) buffer))
buffer_split buffer t v h =
    sym (take-append-drop (length (packet t v)) buffer)
    ∙ ap (λ x. x ++ drop (length (packet t v)) buffer) (h ∙ packet_lem t v)
    ∙ append_assoc t (0 ∷ v) (drop (length (packet t v)) buffer)

-- The callbacks since the constructor.
pub all_registered :
    (a : Answers) (memory : List ℕ) (es : List Event) (d₀ d : Discover) (u : Text)
    → new_discover a memory ≡ some d₀
    → run es d₀ ≡ some d
    → callbacks_for u d.callbacks ≡ registered u es
unfolding new_discover callbacks_for
all_registered a memory es d₀ d u made ran =
    let empty : callbacks_for u d₀.callbacks ≡ [] = ground arith in
    run-callbacks u es d₀ d ran ∙ ap (λ cs. cs ++ registered u es) empty

-- A datagram of one byte or more whose topic can be read.
pub read_cb_lem :
    (d : Discover) (n : ℕ) (t v : List ℕ) (cs : List ℕ)
    → c_string d.buffer ≡ some t
    → value_after t d.buffer ≡ v
    → callbacks_for t d.callbacks ≡ cs
    → discover_read_cb (pos (suc n)) d ≡ some ((heard d t).0, call_all t v cs)
unfolding discover_read_cb heard
read_cb_lem d n t v cs e1 e2 e3 = rw (e1, e2, e3) refl
