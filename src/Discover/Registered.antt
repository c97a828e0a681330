-- ===== src/Discover/Registered.antt =====
-- Which callbacks stand under a topic, in service_discover.hpp.
use code_c.Base.{
  ℕ, zero, suc, ◌≡◌, refl, sym, ap, ◌∙◌, true, Option, some, List, [], ◌∷◌, ◌++◌, if◌then◌else◌,
  arith, append-nil, append_assoc, Bool-cases, Option-cases, inl, inr, ◌>>=◌, some_injective,
}
use code_c.Base.Int.{ℤ, pos, negsuc}
use code_c.Text.{text_eq}
use code_c.Text.Find.{text_eq_lem, text_eq_self}
use code_c.Discover.{
  Text, Discover, callbacks_for, with_callbacks, recv, c_string, heard, discover_read_cb,
}

text_eq_join : (t u w : Text) → text_eq w t ≡ true → text_eq u t ≡ true → text_eq w u ≡ true
text_eq_join t u w h k =
    ap (λ x. text_eq x u) (text_eq_lem w t h ∙ sym (text_eq_lem u t k)) ∙ text_eq_self u

with_callbacks_lem :
    (t u : Text) (new : List ℕ) (m : List (Text × List ℕ))
    → callbacks_for t (with_callbacks u new m)
      ≡ (if text_eq u t then callbacks_for t m ++ new else callbacks_for t m)
unfolding callbacks_for with_callbacks
with_callbacks_lem t u new [] = ground arith
with_callbacks_lem t u new ((w, cs) ∷ rest) = elim (Bool-cases (text_eq w u)) [
  | inl e ↦ let same : w ≡ u = text_eq_lem w u e in ground (arith, e, ap (λ k. text_eq k t) same)
  | inr e ↦ ground (arith, e, with_callbacks_lem t u new rest, text_eq_join t u w)
]

-- A registration, or a datagram of `n` bytes after which `buffer_` is as given.
pub data Event : Type 0 where
  registers : Text → ℕ → Event
  hears : ℤ → List ℕ → Event

unfoldable pub happens : Event → Discover → Option Discover
happens (registers t c) d = some (recv t c d)
happens (hears n buffer) d = do
  (e, calls) ← discover_read_cb n (record d { buffer = buffer })
  some e

unfoldable pub run : List Event → Discover → Option Discover
run [] d = some d
run (e ∷ es) d = do d' ← happens e d; run es d'

-- The callbacks registered under a topic, in order.
abbrev pub registered : Text → List Event → List ℕ
registered t [] = []
registered t (registers u c ∷ es) =
    let rest = registered t es in if text_eq u t then c ∷ rest else rest
registered t (hears n buffer ∷ es) = registered t es

pub heard-callbacks :
    (t u : Text) (d : Discover)
    → callbacks_for t (heard d u).0.callbacks ≡ callbacks_for t d.callbacks
unfolding heard
heard-callbacks t u d =
    ground (arith, with_callbacks_lem t u [] d.callbacks, append-nil (callbacks_for t d.callbacks))

happens-callbacks :
    (t : Text) (e : Event) (d d' : Discover)
    → happens e d ≡ some d'
    → callbacks_for t d'.callbacks ≡ callbacks_for t d.callbacks ++ registered t (e ∷ [])
unfolding happens recv discover_read_cb
happens-callbacks t (registers u c) d d' h =
    ap (λ (x : Discover). callbacks_for t x.callbacks) (sym (some_injective h))
    ∙ ground (
      arith,
      with_callbacks_lem t u (c ∷ []) d.callbacks,
      append-nil (callbacks_for t d.callbacks),
    )
happens-callbacks t (hears (negsuc n) buffer) d d' h =
    ap (λ (x : Discover). callbacks_for t x.callbacks) (sym (some_injective h))
    ∙ sym (append-nil (callbacks_for t d.callbacks))
happens-callbacks t (hears (pos zero) buffer) d d' h =
    ap (λ (x : Discover). callbacks_for t x.callbacks) (sym (some_injective h))
    ∙ sym (append-nil (callbacks_for t d.callbacks))
happens-callbacks t (hears (pos (suc n)) buffer) d d' h = elim (Option-cases (c_string buffer)) [
  | inl e ↦ absurd (ground arith)
  | inr (u, e) ↦
      let is : some (heard (record d { buffer = buffer }) u).0 ≡ some d' = ground arith in
      ap (λ (x : Discover). callbacks_for t x.callbacks) (sym (some_injective is))
      ∙ heard-callbacks t u (record d { buffer = buffer })
      ∙ sym (append-nil (callbacks_for t d.callbacks))
]

registered_cons :
    (t : Text) (e : Event) (es : List Event)
    → registered t (e ∷ []) ++ registered t es ≡ registered t (e ∷ es)
registered_cons t (registers u c) es = ground arith
registered_cons t (hears n buffer) es = refl

-- What stands under a topic after some events is what stood there and what they registered.
pub run-callbacks :
    (t : Text) (es : List Event) (d d' : Discover)
    → run es d ≡ some d'
    → callbacks_for t d'.callbacks ≡ callbacks_for t d.callbacks ++ registered t es
unfolding run
run-callbacks t [] d d' h =
    ap (λ (x : Discover). callbacks_for t x.callbacks) (sym (some_injective h))
    ∙ sym (append-nil (callbacks_for t d.callbacks))
run-callbacks t (e ∷ es) d d' h = elim (Option-cases (happens e d)) [
  | inl bad ↦ absurd (ground arith)
  | inr (d1, ok) ↦
      let rest : run es d1 ≡ some d' = ground arith in
      run-callbacks t es d1 d' rest
      ∙ ap (λ cs. cs ++ registered t es) (happens-callbacks t e d d1 ok)
      ∙ append_assoc (callbacks_for t d.callbacks) (registered t (e ∷ [])) (registered t es)
      ∙ ap (λ cs. callbacks_for t d.callbacks ++ cs) (registered_cons t e es)
]

pub run_one : (t : Text) (c : ℕ) (d : Discover) → run (registers t c ∷ []) d ≡ some (recv t c d)
unfolding run happens
run_one t c d = refl
