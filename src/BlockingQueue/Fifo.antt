-- ===== src/BlockingQueue/Fifo.antt =====
-- What a `queue_t` promises: a first-in first-out queue of at most `cap` pointers that can be
-- closed. One pass of an operation on it, with what the operation returns.
use code_c.Base.{
  ℕ, Bool, true, false, ◌<◌, ◌≡◌, arith, List, [], ◌∷◌, ◌++◌, if◌then◌else◌, leb, length,
}
use code_c.BlockingQueue.{Pass, returned, waits, Status, stored, refused, null}

pub record Fifo : Type 0 where
  pub items : List ℕ
  pub is_closed : Bool

unfoldable pub put : ℕ → Fifo → ℕ → Pass Status × Fifo
put cap f item =
    if f.is_closed
    then (returned refused, f)
    else if leb cap (length f.items)
    then (waits, f)
    else (returned stored, record f { items = f.items ++ (item ∷ []) })

-- The oldest item and the rest.
abbrev pub take_front : Bool → List ℕ → Pass ℕ × Fifo
take_front c [] = (waits, record { items = []; is_closed = c })
take_front c (x ∷ xs) = (returned x, record { items = xs; is_closed = c })

unfoldable pub get : Fifo → Pass ℕ × Fifo
get f = if f.is_closed then (returned null, f) else take_front f.is_closed f.items

unfoldable pub close : Fifo → Fifo
close f = record f { is_closed = true }

pub put_closed :
    (cap : ℕ) (f : Fifo) (x : ℕ) → f.is_closed ≡ true → put cap f x ≡ (returned refused, f)
unfolding put
put_closed cap f x c = rw c

pub put_full :
    (cap : ℕ) (f : Fifo) (x : ℕ)
    → f.is_closed ≡ false
    → length f.items ≡ cap
    → put cap f x ≡ (waits, f)
unfolding put
put_full cap f x o full = ground arith

pub put_room :
    (cap : ℕ) (f : Fifo) (x : ℕ)
    → f.is_closed ≡ false
    → length f.items < cap
    → put cap f x ≡ (returned stored, record f { items = f.items ++ (x ∷ []) })
unfolding put
put_room cap f x o room = ground arith
