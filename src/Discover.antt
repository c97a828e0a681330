-- ===== src/Discover.antt =====
-- c++/20230108-pubsub-shm-udp-3/service_discover.hpp: topics announced by multicast. A string and
-- a buffer are the lists of their bytes; a callback is known by its number. The calls of libuv are
-- parameters.
pub mod Registered
pub mod Announced
mod Tests
use code_c.Base.{
  ℕ, zero, suc, ◌+◌, ◌-◌, Bool, true, false, ◌&&◌, Option, none, some, List, [], ◌∷◌, ◌++◌, ◌==◌,
  if◌then◌else◌, length, set, drop, replicate, ◌>>=◌,
}
use code_c.Base.Int.{ℤ, pos, negsuc}
use code_c.Text.{text_eq}

abbrev pub Text : Type 0
Text = List ℕ

-- `sizeof(buffer_)`
abbrev pub buffer_size : ℕ
buffer_size = 1500

-- `ServiceDiscover`: `buffer_`, and `callbacks_` with the keys in the order of their insertion.
pub record Discover : Type 0 where
  pub buffer : List ℕ
  pub callbacks : List (Text × List ℕ)

-- A call of a callback.
pub record Called : Type 0 where
  pub callback : ℕ
  pub topic : Text
  pub value : List ℕ

-- What the libuv calls of the constructor return, in their order.
pub record Answers : Type 0 where
  pub init_server : ℤ
  pub init_client : ℤ
  pub group_address : ℤ
  pub bind : ℤ
  pub membership : ℤ
  pub recv_start : ℤ

unfoldable pub is_zero : ℤ → Bool
is_zero (pos n) = n == 0
is_zero (negsuc n) = false

unfoldable pub not_negative : ℤ → Bool
not_negative (pos n) = true
not_negative (negsuc n) = false

-- The constructor, with what the memory holds; `none` is a failed `assert` or `throw`.
unfoldable pub started : Answers → Bool
started a =
    is_zero a.init_server
    && (is_zero a.init_client
        && (is_zero a.group_address
            && (not_negative a.bind && (not_negative a.membership && not_negative a.recv_start))))

unfoldable pub new_discover : Answers → List ℕ → Option Discover
new_discover a memory =
    if started a then some (record { buffer = memory; callbacks = [] }) else none

-- `std::copy` of `ys` to place `i` of `xs`.
unfoldable pub copied : List ℕ → ℕ → List ℕ → List ℕ
copied xs i [] = xs
copied xs i (y ∷ ys) = copied (set xs i y) (suc i) ys

-- `Send`: the bytes sent, and the answer of `uv_udp_try_send`, which is returned.
unfoldable pub packet : Text → List ℕ → List ℕ
packet topic value =
    copied (set (copied (replicate (length value + length topic + 1) 0) 0 topic) (length topic) 0)
      (length topic + 1) value

pub send : (List ℕ → ℤ) → Text → List ℕ → ℤ × List ℕ
send try_send topic value = (try_send (packet topic value), packet topic value)

-- `callbacks_[topic]`, which makes an entry where there is none.
pub callbacks_for : Text → List (Text × List ℕ) → List ℕ
callbacks_for t [] = []
callbacks_for t ((u, cs) ∷ rest) = if text_eq u t then cs else callbacks_for t rest

unfoldable pub with_callbacks : Text → List ℕ → List (Text × List ℕ) → List (Text × List ℕ)
with_callbacks t new [] = (t, new) ∷ []
with_callbacks t new ((u, cs) ∷ rest) =
    let others = with_callbacks t new rest in
    if text_eq u t then (u, cs ++ new) ∷ rest else (u, cs) ∷ others

-- `Recv`
unfoldable pub recv : Text → ℕ → Discover → Discover
recv topic callback d = record d { callbacks = with_callbacks topic (callback ∷ []) d.callbacks }

-- `std::string topic(buf->base)`: the bytes before the first 0; `none` when the buffer has none.
pub c_string : List ℕ → Option Text
c_string [] = none
c_string (x ∷ xs) =
    let rest = (do cs ← c_string xs; some (x ∷ cs)) in if x == 0 then some [] else rest

-- `uv_buf_init(buf->base + topic.size() + 1, buf->len - topic.size() - 1)`
pub value_after : Text → List ℕ → List ℕ
value_after topic buffer = drop (length topic + 1) buffer

unfoldable pub call_all : Text → List ℕ → List ℕ → List Called
call_all topic value [] = []
call_all topic value (c ∷ cs) =
    record { callback = c; topic = topic; value = value } ∷ call_all topic value cs

-- `discover_read_cb`, which finds the datagram at the front of `buffer_`.
pub heard : Discover → Text → Discover × List Called
heard d topic = (
  record d { callbacks = with_callbacks topic [] d.callbacks },
  call_all topic (value_after topic d.buffer) (callbacks_for topic d.callbacks),
)

pub discover_read_cb : ℤ → Discover → Option (Discover × List Called)
discover_read_cb (negsuc n) d = some (d, [])
discover_read_cb (pos zero) d = some (d, [])
discover_read_cb (pos (suc n)) d = do topic ← c_string d.buffer; some (heard d topic)
