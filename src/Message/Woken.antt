-- ===== src/Message/Woken.antt =====
-- What a subscriber of message.hpp does on notifications.
use code_c.Base.{
  ℕ, suc, ◌+◌, ◌≡◌, ◌≤◌, refl, true, none, Option, some, List, [], ◌∷◌, ◌==◌, if◌then◌else◌, length,
  All, ◌>>=◌,
}
use code_c.Base.Int.{ℤ, pos, negsuc}
use code_c.ShmBlock.{Block, Os, History, sizeof_state, Acquired, faults}
use code_c.ShmBlock.Uncounted.{open_existing, read_block}
use code_c.ShmBlock.Uncounted.Reader.{Sound, read_block_unwritten}
use code_c.Message.{Subscriber, notify_read, size_of_block, read_with, notified, message_read_cb}

-- A datagram: its size, its first byte, and what `LockForRead` returns if it is called.
pub record Datagram : Type 0 where
  pub size : ℕ
  pub byte : ℕ
  pub lock : ℤ

-- Where it is called, it finds that a block was written.
abbrev pub FindsBlock : Datagram → Type 0
FindsBlock g = g.byte ≡ notify_read → (i : ℕ) × (g.lock ≡ pos i)

pub wakes : Os → List Datagram → Subscriber → History → Option (Subscriber × History)
wakes os [] s h = some (s, h)
wakes os (g ∷ gs) s h = do
  (t, k) ← message_read_cb os g.lock (pos g.size) g.byte s h
  wakes os gs t k

abbrev pub reads_in : List Datagram → ℕ
reads_in [] = 0
reads_in (g ∷ gs) = (if g.byte == notify_read then 1 else 0) + reads_in gs

-- A message given to the callback stands behind the state of a mapping, and has the size of a block.
abbrev pub IsMessage : ℕ × ℕ → Type 0
IsMessage (p, size) = (sizeof_state ≤ p) × (size ≡ size_of_block)

abbrev pub Fine : Subscriber → Type 0
Fine s = Sound s.shm × All IsMessage s.received

-- One message more at most, and only for `notify_read`.
abbrev More : ℕ → Subscriber → Subscriber → Type 0
More n s t = length t.received ≤ length s.received + n

read_with_faults :
    (s : Subscriber) (x : Acquired × Block × History) → x.0 ≡ faults → read_with s x ≡ none
unfolding read_with
read_with_faults s x e = rw e refl

-- The `assert` of `AcquireBlockToRead` fails on a subscriber that can open the object, before the
-- publisher has written a block.
unwritten_fails :
    (os : Os) (n size : ℕ) (s : Subscriber) (h : History)
    → (open_existing os s.shm h).ok ≡ true
    → message_read_cb os (negsuc n) (pos (suc size)) notify_read s h ≡ none
unfolding message_read_cb notified
unwritten_fails os n size s h opened =
    read_with_faults s (read_block os (negsuc n) s.shm h) (read_block_unwritten os n s.shm h opened)
