-- ===== src/BlockingQueue/Safety.antt =====
-- What the users of a `queue_t` can rely on, however their threads interleave.
use code_c.Base.{
  ℕ, suc, ◌*◌, ◌^◌, ◌≤◌, ◌<◌, ◌≡◌, ◌≢◌, refl, ap, true, false, Option, some, List, [], ◌∷◌, ◌++◌,
  arith, length,
}
use code_c.BlockingQueue.{Queue, init, put, get, fault}
use code_c.BlockingQueue.Ring.{contents, length-contents, count-lt-size}
use code_c.BlockingQueue.Outcomes.{put_no_fault, get_no_fault}
use code_c.BlockingQueue.Refine.{init-IsValid}
use code_c.BlockingQueue.System.{System, Reach}
use code_c.BlockingQueue.Wakeups.{Inv, Reach-Inv}

length_pos : (xs : List ℕ) → xs ≢ [] → 0 < length xs
length_pos [] h = absurd (h refl)
length_pos (x ∷ xs) h = omega arith

-- A queue that `queue_init` made for `n` items, with `malloc` as documented, and a state that the
-- threads reach from it.
module _ {n : ℕ} {malloc : ℕ → Option (List ℕ)} {q : Queue} {s : System}
    (malloc_lem : (bytes : ℕ) (block : List ℕ)
      → malloc bytes ≡ some block
      → bytes ≤ 8 * length block)
    (small : suc n < 2 ^ 61) (made : init false n malloc ≡ some q) (r : Reach q s) where
  made-Inv : Inv q.size s × (q.size ≡ suc n) × (0 < n)
  made-Inv =
      let (v, e, o, cap, pos) = init-IsValid n malloc q malloc_lem small made in
      (Reach-Inv v e r, omega arith, pos)

  -- In every state reached from a queue that `queue_init` made for `n` items, in a block as large
  -- as asked for, with `n + 1` below 2^61: the pointers stored so far are, in order, those taken
  -- out so far and then those in the ring, which are at most `n`.
  pub stored_in_order :
      (s.accepted ≡ s.delivered ++ contents s.queue) × (length (contents s.queue) ≤ n)
  stored_in_order =
      let (inv, size, _) = made-Inv in
      (inv.history, omega (arith, length-contents s.queue, count-lt-size inv.valid, inv.sized))

  -- In every state reached from a queue that `queue_init` made for `n` items, in a block as large
  -- as asked for, with `n + 1` below 2^61: no pass of `queue_put` or `queue_get` accesses a slot
  -- outside `data`.
  pub no_fault : (x : ℕ) → ((put s.queue x).0 ≢ fault) × ((get s.queue).0 ≢ fault)
  no_fault x =
      let (inv, _, _) = made-Inv in
      (λ e. put_no_fault s.queue x inv.valid e, λ e. get_no_fault s.queue inv.valid e)

  -- In an open state reached from a queue that `queue_init` made for `n` items, in a block as
  -- large as asked for, with `n + 1` below 2^61: if the ring holds a pointer while a thread sleeps
  -- in `queue_get`, then a thread is awake in `queue_get`.
  pub no_lost_get :
      s.queue.closed ≡ false → contents s.queue ≢ [] → 0 < s.parked_get → 0 < s.getting
  no_lost_get o some_in sleeps =
      let (inv, _, _) = made-Inv in
      omega (
        arith,
        inv.served.getters o,
        length_pos (contents s.queue) some_in,
        length-contents s.queue,
      )

  -- In an open state reached from a queue that `queue_init` made for `n` items, in a block as
  -- large as asked for, with `n + 1` below 2^61: if the ring has room while a thread sleeps in
  -- `queue_put`, then a thread is awake in `queue_put`.
  pub no_lost_put :
      s.queue.closed ≡ false → length (contents s.queue) < n → s.parked_put ≢ [] → s.putting ≢ []
  no_lost_put o room sleeps none_awake =
      let (inv, size, _) = made-Inv in
      omega (
        arith,
        inv.served.putters o,
        inv.sized,
        length_pos s.parked_put sleeps,
        length-contents s.queue,
        ap length none_awake,
      )

  -- In an open state reached from a queue that `queue_init` made for `n` items, in a block as
  -- large as asked for, with `n + 1` below 2^61: if no thread is awake and one sleeps in
  -- `queue_put`, then none sleeps in `queue_get`.
  pub no_deadlock :
      s.queue.closed ≡ false → s.putting ≡ [] → s.getting ≡ 0 → s.parked_put ≢ [] → s.parked_get ≡ 0
  no_deadlock o no_put no_get sleeps =
      let (inv, size, pos) = made-Inv in
      omega (
        arith,
        inv.served.getters o,
        inv.served.putters o,
        inv.sized,
        length_pos s.parked_put sleeps,
        ap length no_put,
      )

  -- In a closed state reached from a queue that `queue_init` made for `n` items, in a block as
  -- large as asked for, with `n + 1` below 2^61: if every call of `queue_close` has made its
  -- broadcasts, nobody sleeps.
  pub close_wakes_all :
      s.queue.closed ≡ true
      → s.to_not_empty ≡ 0
      → s.to_not_full ≡ 0
      → (s.parked_get ≡ 0) × (length s.parked_put ≡ 0)
  close_wakes_all c b₁ b₂ =
      let (inv, _, _) = made-Inv in
      omega (arith, inv.served.last_getters c, inv.served.last_putters c)
