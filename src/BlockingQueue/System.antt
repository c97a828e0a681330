-- ===== src/BlockingQueue/System.antt =====
-- Threads that share one `queue_t`, interleaved in any order. Between two steps the mutex is free:
-- a step is one pass of a loop under the lock, or one call that needs no lock.
use code_c.Base.{ℕ, ◌+◌, ◌-◌, ◌<◌, min, ◌≡◌, true, false, List, [], ◌∷◌, ◌++◌}
use code_c.BlockingQueue.{Queue, put, get, close, returned, waits, stored, refused, null}

pub record System : Type 0 where
  pub queue : Queue
  pub putting : List ℕ  -- the items of the threads that run `queue_put`
  pub parked_put : List ℕ  -- those asleep on `not_full`
  pub getting : ℕ  -- how many threads run `queue_get`
  pub parked_get : ℕ  -- and are asleep on `not_empty`
  pub to_not_empty : ℕ  -- threads in `queue_close` before its first broadcast
  pub to_not_full : ℕ  -- and before its second
  pub accepted : List ℕ  -- what `queue_put` has stored so far, oldest first
  pub delivered : List ℕ  -- what `queue_get` has taken out so far

-- `pthread_cond_signal` on `not_full`: it wakes one of the sleepers, if there is one.
pub data Signal (parked awake : List ℕ) : List ℕ → List ℕ → Type 0 where
  nobody : parked ≡ [] → Signal parked awake parked awake
  wakes :
      (xs : List ℕ) (x : ℕ) (ys : List ℕ)
      → parked ≡ xs ++ (x ∷ ys)
      → Signal parked awake (xs ++ ys) (x ∷ awake)

pub data Step (s : System) : System → Type 0 where
  call_put : (x : ℕ) → Step s (record s { putting = x ∷ s.putting })
  call_get : Step s (record s { getting = s.getting + 1 })
  -- The store and `pthread_cond_signal(&q->not_empty)`.
  put_stores :
      (xs : List ℕ) (x : ℕ) (ys : List ℕ)
      → s.putting ≡ xs ++ (x ∷ ys)
      → (put s.queue x).0 ≡ returned stored
      → Step s (record s {
        queue = (put s.queue x).1;
        putting = xs ++ ys;
        getting = s.getting + min 1 s.parked_get;
        parked_get = s.parked_get - 1;
        accepted = s.accepted ++ (x ∷ []);
      })
  put_refuses :
      (xs : List ℕ) (x : ℕ) (ys : List ℕ)
      → s.putting ≡ xs ++ (x ∷ ys)
      → (put s.queue x).0 ≡ returned refused
      → Step s (record s { queue = (put s.queue x).1; putting = xs ++ ys })
  put_parks :
      (xs : List ℕ) (x : ℕ) (ys : List ℕ)
      → s.putting ≡ xs ++ (x ∷ ys)
      → (put s.queue x).0 ≡ waits
      → Step s (record s {
        queue = (put s.queue x).1;
        putting = xs ++ ys;
        parked_put = x ∷ s.parked_put;
      })
  -- The fetch and `pthread_cond_signal(&q->not_full)`.
  get_takes :
      (x : ℕ) {parked awake : List ℕ}
      → 0 < s.getting
      → s.queue.closed ≡ false
      → (get s.queue).0 ≡ returned x
      → Signal s.parked_put s.putting parked awake
      → Step s (record s {
        queue = (get s.queue).1;
        putting = awake;
        parked_put = parked;
        getting = s.getting - 1;
        delivered = s.delivered ++ (x ∷ []);
      })
  get_refuses :
      0 < s.getting
      → s.queue.closed ≡ true
      → (get s.queue).0 ≡ returned null
      → Step s (record s { queue = (get s.queue).1; getting = s.getting - 1 })
  get_parks :
      0 < s.getting
      → (get s.queue).0 ≡ waits
      → Step s (record s {
        queue = (get s.queue).1;
        getting = s.getting - 1;
        parked_get = s.parked_get + 1;
      })
  -- A wait may end without a signal.
  stray_put :
      (xs : List ℕ) (x : ℕ) (ys : List ℕ)
      → s.parked_put ≡ xs ++ (x ∷ ys)
      → Step s (record s { putting = x ∷ s.putting; parked_put = xs ++ ys })
  stray_get :
      0 < s.parked_get
      → Step s (record s { getting = s.getting + 1; parked_get = s.parked_get - 1 })
  -- `queue_close`: the assignment under the lock, then the two broadcasts without it.
  close_sets : Step s (record s { queue = close s.queue; to_not_empty = s.to_not_empty + 1 })
  broadcast_not_empty :
      0 < s.to_not_empty
      → Step s (record s {
        getting = s.getting + s.parked_get;
        parked_get = 0;
        to_not_empty = s.to_not_empty - 1;
        to_not_full = s.to_not_full + 1;
      })
  broadcast_not_full :
      0 < s.to_not_full
      → Step s (record s {
        putting = s.parked_put ++ s.putting;
        parked_put = [];
        to_not_full = s.to_not_full - 1;
      })

abbrev pub boot : Queue → System
boot q = record {
  queue = q;
  putting = [];
  parked_put = [];
  getting = 0;
  parked_get = 0;
  to_not_empty = 0;
  to_not_full = 0;
  accepted = [];
  delivered = [];
}

-- The states that the threads can reach from a fresh queue `q`.
pub data Reach (q : Queue) : System → Type 0 where
  start : Reach q (boot q)
  later : {s t : System} → Reach q s → Step s t → Reach q t
