-- ===== src/BlockingQueue/Wakeups.antt =====
-- What holds of `queue_t` under every interleaving of the threads that call it.
use code_c.Base.{
  ℕ, suc, ◌+◌, ◌-◌, ◌≤◌, ◌<◌, min, ◌≡◌, ◌⊎◌, inl, inr, refl, ap, ◌∙◌, sym, true, false, List, [],
  ◌∷◌, ◌++◌, append_assoc, arith, length, length-append,
}
use code_c.BlockingQueue.{Queue, close}
use code_c.BlockingQueue.Ring.{IsValid, count, contents, put-IsValid, get-IsValid, close-IsValid}
use code_c.BlockingQueue.Outcomes.{
  Stored, put-Stored, put-waits, put-refused, Fetched, get-Fetched, get-waits, get_closed,
}
use code_c.BlockingQueue.System.{
  System, Signal, nobody, wakes, Step, call_put, call_get, put_stores, put_refuses, put_parks,
  get_takes, get_refuses, get_parks, stray_put, stray_get, close_sets, broadcast_not_empty,
  broadcast_not_full, Reach, start, later,
}

-- While the queue is open, the threads awake can use up what sleepers wait for; once it is closed,
-- a sleeper has a broadcast coming.
pub record Served (q : Queue) (putting parked_put : List ℕ) (getting parked_get b₁ b₂ : ℕ)
    : Type 0 where
  pub getters : q.closed ≡ false → (parked_get ≡ 0) ⊎ (count q ≤ getting)
  pub putters :
      q.closed ≡ false → (length parked_put ≡ 0) ⊎ (q.size ≤ suc (count q + length putting))
  pub last_getters : q.closed ≡ true → (parked_get ≡ 0) ⊎ (0 < b₁)
  pub last_putters : q.closed ≡ true → (length parked_put ≡ 0) ⊎ (0 < b₁ + b₂)

pub record Inv (size : ℕ) (s : System) : Type 0 where
  pub sized : s.queue.size ≡ size
  pub valid : IsValid s.queue
  pub history : s.accepted ≡ s.delivered ++ contents s.queue
  pub served :
      Served s.queue s.putting s.parked_put s.getting s.parked_get s.to_not_empty s.to_not_full

length-split :
    (zs xs ys : List ℕ) (x : ℕ) → zs ≡ xs ++ (x ∷ ys) → length zs ≡ suc (length (xs ++ ys))
length-split zs xs ys x e =
    omega (arith, ap length e, length-append xs (x ∷ ys), length-append xs ys)

-- What a signal does to the numbers of sleepers and of threads awake.
Signal-length :
    {parked awake parked' awake' : List ℕ}
    → Signal parked awake parked' awake'
    → ((length parked' ≡ 0) × (length parked ≡ 0) × (length awake' ≡ length awake))
      ⊎ ((suc (length parked') ≡ length parked) × (length awake' ≡ suc (length awake)))
Signal-length (nobody e) = inl (ap length e, ap length e, refl)
Signal-length {parked} (wakes xs x ys e) = inr (sym (length-split parked xs ys x e), refl)

module _ {size : ℕ} {s : System} (inv : Inv size s) where
  open inv use {sized, valid, history, served}

  put_stores-Inv :
      (xs : List ℕ) (x : ℕ) (ys : List ℕ)
      → s.putting ≡ xs ++ (x ∷ ys)
      → (q : Queue) → Stored s.queue x q
      → IsValid q
      → Inv size (record s {
        queue = q;
        putting = xs ++ ys;
        getting = s.getting + min 1 s.parked_get;
        parked_get = s.parked_get - 1;
        accepted = s.accepted ++ (x ∷ []);
      })
  put_stores-Inv xs x ys e q st v = record {
    sized = st.same_size ∙ sized;
    valid = v;
    history = rw (history, st.appended) (append_assoc s.delivered (contents s.queue) (x ∷ []));
    served = record {
      getters = λ o. omega (arith, served.getters st.was_open, st.one_more);
      putters = λ o. omega (
        arith,
        served.putters st.was_open,
        st.one_more,
        st.same_size,
        length-split s.putting xs ys x e,
      );
      last_getters = λ c. cc st.still_open;
      last_putters = λ c. cc st.still_open;
    };
  }

  get_takes-Inv :
      (x : ℕ) {parked awake : List ℕ}
      → 0 < s.getting
      → Signal s.parked_put s.putting parked awake
      → s.queue.closed ≡ false
      → (q : Queue) → Fetched s.queue x q
      → IsValid q
      → Inv size (record s {
        queue = q;
        putting = awake;
        parked_put = parked;
        getting = s.getting - 1;
        delivered = s.delivered ++ (x ∷ []);
      })
  get_takes-Inv x {parked} {awake} pos sig o q fe v = record {
    sized = fe.same_size ∙ sized;
    valid = v;
    history =
        history
        ∙ ap (λ c. s.delivered ++ c) fe.front
        ∙ sym (append_assoc s.delivered (x ∷ []) (contents q));
    served = record {
      getters = λ _. omega (arith, served.getters o, fe.one_less);
      putters = λ _. omega (arith, served.putters o, fe.one_less, fe.same_size, Signal-length sig);
      last_getters = λ c. cc fe.still_open;
      last_putters = λ c. cc fe.still_open;
    };
  }

  -- The steps that leave the ring and the history alone.
  idle-Inv :
      (putting parked_put : List ℕ) (getting parked_get b₁ b₂ : ℕ)
      → Served s.queue putting parked_put getting parked_get b₁ b₂
      → Inv size (record s {
        putting = putting;
        parked_put = parked_put;
        getting = getting;
        parked_get = parked_get;
        to_not_empty = b₁;
        to_not_full = b₂;
      })
  idle-Inv putting parked_put getting parked_get b₁ b₂ sv = record {
    sized = sized;
    valid = valid;
    history = history;
    served = sv;
  }

  close-Inv : Inv size (record s { queue = close s.queue; to_not_empty = s.to_not_empty + 1 })
  unfolding close
  close-Inv = record {
    sized = sized;
    valid = close-IsValid valid;
    history = history;
    served = ground arith;
  }

-- Every step of every thread keeps the invariant.
pub Step-Inv : {size : ℕ} {s t : System} → Step s t → Inv size s → Inv size t
Step-Inv (call_put x) inv = idle-Inv inv _ _ _ _ _ _ (omega arith)
Step-Inv call_get inv = idle-Inv inv _ _ _ _ _ _ (omega arith)
Step-Inv {s} (put_stores xs x ys e r) inv =
    put_stores-Inv inv xs x ys e _ (put-Stored s.queue x inv.valid r) (put-IsValid x inv.valid)
Step-Inv {s} (put_refuses xs x ys e r) inv =
    let (same, c) = put-refused s.queue x inv.valid r in
    rw same (idle-Inv inv _ _ _ _ _ _ (ground arith))
Step-Inv {s} (put_parks xs x ys e r) inv =
    let (same, o, full) = put-waits s.queue x inv.valid r in
    rw same (idle-Inv inv _ _ _ _ _ _ (ground arith))
Step-Inv {s} (get_takes x pos o r sig) inv =
    get_takes-Inv inv x pos sig o _ (get-Fetched s.queue x inv.valid o r) (get-IsValid inv.valid)
Step-Inv {s} (get_refuses pos c r) inv =
    rw (get_closed s.queue c) (idle-Inv inv _ _ _ _ _ _ (ground arith))
Step-Inv {s} (get_parks pos r) inv =
    let (same, o, empty) = get-waits s.queue inv.valid r in
    rw same (idle-Inv inv _ _ _ _ _ _ (ground arith))
Step-Inv {s} (stray_put xs x ys e) inv =
    idle-Inv inv _ _ _ _ _ _ (omega (arith, length-split s.parked_put xs ys x e))
Step-Inv (stray_get pos) inv = idle-Inv inv _ _ _ _ _ _ (omega arith)
Step-Inv close_sets inv = close-Inv inv
Step-Inv (broadcast_not_empty pos) inv = idle-Inv inv _ _ _ _ _ _ (omega arith)
Step-Inv {s} (broadcast_not_full pos) inv =
    idle-Inv inv _ _ _ _ _ _ (omega (arith, length-append s.parked_put s.putting))

pub Reach-Inv : {q : Queue} {s : System} → IsValid q → contents q ≡ [] → Reach q s → Inv q.size s
Reach-Inv v e start = record { sized = refl; valid = v; history = sym e; served = omega arith }
Reach-Inv v e (later r st) = Step-Inv st (Reach-Inv v e r)
