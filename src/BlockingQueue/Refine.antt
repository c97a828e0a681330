-- ===== src/BlockingQueue/Refine.antt =====
-- The ring of `queue_t` and the closable bounded queue `Fifo`.
use code_c.Base.Cyclic.{mod_below, mod_round}
use mathlib.Core.Option
use code_c.Base.{
  ℕ, suc, ◌+◌, ◌-◌, ◌*◌, ◌%◌, ◌^◌, ◌≤◌, ◌<◌, ◌≡◌, inl, inr, false, Option, none, some, List, [],
  arith, length, Bool-cases, leb, if◌then◌else◌, Option-cases, ℕ_discrete, ◌∙◌, sym,
}
use code_c.BlockingQueue.{Queue, fresh, size_mod, init, put, get}
use code_c.BlockingQueue.Passes.{
  put_refused, put_waits, put_stored, get_refused, get_waits, get_fetched, contents-stored_in,
  contents_pos,
}
use code_c.BlockingQueue.Fifo
use code_c.BlockingQueue.Fifo.{Fifo}
use code_c.BlockingQueue.Ring.{IsValid, count, count-lt-size, contents, length-contents}

-- The abstract queue that a ring stands for, and its capacity.
abbrev pub view : Queue → Fifo
view q = record { items = contents q; is_closed = q.closed }

abbrev pub capacity : Queue → ℕ
capacity q = q.size - 1

-- One pass of `queue_put` on a valid ring returns, waits and stores exactly as a pass of `Fifo.put`
-- with one place less than the ring has slots; in particular no pass faults.
pub put_refines :
    {q : Queue} (x : ℕ)
    → IsValid q
    → let (r, q') = put q x in (r, view q') ≡ Fifo.put (capacity q) (view q) x
put_refines {q} x v = elim (Bool-cases q.closed) [
  | inl c ↦ rw (put_refused q x c) (sym (Fifo.put_closed _ _ x c))
  | inr o ↦ elim (ℕ_discrete (count q) (q.size - 1)) [
    | yes full ↦
        rw (put_waits q x v o full) (sym (Fifo.put_full _ _ x o (length-contents q ∙ full)))
    | no ne ↦
        rw (put_stored q x v o ne, contents-stored_in q x v ne)
          (sym (Fifo.put_room _ _ x o (omega (arith, length-contents q, count-lt-size v))))
  ]
]

-- One pass of `queue_get` on a valid ring returns and waits exactly as a pass of `Fifo.get`: NULL
-- when closed, the oldest pointer when there is one, and no pass faults.
pub get_refines : {q : Queue} → IsValid q → let (r, q') = get q in (r, view q') ≡ Fifo.get (view q)
unfolding Fifo.get
get_refines {q} v = elim (Bool-cases q.closed) [
  | inl c ↦ rw (get_refused q c, c)
  | inr o ↦ elim (ℕ_discrete (count q) 0) [
    | yes empty ↦ rw (get_waits q v o empty, o, empty)
    | no ne ↦ rw (get_fetched q v o ne, contents_pos q v ne, o)
  ]
]

init_small :
    (n : ℕ) (malloc : ℕ → Option (List ℕ))
    → suc n < 2 ^ 61
    → init false n malloc
      ≡ (if leb n 0 then none else Option.map (fresh (n + 1)) (malloc (8 * (n + 1))))
unfolding init
init_small n malloc small =
    rw (mod_below (n + 1) size_mod (omega arith), mod_below (8 * (n + 1)) size_mod (omega arith))

-- What `queue_init` returns: with a block as large as asked for, a valid empty queue for `n` items,
-- if `(n + 1) * 8` bytes fit in a `size_t`; `n` is not 0.
pub init-IsValid :
    (n : ℕ) (malloc : ℕ → Option (List ℕ)) (q : Queue)
    → ((bytes : ℕ) (block : List ℕ) → malloc bytes ≡ some block → bytes ≤ 8 * length block)
    → suc n < 2 ^ 61
    → init false n malloc ≡ some q
    → IsValid q × (contents q ≡ []) × (q.closed ≡ false) × (capacity q ≡ n) × (0 < n)
init-IsValid n malloc q spec small e = elim (Option-cases (malloc (8 * (n + 1)))) [
  | inl out ↦ absurd (ground (arith, init_small n malloc small))
  | inr (block, got) ↦ made block (spec _ block got) (ground (arith, init_small n malloc small))
]
  where
    made :
        (block : List ℕ)
        → 8 * (n + 1) ≤ 8 * length block
        → (q ≡ fresh (n + 1) block) × (0 < n)
        → IsValid q × (contents q ≡ []) × (q.closed ≡ false) × (capacity q ≡ n) × (0 < n)
    made block room (same, pos) =
        let none_in : (0 + (n + 1) - 0) % (n + 1) ≡ 0 =
          ground (arith, mod_round (0 + (n + 1) - 0) (n + 1)) in
        rw same (rw none_in (ground arith))
