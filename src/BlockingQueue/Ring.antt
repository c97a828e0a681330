-- ===== src/BlockingQueue/Ring.antt =====
-- The representation invariant of `queue_t`, and the items that a ring holds.
use native.Mathlib.Nat.{mod-add-mod, mod-eq_of_lt, mod-eq-sub-mod, add-zero}
use code_c.Base.{
  ℕ, zero, suc, ◌+◌, ◌-◌, ◌%◌, ◌≤◌, ◌<◌, ◌≡◌, ◌≢◌, refl, ap, ap₂, ◌∙◌, List, [], ◌∷◌, ◌++◌, arith,
  length, set, get_or, get_or-set_self, get_or-set_ne, length-set, dec_lt,
}
use code_c.BlockingQueue.{Queue, size_mod, put, get, close}

pub record IsValid (q : Queue) : Type 0 where
  pub two : 2 ≤ q.size
  pub fits : q.size < size_mod
  pub allocated : q.size ≤ length q.slots
  pub in_lt : q.in_pos < q.size
  pub out_lt : q.out_pos < q.size

-- The number of stored items: one slot always stays empty.
abbrev pub count : Queue → ℕ
count q = (q.in_pos + q.size - q.out_pos) % q.size

pub count-lt-size : {q : Queue} → IsValid q → count q < q.size
count-lt-size v = omega arith

pub put-IsValid : {q : Queue} (x : ℕ) → IsValid q → IsValid (put q x).1
unfolding put
put-IsValid {q} x v = ground (arith, length-set q.slots q.in_pos x)

pub get-IsValid : {q : Queue} → IsValid q → IsValid (get q).1
unfolding get
get-IsValid v = ground arith

pub close-IsValid : {q : Queue} → IsValid q → IsValid (close q)
unfolding close
close-IsValid v = ground arith

-- The `n` items from slot `h` on, round the ring.
module _ (slots : List ℕ) (size : ℕ) where
  abbrev pub run_of : ℕ → ℕ → List ℕ
  run_of h zero = []
  run_of h (suc n) = get_or slots h 0 ∷ run_of ((h + 1) % size) n

  pub length-run_of : (h n : ℕ) → length (run_of h n) ≡ n
  length-run_of h zero = refl
  length-run_of h (suc n) = ap suc (length-run_of ((h + 1) % size) n)

abbrev pub contents : Queue → List ℕ
contents q = run_of q.slots q.size q.out_pos (count q)

pub length-contents : (q : Queue) → length (contents q) ≡ count q
length-contents q = length-run_of q.slots q.size q.out_pos (count q)

-- Going on by fewer than `size` slots does not come back.
add-mod-ne : (size h k : ℕ) → h < size → suc k < size → (h + suc k) % size ≢ h
add-mod-ne size h k hh hk = elim (dec_lt (h + suc k) size) [
  | yes p ↦ omega (arith, mod-eq_of_lt p)
  | no p ↦ omega (
    arith,
    mod-eq-sub-mod {n = h + suc k} {m = size} (omega arith),
    mod-eq_of_lt {n = h + suc k - size} {m = size} (omega arith),
  )
]

add-mod_step : (size h n : ℕ) → (h + suc n) % size ≡ ((h + 1) % size + n) % size
add-mod_step size h n = rw mod-add-mod (ap (λ k. k % size) (omega arith))

-- A write just behind the stored items appends to them.
pub run_of-set :
    (slots : List ℕ) (size x n h i : ℕ)
    → size ≤ length slots
    → h < size
    → n < size
    → i ≡ (h + n) % size
    → run_of (set slots i x) size h (suc n) ≡ run_of slots size h n ++ (x ∷ [])
run_of-set slots size x zero h i room hh hn e =
    rw (e, add-zero, mod-eq_of_lt hh, get_or-set_self slots h x 0 (omega arith))
run_of-set slots size x (suc n) h i room hh hn e =
    ap₂ ◌∷◌ (get_or-set_ne slots i h x 0 (rw e (add-mod-ne size h n hh hn))) (
      run_of-set slots size x n ((h + 1) % size) i room (omega arith) (omega arith)
        (e ∙ add-mod_step size h n))
