-- ===== src/Spmc/Unwritten.antt =====
-- `spmc_init` of spmc9.c, and what a consumer finds before the first entry is written.
use native.Mathlib.Nat.{mul-div_left}
use code_c.Base.{
  ℕ, zero, suc, ◌+◌, ◌-◌, ◌*◌, ◌≤◌, ◌<◌, ◌≡◌, refl, ap, ◌∙◌, true, some, List, ◌∷◌, ◌++◌, arith,
  All,
}
use code_c.Base.Int.{ℤ, pos}
use code_c.ShmLocks.{resting, Consumer, away, reading}
use code_c.Spmc.{
  Entries, State, cleared, set_up, bad_sizes, attach, spmc_init, taken, entry_address, entry_index,
  loads, looks, locks, Reach, start, later,
}
use code_c.Spmc.Exclusion.Always.{Fresh}

cleared_lem : (n : ℕ) (f : ℕ → ℤ) (j : ℕ) → j < n → cleared n f j ≡ pos 0
unfolding cleared
cleared_lem zero f j lt = absurd (omega arith)
cleared_lem (suc n) f j lt = ground (arith, cleared_lem n f j)

-- For a number of entries from 1 to 64, a positive size and memory that could be attached, `spmc_init`
-- of a producer sets up that many free entries of that size and none written, whatever the memory held.
pub spmc_init-Fresh :
    (key : ℤ) (n size shmid : ℕ) (shm : Entries) (cs : List Consumer)
    → 0 < n
    → n ≤ 64
    → 0 < size
    → All (λ c. c ≡ away) cs
    → (e : Entries) × (spmc_init key (pos n) (pos size) true (some shmid) (some shm) ≡ some e)
      × (e.buf_size ≡ size)
      × Fresh n (record { entries = e; producer = resting; consumers = cs })
unfolding spmc_init bad_sizes attach set_up
spmc_init-Fresh key n size shmid shm cs some_entries few sized rest = (
  set_up key n size shm,
  ground arith,
  refl,
  (some_entries, refl, refl, refl, refl, cleared_lem n shm.nconsumers, refl, rest),
)

-- The release of the pointer to an entry finds the entry.
pub entry_index-address :
    (buf buf_size i : ℕ)
    → 0 < buf_size
    → entry_index buf buf_size (entry_address buf buf_size i) ≡ i
unfolding entry_index entry_address
entry_index-address buf buf_size i sized =
    let offset : buf + i * buf_size - buf ≡ i * buf_size = omega arith in
    rw offset (mul-div_left i sized)

-- From every state set up by `spmc_init` with a consumer that has not begun: a state can be reached,
-- the producer having done nothing, in which that consumer reads entry 0 and `size` is 0.
reads_unwritten :
    {n : ℕ} (s : State) (xs ys : List Consumer)
    → Fresh n s
    → s.consumers ≡ xs ++ (away ∷ ys)
    → (t : State) × Reach s t
      × (t.consumers ≡ xs ++ (reading 0 ∷ ys))
      × (t.producer ≡ resting)
      × (t.entries.size ≡ 0)
unfolding taken
reads_unwritten s xs ys f e =
    let free : s.entries.nconsumers s.entries.read_pos ≡ pos 0 =
      ap s.entries.nconsumers f.4 ∙ f.5 0 f.0 in
    (
      _,
      later
          (later (later start (loads xs ys e))
            (looks xs ys s.entries.read_pos refl (ground (arith, free))))
          (locks xs ys s.entries.read_pos _ refl refl),
      ap (λ i. xs ++ (reading i ∷ ys)) f.4,
      f.6,
      f.2,
    )
