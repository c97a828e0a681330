-- ===== src/SpmcRwlock/Ready.antt =====
-- The states of spmc12.c in which every entry can be locked for reading, and that the producer keeps
-- them.
use native.Mathlib.Nat.{mul-div_left, mod-lt}
use code_c.Base.{
  ℕ, zero, suc, ◌+◌, ◌%◌, ◌<◌, ◌≡◌, refl, sym, subst, ◌∙◌, some, List, length, get_elem?, set,
  replicate, length-replicate, length-set, set-set, get_elem?-set_self, get_elem?-set_ne, leb, ◌==◌,
  if◌then◌else◌, arith, Bool-cases, inl, inr,
}
use code_c.SpmcRwlock.{
  Rwlock, IsDocumented, Spmc, set_up, to_write, alloc_loop, producer_alloc, unlocked,
  producer_alloc_end, produced,
}

module _ {L : Type 0} (rwlock : Rwlock L) (documented : IsDocumented rwlock) where
  -- Only readers hold the lock, and as many more can as `room` says.
  abbrev pub Roomy : ℕ → L → Type 0
  Roomy room l = (n : ℕ) × documented.Reads l n × (n + room < suc documented.most)

  abbrev pub AllRoomy : ℕ → List L → Type 0
  AllRoomy room ls = (i : ℕ) → i < length ls → (l : L) × (get_elem? ls i ≡ some l) × Roomy room l

  -- The positions are in the range of the entries, and each entry has its lock.
  abbrev pub Ready : ℕ → Spmc L → Type 0
  Ready room s =
      (s.write_pos < s.capacity)
      × (s.read_pos < s.capacity)
      × (0 < s.buf_size)
      × (length s.rwlocks ≡ s.capacity)
      × AllRoomy room s.rwlocks

  pub set-AllRoomy :
      (room : ℕ) (ls : List L) (j : ℕ) (k : L)
      → j < length ls
      → Roomy room k
      → AllRoomy room ls
      → AllRoomy room (set ls j k)
  set-AllRoomy room ls j k inside r roomy i h = elim (Bool-cases (i == j)) [
    | inl same ↦
        let at_j : j ≡ i = ground arith in
        (
          k,
          subst (λ m. get_elem? (set ls j k) m ≡ some k) at_j (get_elem?-set_self ls j k inside),
          r,
        )
    | inr other ↦
        let (l, e, q) = roomy i (omega (arith, h, length-set ls j k)) in
        (l, get_elem?-set_ne ls k (λ m. absurd (ground arith)) ∙ e, q)
  ]

  -- The state that `spmc_init` makes.
  replicate-AllRoomy :
      (room n : ℕ) → room < suc documented.most → AllRoomy room (replicate n rwlock.init)
  replicate-AllRoomy room zero r i h = absurd (omega (arith, h))
  replicate-AllRoomy room (suc n) r zero h =
      (rwlock.init, refl, (0, documented.starts, omega (arith, r)))
  replicate-AllRoomy room (suc n) r (suc i) h = replicate-AllRoomy room n r i (omega (arith, h))

  pub set_up-Ready :
      (n buf_size : ℕ)
      → 0 < n
      → 0 < buf_size
      → 1 < documented.most
      → Ready 2 (set_up rwlock n buf_size)
  unfolding set_up
  set_up-Ready n buf_size some_entries sized two = (
    some_entries,
    some_entries,
    sized,
    length-replicate n rwlock.init,
    replicate-AllRoomy 2 n (omega (arith, two)),
  )

  pub less-Roomy : (l : L) → Roomy 2 l → Roomy 1 l
  less-Roomy l (n, r, h) = (n, r, omega (arith, h))

  -- An entry is written and released.
  unfoldable pub Produces : ℕ → Spmc L → Type 0
  Produces fuel s =
      (t : Spmc L) × (produced rwlock fuel s ≡ some t)
      × (t.write_pos ≡ (s.write_pos + 1) % s.capacity)
      × (t.capacity ≡ s.capacity)
      × (t.buf_size ≡ s.buf_size)
      × Ready 1 t

  pub Ready-Produces : (fuel : ℕ) (s : Spmc L) → Ready 1 s → Produces (suc fuel) s
  unfolding Produces produced producer_alloc alloc_loop to_write producer_alloc_end unlocked
  Ready-Produces fuel s h =
      let (l, e, (n, r, room)) = h.4 s.write_pos (omega (arith, h.0, h.3)) in
      let (k, g, held) = documented.grants l n r (omega (arith, room)) in
      let inside : s.write_pos < length s.rwlocks = omega (arith, h.0, h.3) in
      let freed = documented.releases k n held in
      let self = get_elem?-set_self s.rwlocks s.write_pos k inside in
      (
        record {
          size = if leb s.size s.write_pos then s.write_pos + 1 else s.size;
          capacity = s.capacity;
          buf_size = s.buf_size;
          write_pos = (s.write_pos + 1) % s.capacity;
          read_pos = s.write_pos;
          rwlocks = set (set s.rwlocks s.write_pos k) s.write_pos (rwlock.unlock k);
        },
        rw (e, g, mul-div_left s.write_pos h.2, self) refl,
        refl,
        refl,
        refl,
        (
          mod-lt (s.write_pos + 1) (omega (arith, h.0)),
          h.0,
          h.2,
          length-set (set s.rwlocks s.write_pos k) s.write_pos (rwlock.unlock k)
              ∙ length-set s.rwlocks s.write_pos k
              ∙ h.3,
          subst (AllRoomy 1) (sym (set-set s.rwlocks s.write_pos k (rwlock.unlock k)))
              (set-AllRoomy 1 s.rwlocks s.write_pos (rwlock.unlock k) inside (n, freed, room) h.4),
        ),
      )
