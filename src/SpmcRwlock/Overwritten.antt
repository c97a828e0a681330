-- ===== src/SpmcRwlock/Overwritten.antt =====
-- The producer of spmc12.c takes the entry that a consumer reads.
use code_c.Base.{
  ℕ, zero, suc, ◌+◌, ◌-◌, ◌*◌, ◌%◌, ◌<◌, ◌≡◌, ◌⊎◌, refl, ap, ◌∙◌, some, length, set, length-set,
  leb, ◌==◌, arith, Bool-cases, inl, inr,
}
use code_c.Base.Cyclic.{mod_below, mod_round}
use code_c.SpmcRwlock.{
  Rwlock, IsDocumented, Spmc, to_write, to_read, alloc_loop, producer_alloc, consumer_alloc, rounds,
}
use code_c.SpmcRwlock.Ready.{AllRoomy, Ready, set-AllRoomy, less-Roomy, Produces, Ready-Produces}

same_product : {a b c d : ℕ} → a ≡ b → c ≡ d → a * c ≡ b * d
same_product e f = rw (e, f) refl

module _ {L : Type 0} (rwlock : Rwlock L) (documented : IsDocumented rwlock) where
  -- The next position is the entry `i` after `d` of them.
  abbrev Away : ℕ → ℕ → Spmc L → Type 0
  Away i d s = (s.write_pos + d ≡ i) ⊎ (s.write_pos + d ≡ i + s.capacity)

  Away-next :
      (i d : ℕ) (s t : Spmc L)
      → i < s.capacity
      → s.write_pos < s.capacity
      → t.write_pos ≡ (s.write_pos + 1) % s.capacity
      → t.capacity ≡ s.capacity
      → Away i (suc d) s
      → Away i d t
  Away-next i d s t low inside w c (inl e) =
      let m = mod_below (s.write_pos + 1) s.capacity (omega (arith, e, low)) in
      inl (omega (arith, w, m, e))
  Away-next i d s t low inside w c (inr e) = elim (Bool-cases (s.write_pos + 1 == s.capacity)) [
    | inl last ↦
        let m = mod_round (s.write_pos + 1) s.capacity (ground arith) (ground arith) in
        inl (ground (arith, w, m, e))
    | inr before ↦
        let m = mod_below (s.write_pos + 1) s.capacity (ground arith) in
        inr (omega (arith, w, m, e, c))
  ]

  Reaches : ℕ → ℕ → ℕ → Spmc L → Type 0
  Reaches fuel i d s =
      (t : Spmc L) × (rounds rwlock fuel d s ≡ some t)
      × (t.write_pos ≡ i)
      × (t.buf_size ≡ s.buf_size)
      × Ready rwlock documented 1 t

  Away-Reaches :
      (fuel i d : ℕ) (s : Spmc L)
      → i < s.capacity
      → Ready rwlock documented 1 s
      → Away i d s
      → Reaches (suc fuel) i d s
  unfolding rounds Reaches Produces
  Away-Reaches fuel i zero s low h (inl e) = (s, refl, omega (arith, e), refl, h)
  Away-Reaches fuel i zero s low h (inr e) = absurd (omega (arith, e, h.0))
  Away-Reaches fuel i (suc d) s low h away =
      let (t, e, w, c, b, ready) = Ready-Produces rwlock documented fuel s h in
      let (u, f, p, q, last) =
        Away-Reaches fuel i d t (omega (arith, c, low)) ready
          (Away-next i d s t low h.0 w c away) in
      (u, rw e f, p, q ∙ b, last)

  distance :
      (s : Spmc L) (i : ℕ)
      → i < s.capacity
      → s.write_pos < s.capacity
      → (d : ℕ) × (d < s.capacity) × Away i d s
  distance s i low inside = elim (Bool-cases (leb s.write_pos i)) [
    | inl behind ↦ (i - s.write_pos, omega (arith, low), inl (ground arith))
    | inr before ↦ (i + s.capacity - s.write_pos, ground arith, inr (omega (arith, inside)))
  ]

  -- In a state whose positions are in range, and each of whose locks has no writer and room for two
  -- readers more, `consumer_alloc` returns an entry. The producer then writes and releases fewer entries
  -- than there are, and its next `producer_alloc` returns the entry that the consumer still has.
  pub producer_overwrites :
      (fuel : ℕ) (s : Spmc L)
      → Ready rwlock documented 2 s
      → (buf d : ℕ) × (t u v : Spmc L) × (consumer_alloc rwlock (suc fuel) s ≡ some (buf, t))
        × (d < s.capacity)
        × (rounds rwlock (suc fuel) d t ≡ some u)
        × (producer_alloc rwlock (suc fuel) u ≡ some (buf, v))
  unfolding consumer_alloc producer_alloc alloc_loop to_read to_write Reaches
  producer_overwrites fuel s h =
      let i = s.read_pos in
      let inside : i < length s.rwlocks = omega (arith, h.1, h.3) in
      let (l, e, (n, r, room)) = h.4 i inside in
      let (k, g, held) = documented.grants l n r (omega (arith, room)) in
      let t : Spmc L = record s { rwlocks = set s.rwlocks i k } in
      let others : AllRoomy rwlock documented 1 s.rwlocks =
        λ j low. let (m, f, q) = h.4 j low in (m, f, less-Roomy rwlock documented m q) in
      let ready : Ready rwlock documented 1 t = (
        h.0,
        h.1,
        h.2,
        length-set s.rwlocks i k ∙ h.3,
        set-AllRoomy rwlock documented 1 s.rwlocks i k inside (suc n, held, omega (arith, room))
            others,
      ) in
      let (d, short, away) = distance t i h.1 h.0 in
      let (u, f, p, q, last) = Away-Reaches fuel i d t h.1 ready away in
      let (l2, e2, (n2, r2, room2)) = last.4 u.write_pos (omega (arith, last.0, last.3)) in
      let (k2, g2, held2) = documented.grants l2 n2 r2 (omega (arith, room2)) in
      (
        i * s.buf_size,
        d,
        t,
        u,
        (to_write rwlock u.write_pos u k2).1,
        rw (e, g) refl,
        short,
        f,
        rw (e2, g2) (ap (λ b. some (b, (to_write rwlock u.write_pos u k2).1)) (same_product p q)),
      )
