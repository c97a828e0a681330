-- ===== src/BoundedQueue/Laws.antt =====
-- `push_back` and `pop_front` of the class `BoundedBlockingQueue<T>`: before the positions go round,
-- and at the end of the array.
use code_c.Base.{
  ℕ, zero, suc, ◌+◌, ◌-◌, ◌%◌, ◌≤◌, ◌<◌, ◌≡◌, ◌≢◌, refl, ap, ◌∙◌, sym, append-nil, append_assoc,
  true, false, some, List, [], ◌∷◌, ◌++◌, arith, length, length-replicate, length-set, set,
  get_elem?, take, drop, length-drop, take-set, drop-set, length-append, ◌⊎◌, inl, inr, ℕ_discrete,
}
use code_c.Base.Cyclic.{mod_below, mod_round}
use code_c.BlockingQueue.{returned, waits, fault}
use code_c.BoundedQueue.{Bounded, make, push_back, pop_front, push_all}

next_below : (n i : ℕ) → i < n → (i + 1) % (n + 1) ≡ i + 1
next_below n i h = mod_below (i + 1) (n + 1) (omega arith)

module _ {A : Type 0} where
  -- Nothing has gone round yet: the items stand between `out_` and `in_`.
  pub record Straight (n : ℕ) (q : Bounded A) : Type 0 where
    pub places : length q.slots ≡ n
    pub round : q.capacity ≡ n + 1
    pub open_q : q.closed ≡ false
    pub ordered : q.out_pos ≤ q.in_pos
    pub inside : q.in_pos ≤ n

  abbrev pub items : Bounded A → List A
  items q = take (q.in_pos - q.out_pos) (drop q.out_pos q.slots)

  pub make-Straight : (blank : A) (n : ℕ) → Straight n (make blank n)
  unfolding make
  make-Straight blank n = ground (arith, length-replicate n blank)

  abbrev stored_in : Bounded A → A → Bounded A
  stored_in q v = record q { slots = set q.slots q.in_pos v; in_pos = (q.in_pos + 1) % q.capacity }

  push-Straight :
      (n : ℕ) (q : Bounded A) (v : A)
      → Straight n q
      → q.in_pos < n
      → push_back q v ≡ (returned true, stored_in q v)
  unfolding push_back
  push-Straight n q v s room = rw s.round (ground (arith, next_below n q.in_pos room))

  items-stored_in :
      (n : ℕ) (q : Bounded A) (v : A)
      → Straight n q
      → q.in_pos < n
      → items (stored_in q v) ≡ items q ++ (v ∷ [])
  items-stored_in n q v s room =
      rw (grown, drop-set q.out_pos (q.in_pos - q.out_pos) q.in_pos q.slots v (omega arith))
        (take-set (q.in_pos - q.out_pos) (drop q.out_pos q.slots) v
          (omega (arith, length-drop q.out_pos q.slots)))
    where
      grown : (q.in_pos + 1) % q.capacity - q.out_pos ≡ suc (q.in_pos - q.out_pos)
      grown = rw (s.round, next_below n q.in_pos room) (omega arith)

  -- While fewer than `max_elems` elements were pushed, a push on an open queue succeeds at once and
  -- appends its element.
  push_back-Straight :
      (n : ℕ) (q : Bounded A) (v : A)
      → Straight n q
      → q.in_pos < n
      → let (r, q') = push_back q v in
        (r ≡ returned true)
        × (items q' ≡ items q ++ (v ∷ []))
        × (q'.in_pos ≡ q.in_pos + 1)
        × (q'.out_pos ≡ q.out_pos)
        × Straight n q'
  push_back-Straight n q v s room = rw (push-Straight n q v s room) (
    refl,
    items-stored_in n q v s room,
    next,
    refl,
    ground (arith, next, length-set q.slots q.in_pos v),
  )
    where
      next : (q.in_pos + 1) % q.capacity ≡ q.in_pos + 1
      next = rw s.round (next_below n q.in_pos room)

  get_elem?-drop :
      (o k : ℕ) (xs : List A)
      → o < length xs
      → (x : A) × (get_elem? xs o ≡ some x)
        × (take (suc k) (drop o xs) ≡ x ∷ take k (drop (suc o) xs))
  get_elem?-drop o k [] h = absurd (omega arith)
  get_elem?-drop zero k (x ∷ xs) h = (x, refl, refl)
  get_elem?-drop (suc o) k (x ∷ xs) h = get_elem?-drop o k xs (omega arith)

  pop_waits :
      (n : ℕ) (q : Bounded A) → Straight n q → q.in_pos ≡ q.out_pos → pop_front q ≡ (waits, q)
  unfolding pop_front
  pop_waits n q s e = ground arith

  abbrev popped_from : Bounded A → Bounded A
  popped_from q = record q { out_pos = (q.out_pos + 1) % q.capacity }

  pop_takes :
      (n : ℕ) (q : Bounded A) (x : A)
      → Straight n q
      → q.in_pos ≢ q.out_pos
      → get_elem? q.slots q.out_pos ≡ some x
      → pop_front q ≡ (returned (some x), popped_from q)
  unfolding pop_front
  pop_takes n q x s ne got = rw got (ground arith)

  pop_taken :
      (n : ℕ) (q : Bounded A) (x : A)
      → Straight n q
      → q.in_pos ≢ q.out_pos
      → get_elem? q.slots q.out_pos ≡ some x
      → take (suc (q.in_pos - suc q.out_pos)) (drop q.out_pos q.slots)
        ≡ x ∷ take (q.in_pos - suc q.out_pos) (drop (suc q.out_pos) q.slots)
      → let (r, q') = pop_front q in
        (r ≡ returned (some x))
        × (items q ≡ x ∷ items q')
        × (q'.in_pos ≡ q.in_pos)
        × (q'.out_pos ≡ q.out_pos + 1)
        × Straight n q'
  pop_taken n q x s ne got split =
      rw (pop_takes n q x s ne got)
        (refl, rw (next, size) split, refl, omega (arith, next), ground (arith, next))
    where
      next : (q.out_pos + 1) % q.capacity ≡ suc q.out_pos
      next = rw s.round (omega (arith, next_below n q.out_pos (omega arith)))

      size : q.in_pos - q.out_pos ≡ suc (q.in_pos - suc q.out_pos)
      size = omega arith

  -- While at most `max_elems` elements were pushed, a pop on an open queue waits when the queue is
  -- empty, and else takes the oldest element.
  pub pop_front-Straight :
      (n : ℕ) (q : Bounded A)
      → Straight n q
      → let (r, q') = pop_front q in
        ((items q ≡ []) × (r ≡ waits) × (q' ≡ q))
        ⊎ ((x : A) × (r ≡ returned (some x))
            × (items q ≡ x ∷ items q')
            × (q'.in_pos ≡ q.in_pos)
            × (q'.out_pos ≡ q.out_pos + 1)
            × Straight n q')
  pop_front-Straight n q s = elim (ℕ_discrete q.in_pos q.out_pos) [
    | yes e ↦ inl (
      let none_in : q.in_pos - q.out_pos ≡ 0 = omega arith in rw none_in,
      ap (λ p. p.0) (pop_waits n q s e),
      ap (λ p. p.1) (pop_waits n q s e),
    )
    | no ne ↦
        let (x, got, split) =
          get_elem?-drop q.out_pos (q.in_pos - suc q.out_pos) q.slots (omega arith) in
        let t = pop_taken n q x s ne got split in inr (x, t.0, t.1, t.2, t.3, t.4)
  ]

  push_all-Straight :
      (n : ℕ) (q : Bounded A) (vs : List A)
      → Straight n q
      → q.in_pos + length vs ≤ n
      → Straight n (push_all q vs)
        × ((push_all q vs).in_pos ≡ q.in_pos + length vs)
        × ((push_all q vs).out_pos ≡ q.out_pos)
        × (items (push_all q vs) ≡ items q ++ vs)
  unfolding push_all
  push_all-Straight n q [] s room = (s, omega arith, refl, sym (append-nil (items q)))
  push_all-Straight n q (v ∷ vs) s room =
      let (r, more, i, o, s') = push_back-Straight n q v s (omega arith) in
      let (t, i', o', all) = push_all-Straight n (push_back q v).1 vs s' (omega arith) in
      (t, omega (arith, i, i'), o' ∙ o, all ∙ rw more (append_assoc (items q) (v ∷ []) vs))

  -- An open queue whose array is used up, with one place in front free again: it does not report
  -- itself full, and the store goes to `data_[max_elems]`.
  push_behind :
      (n : ℕ) (q : Bounded A) (y : A)
      → Straight n q
      → q.in_pos ≡ n
      → 0 < q.out_pos
      → (push_back q y).0 ≡ fault
  unfolding push_back
  push_behind n q y s last front = rw (s.round, last) (ground (arith, mod_round (n + 1) (n + 1)))

  -- After `max_elems` pushes and one pop, whatever the elements are, the next push writes behind
  -- the end of the array; `max_elems` is not 0.
  pub push_back_overrun :
      (blank : A) (n : ℕ) (vs : List A) (y : A)
      → 0 < n
      → length vs ≡ n
      → (push_back (pop_front (push_all (make blank n) vs)).1 y).0 ≡ fault
  push_back_overrun blank n vs y pos used =
      let (s, i, o, all) =
        push_all-Straight n q₀ vs (make-Straight blank n) (omega (arith, at_start)) in
      elim (pop_front-Straight n (push_all q₀ vs) s) [
        | inl (none_left, r, e) ↦
            absurd
              (omega (arith, ap length none_left, ap length all, used, length-append (items q₀) vs))
        | inr (x, r, e, i', o', s') ↦
            push_behind n _ y s' (omega (arith, i, i', at_start)) (omega (arith, o', o))
      ]
    where
      q₀ : Bounded A
      q₀ = make blank n

      at_start : q₀.in_pos ≡ 0
      at_start = unfold make in refl
