-- ===== src/ShmBlock/Users/Count.antt =====
-- The counter of users, and who unlinks the object: c++/20221213-pubsub-shm-udp/shm.hpp.
use code_c.Base.{
  ℕ, suc, ◌≡◌, ◌≢◌, refl, ap, subst, true, false, some, List, ◌∷◌, ◌++◌, ◌==◌, if◌then◌else◌, arith,
  length, length-append, All, All-middle, All-without, Option-cases, inl, inr,
}
use code_c.Base.Int.{pos, ◌+ℤ◌, ◌-ℤ◌}
use code_c.ShmBlock.{
  Block, Os, History, create_exclusive, unlinks, subs_ref, new_block, open_only, open_or_create,
  destroy, dropped, last_user,
}
use code_c.ShmBlock.Users.{
  counted, exists, Documented, Users, joins, joins_only, refused, refused_only, leaves, Reach,
  start, later,
}
use code_c.ShmBlock.Users.Effects.{
  open_only-Keeps, created_new, created_again, open_only-mapped, open_or_create-mapped,
  open_only-exists, open_or_create-exists,
}

abbrev AllMapped : List Block → Type 0
AllMapped bs = All (λ b. b.state ≢ 0) bs

length-middle :
    {A : Type 0} (xs ys : List A) (b : A) → length (xs ++ (b ∷ ys)) ≡ suc (length (xs ++ ys))
length-middle xs ys b = omega (arith, length-append {0} xs (b ∷ ys), length-append {0} xs ys)

-- Each user is counted and has the state mapped; while there is one, there is an object.
record Inv (bs : List Block) (h : History) : Type 0 where
  count : counted h ≡ pos (length bs)
  lasts : length bs ≢ 0 → exists h ≡ true
  mapped : AllMapped bs

module _ (os : Os) (doc : Documented os) where
  Inv-joins_only :
      (bs : List Block) (h : History) (num size : ℕ)
      → Inv bs h
      → (open_only os (new_block num size) h).ok ≡ true
      → Inv
          ((open_only os (new_block num size) h).block ∷ bs)
          (open_only os (new_block num size) h).history
  unfolding ◌+ℤ◌ new_block
  Inv-joins_only bs h num size inv ok = record {
    count = ground (arith, open_only-Keeps os (new_block num size) h refl, inv.count);
    lasts = ground (
      arith,
      open_only-Keeps os (new_block num size) h refl,
      open_only-exists os (new_block num size) h doc refl,
    );
    mapped = (open_only-mapped os (new_block num size) h refl ok, inv.mapped);
  }

  Inv-refused_only :
      (bs : List Block) (h : History) (num size : ℕ)
      → Inv bs h
      → (open_only os (new_block num size) h).ok ≡ false
      → Inv bs (open_only os (new_block num size) h).history
  unfolding new_block
  Inv-refused_only bs h num size inv bad = record {
    count = ground (arith, open_only-Keeps os (new_block num size) h refl, inv.count);
    lasts = ground (arith, open_only-Keeps os (new_block num size) h refl, inv.lasts);
    mapped = inv.mapped;
  }

  -- Where the object is made, there is no user yet.
  created-empty :
      (bs : List Block) (h : History) (fd : ℕ)
      → Inv bs h
      → os.shm_open h create_exclusive ≡ some fd
      → length bs ≡ 0
  created-empty bs h fd inv e = ground (arith, inv.lasts, doc.exclusive h)

  -- With no user, the counter of the object that is there stands at 0.
  Inv-joins :
      (bs : List Block) (h : History) (num size : ℕ)
      → Inv bs h
      → (open_or_create os (new_block num size) h).ok ≡ true
      → Inv
          ((open_or_create os (new_block num size) h).block ∷ bs)
          (open_or_create os (new_block num size) h).history
  unfolding ◌+ℤ◌ new_block
  Inv-joins bs h num size inv ok = elim (Option-cases (os.shm_open h create_exclusive)) [
    | inl e ↦ record {
      count = ground (arith, created_again os (new_block num size) h refl e, inv.count);
      lasts = ground (
        arith,
        created_again os (new_block num size) h refl e,
        open_or_create-exists os (new_block num size) h doc refl e,
      );
      mapped = (open_or_create-mapped os (new_block num size) h refl ok, inv.mapped);
    }
    | inr (fd, e) ↦ record {
      count = ground (
        arith,
        created_new os (new_block num size) h fd refl e,
        created-empty bs h fd inv e,
        inv.count,
      );
      lasts = ground (
        arith,
        created_new os (new_block num size) h fd refl e,
        created-empty bs h fd inv e,
        inv.count,
      );
      mapped = (open_or_create-mapped os (new_block num size) h refl ok, inv.mapped);
    }
  ]

  Inv-refused :
      (bs : List Block) (h : History) (num size : ℕ)
      → Inv bs h
      → (open_or_create os (new_block num size) h).ok ≡ false
      → Inv bs (open_or_create os (new_block num size) h).history
  unfolding new_block
  Inv-refused bs h num size inv bad = elim (Option-cases (os.shm_open h create_exclusive)) [
    | inl e ↦ record {
      count = ground (arith, created_again os (new_block num size) h refl e, inv.count);
      lasts = ground (arith, created_again os (new_block num size) h refl e, inv.lasts);
      mapped = inv.mapped;
    }
    | inr (fd, e) ↦ record {
      count = ground (
        arith,
        created_new os (new_block num size) h fd refl e,
        created-empty bs h fd inv e,
        inv.count,
      );
      lasts = λ some_user. absurd (some_user (created-empty bs h fd inv e));
      mapped = inv.mapped;
    }
  ]

  Inv-leaves :
      (bs xs ys : List Block) (b : Block) (h h' : History)
      → bs ≡ xs ++ (b ∷ ys)
      → destroy os b h ≡ some h'
      → Inv bs h
      → Inv (xs ++ ys) h'
  unfolding destroy dropped last_user ◌-ℤ◌
  Inv-leaves bs xs ys b h h' e d inv = record {
    count = ground (arith, inv.count, ap length e, length-middle xs ys b, doc.counter h b.state);
    lasts =
        ground
          (arith, inv.count, inv.lasts, ap length e, length-middle xs ys b, doc.counter h b.state);
    mapped = All-without (λ c. c.state ≢ 0) xs ys b (subst AllMapped e inv.mapped);
  }

  Reach-Inv : {s : Users} → Reach os s → Inv s.blocks s.history
  Reach-Inv start = record { count = refl; lasts = λ ne. absurd (ne refl); mapped = tt }
  Reach-Inv (later {s} r (joins num size ok)) =
      Inv-joins s.blocks s.history num size (Reach-Inv r) ok
  Reach-Inv (later {s} r (joins_only num size ok)) =
      Inv-joins_only s.blocks s.history num size (Reach-Inv r) ok
  Reach-Inv (later {s} r (refused num size bad)) =
      Inv-refused s.blocks s.history num size (Reach-Inv r) bad
  Reach-Inv (later {s} r (refused_only num size bad)) =
      Inv-refused_only s.blocks s.history num size (Reach-Inv r) bad
  Reach-Inv (later {s} r (leaves xs ys b h e d)) =
      Inv-leaves s.blocks xs ys b s.history h e d (Reach-Inv r)

  -- For every operating system with documented answers, in every state that blocks reach by opening
  -- the object and leaving it one after the other, where no failed block is destroyed: while a block
  -- is open the object has its name.
  pub object_lasts : {s : Users} → Reach os s → length s.blocks ≢ 0 → exists s.history ≡ true
  object_lasts r ne = (Reach-Inv r).lasts ne

  -- For every operating system with documented answers, in every state that blocks reach by opening
  -- the object and leaving it one after the other, where no failed block is destroyed: the destructor
  -- of an open block counts it out and unlinks the object exactly when it is the last.
  pub last_unlinks :
      {s : Users} (xs ys : List Block) (b : Block)
      → Reach os s
      → s.blocks ≡ xs ++ (b ∷ ys)
      → destroy os b s.history
        ≡ some (
            if length (xs ++ ys) == 0
            then unlinks ∷ subs_ref b.state ∷ s.history
            else subs_ref b.state ∷ s.history)
  unfolding destroy dropped last_user
  last_unlinks {s} xs ys b r e =
      let inv = Reach-Inv r in
      ground (
        arith,
        inv.count,
        All-middle (λ c. c.state ≢ 0) xs ys b (subst AllMapped e inv.mapped),
        ap length e,
        length-middle xs ys b,
        doc.counter s.history b.state,
      )
