-- ===== src/ShmLocks/Range.antt =====
-- The blocks that producer and consumers hold, and their addresses.
use native.Mathlib.Nat.{mod-lt, mul-div_left}
use code_c.Base.{ℕ, ◌+◌, ◌-◌, ◌*◌, ◌%◌, ◌≤◌, ◌<◌, ◌≡◌, refl, subst, All, List, [], ◌∷◌, ◌++◌, arith}
use code_c.Base.Int.{ℤ, pos, negsuc}
use code_c.ShmLocks.{
  Producer, resting, trying, writing, published, Consumer, away, loaded, looked, reading, State,
  init, Release, Step, write_begins, write_locks, write_moves_on, write_unlocks, write_publishes,
  read_gives_up, read_loads, read_looks, read_waits, read_locks, read_fails, read_releases, Reach,
  start, later, block_address, block_index,
}

abbrev pub ConsumerBelow : ℕ → Consumer → Type 0
ConsumerBelow n away = Unit
ConsumerBelow n (loaded i) = i < n
ConsumerBelow n (looked i lock_num) = i < n
ConsumerBelow n (reading i) = i < n

abbrev pub ConsumersBelow : ℕ → List Consumer → Type 0
ConsumersBelow n cs = All (ConsumerBelow n) cs

abbrev pub ProducerBelow : ℕ → Producer → Type 0
ProducerBelow n resting = Unit
ProducerBelow n (trying i) = i < n
ProducerBelow n (writing i) = i < n
ProducerBelow n (published i) = i < n

abbrev pub PositionBelow : ℕ → ℤ → Type 0
PositionBelow n (pos i) = i < n
PositionBelow n (negsuc k) = Unit

pub record InRange (n : ℕ) (s : State) : Type 0 where
  pub some_blocks : 0 < n
  pub same_num : s.block_num ≡ n
  pub write_pos_in : s.write_pos < n
  pub read_pos_in : PositionBelow n s.read_pos
  pub producer_in : ProducerBelow n s.producer
  pub consumers_in : ConsumersBelow n s.consumers

-- One consumer of a list that is in range moves to a place in range.
pub ConsumersBelow-moved :
    (n : ℕ) (xs ys : List Consumer) (c d : Consumer)
    → (ConsumerBelow n c → ConsumerBelow n d)
    → ConsumersBelow n (xs ++ (c ∷ ys))
    → ConsumersBelow n (xs ++ (d ∷ ys))
ConsumersBelow-moved n [] ys c d f h = (f h.0, h.1)
ConsumersBelow-moved n (x ∷ xs) ys c d f h = (h.0, ConsumersBelow-moved n xs ys c d f h.1)

module _ {n : ℕ} {s : State} (h : InRange n s) where
  moved-InRange :
      (xs ys : List Consumer) (c d : Consumer) (locks : ℕ → ℤ)
      → s.consumers ≡ xs ++ (c ∷ ys)
      → (ConsumerBelow n c → ConsumerBelow n d)
      → InRange n (record s { consumers = xs ++ (d ∷ ys); locks = locks })
  moved-InRange xs ys c d locks e f = record {
    some_blocks = h.some_blocks;
    same_num = h.same_num;
    write_pos_in = h.write_pos_in;
    read_pos_in = h.read_pos_in;
    producer_in = h.producer_in;
    consumers_in = ConsumersBelow-moved n xs ys c d f (subst (ConsumersBelow n) e h.consumers_in);
  }

  -- The producer moves, perhaps publishing a block.
  produced-InRange :
      (p : Producer) (read_pos : ℤ) (locks : ℕ → ℤ)
      → ProducerBelow n p
      → PositionBelow n read_pos
      → InRange n (record s { producer = p; read_pos = read_pos; locks = locks })
  produced-InRange p read_pos locks at_p at_pos = record {
    some_blocks = h.some_blocks;
    same_num = h.same_num;
    write_pos_in = h.write_pos_in;
    read_pos_in = at_pos;
    producer_in = at_p;
    consumers_in = h.consumers_in;
  }

  producer_block : {p : Producer} → s.producer ≡ p → ProducerBelow n p
  producer_block e = subst (ProducerBelow n) e h.producer_in

pub Step-InRange : {v : Release} {n : ℕ} {s t : State} → Step v s t → InRange n s → InRange n t
Step-InRange {s} (write_begins e) h =
    produced-InRange h (trying s.write_pos) _ _ h.write_pos_in h.read_pos_in
Step-InRange (write_locks i e free) h =
    produced-InRange h (writing i) _ _ (producer_block h e) h.read_pos_in
Step-InRange {n} {s} (write_moves_on i e) h =
    produced-InRange h (trying ((i + 1) % s.block_num)) _ _
      (subst (λ k. (i + 1) % s.block_num < k) h.same_num
        (mod-lt (i + 1) {m = s.block_num} (omega arith)))
      h.read_pos_in
Step-InRange (write_unlocks i e) h =
    produced-InRange h (published i) _ _ (producer_block h e) h.read_pos_in
Step-InRange (write_publishes i e) h = produced-InRange h resting (pos i) _ tt (producer_block h e)
Step-InRange (read_gives_up xs ys k e r) h = h
Step-InRange {n} (read_loads xs ys i e r) h =
    moved-InRange h xs ys away (loaded i) _ e (λ _. subst (PositionBelow n) r h.read_pos_in)
Step-InRange (read_looks xs ys i e r) h = moved-InRange h xs ys (loaded i) _ _ e (λ b. b)
Step-InRange (read_waits xs ys i e r) h = moved-InRange h xs ys (loaded i) _ _ e (λ b. tt)
Step-InRange (read_locks xs ys i k e same) h = moved-InRange h xs ys (looked i k) _ _ e (λ b. b)
Step-InRange (read_fails xs ys i k e) h = moved-InRange h xs ys (looked i k) _ _ e (λ b. tt)
Step-InRange (read_releases xs ys i e) h = moved-InRange h xs ys (reading i) _ _ e (λ b. tt)

Reach-InRange : {v : Release} {n : ℕ} {s t : State} → Reach v s t → InRange n s → InRange n t
Reach-InRange start h = h
Reach-InRange (later r st) h = Step-InRange st (Reach-InRange r h)

-- In every reachable state, with either release, the block last published, the producer's block and
-- every consumer's block are below the number of blocks, if there is a block and the consumers
-- begin in range.
pub blocks_in_range :
    (v : Release) (n : ℕ) (cs : List Consumer) {s : State}
    → 0 < n
    → ConsumersBelow n cs
    → Reach v (init n cs) s
    → PositionBelow n s.read_pos × ProducerBelow n s.producer × ConsumersBelow n s.consumers
blocks_in_range v n cs some_blocks below r =
    let h = Reach-InRange r first in (h.read_pos_in, h.producer_in, h.consumers_in)
  where
    first : InRange n (init n cs)
    first = record {
      some_blocks = some_blocks;
      same_num = refl;
      write_pos_in = some_blocks;
      read_pos_in = tt;
      producer_in = tt;
      consumers_in = below;
    }

-- A block below `block_num` lies inside the mapped blocks, and the release of the pointer that an
-- acquire returned finds the block again.
pub block_round_trip :
    (buffer block_size block_num i : ℕ)
    → 0 < block_size
    → i < block_num
    → (block_index buffer block_size (block_address buffer block_size i) ≡ i)
      × (block_address buffer block_size i + block_size ≤ buffer + block_num * block_size)
unfolding block_index block_address
block_round_trip buffer block_size block_num i some_size below =
    let offset : buffer + i * block_size - buffer ≡ i * block_size = omega arith in
    (rw offset (mul-div_left i some_size), grind arith)
