-- ===== src/ShmBlock/Uncounted/Reader.antt =====
-- The blocks of a subscriber of c++/20230108-pubsub-shm-udp-3: any sequence of `Open`, `Stop` and
-- `AcquireBlockToRead`.
use code_c.Base.{
  ℕ, ◌+◌, ◌*◌, ◌≡◌, ◌≢◌, ◌⊎◌, inl, inr, refl, Bool-cases, true, Option, none, some, List, [], ◌∷◌,
  arith,
}
use code_c.Base.Int.{ℤ, pos, negsuc}
use code_c.ShmBlock.{
  Block, Os, History, Result, opens, existing, stats, map_failed, sizeof_state, new_block, detached,
  gives, gives_null, faults, acquired, acquired_to_read,
}
use code_c.ShmBlock.Descriptors.{is, Accounts, Closed, Mapped, holds}
use code_c.ShmBlock.Uncounted.{
  buffered, use_existing, map_existing, stat_existing, opened_existing, open_existing, stop_block,
  read_block,
}

-- Closed, or with the state and the buffer in a mapping.
abbrev pub Sound : Block → Type 0
Sound b =
    b.managed_shm ≢ 0
    → (b.managed_shm ≢ map_failed)
      × (b.state ≡ b.managed_shm)
      × (b.buffer ≡ b.managed_shm + sizeof_state)

-- Each stage leaves a sound block, which is not closed where the call succeeds, and gives back the
-- descriptor.
abbrev Fine : ℕ → Option ℕ → History → Result → Type 0
Fine x fd h r = Sound r.block × (r.ok ≡ true → r.block.managed_shm ≢ 0) × Accounts x (is x fd) 0 h r

module _ (os : Os) (x : ℕ) where
  map_existing-Fine :
      (b : Block) (fd : Option ℕ) (len : ℕ) (h : History) (p : ℕ)
      → Fine x fd h (map_existing os b fd len h p)
  unfolding map_existing use_existing detached buffered
  map_existing-Fine b fd len h p = ground arith

  stat_existing-Fine :
      (b : Block) (fd : Option ℕ) (h : History) (size : Option ℕ)
      → b.managed_shm ≡ 0
      → Fine x fd h (stat_existing os b fd h size)
  unfolding stat_existing
  stat_existing-Fine b fd h none e = ground arith
  stat_existing-Fine b fd h (some len) e = map_existing-Fine b fd len h (os.mmap h len fd)

  opened_existing-Fine :
      (b : Block) (h : History) (answer : Option ℕ)
      → b.managed_shm ≡ 0
      → Fine x answer h (opened_existing os b h answer)
  unfolding opened_existing
  opened_existing-Fine b h none e = ground arith
  opened_existing-Fine b h (some fd) e =
      ground (arith, stat_existing-Fine b (some fd) (stats (some fd) ∷ h) (os.fstat h (some fd)) e)

  pub open_existing-Fine :
      (b : Block) (h : History)
      → Sound b
      → Sound (open_existing os b h).block
        × ((open_existing os b h).ok ≡ true → (open_existing os b h).block.managed_shm ≢ 0)
        × Accounts x 0 (holds b) h (open_existing os b h)
  unfolding open_existing
  open_existing-Fine b h s = ground (
    arith,
    opened_existing-Fine b (opens existing (os.shm_open h existing) ∷ h) (os.shm_open h existing),
  )

-- A subscriber's calls; `reads i` is `AcquireBlockToRead` where `LockForRead` returns `i`.
pub data Call : Type 0 where
  opens_it stops_it : Call
  reads : ℤ → Call

pub run : Os → List Call → Block × History → Block × History
run os [] (b, h) = (b, h)
run os (opens_it ∷ cs) (b, h) = let r = open_existing os b h in run os cs (r.block, r.history)
run os (stops_it ∷ cs) (b, h) = run os cs (stop_block b h)
run os (reads i ∷ cs) (b, h) = let (a, b', h') = read_block os i b h in run os cs (b', h')

-- What holds between the calls of a run: `n` mappings were held at first.
record Between (x n : ℕ) (h : History) (b : Block) (h' : History) : Type 0 where
  sound : Sound b
  closed : Closed x 0 h h'
  mapped : Mapped n (holds b) h h'

module _ (os : Os) (x n : ℕ) (h₀ : History) where
  Between-open :
      (b : Block) (h : History)
      → Between x n h₀ b h
      → Between x n h₀ (open_existing os b h).block (open_existing os b h).history
  Between-open b h w =
      let f = open_existing-Fine os x b h w.sound in
      record {
        sound = f.0;
        closed = omega (arith, f.2.0, w.closed);
        mapped = omega (arith, f.2.1, w.mapped);
      }

  Between-stop :
      (b : Block) (h : History)
      → Between x n h₀ b h
      → Between x n h₀ (stop_block b h).0 (stop_block b h).1
  unfolding stop_block
  Between-stop b h w = record {
    sound = ground (arith, w.sound);
    closed = ground (arith, w.closed);
    mapped = ground (arith, w.mapped, w.sound);
  }

  Between-run :
      (cs : List Call) (b : Block) (h : History)
      → Between x n h₀ b h
      → Between x n h₀ (run os cs (b, h)).0 (run os cs (b, h)).1
  unfolding run read_block
  Between-run [] b h w = w
  Between-run (opens_it ∷ cs) b h w = Between-run cs _ _ (Between-open b h w)
  Between-run (stops_it ∷ cs) b h w = Between-run cs _ _ (Between-stop b h w)
  Between-run (reads i ∷ cs) b h w = Between-run cs _ _ (Between-open b h w)

Between-new :
    (os : Os) (x num size : ℕ) (h : History) (cs : List Call)
    → let t = run os cs (new_block num size, h) in Between x 0 h t.0 t.1
unfolding new_block
Between-new os x num size h cs =
    Between-run os x 0 h cs (new_block num size) h
      (record { sound = λ ne. absurd (ne refl); closed = omega arith; mapped = omega arith })

-- What `AcquireBlockToRead` returns on a sound block, where `LockForRead` returns block `i`; it leaves
-- the block sound.
pub read_block_lem :
    (os : Os) (i : ℕ) (b : Block) (h : History)
    → Sound b
    → let r = read_block os (pos i) b h in
      Sound r.1
      × ((r.0 ≡ gives_null)
          ⊎ ((r.0 ≡ gives (r.1.managed_shm + sizeof_state + i * r.1.block_size))
              × (r.1.managed_shm ≢ 0)
              × (r.1.managed_shm ≢ map_failed)))
unfolding read_block acquired_to_read acquired
read_block_lem os i b h sound =
    let f = open_existing-Fine os 0 b h sound in
    (
      f.0,
      elim (Bool-cases (open_existing os b h).ok) [
        | inl e ↦ inr (ground (arith, f))
        | inr e ↦ inl (ground arith)
      ],
    )

pub read_block_unwritten :
    (os : Os) (n : ℕ) (b : Block) (h : History)
    → (open_existing os b h).ok ≡ true
    → (read_block os (negsuc n) b h).0 ≡ faults
unfolding read_block acquired_to_read
read_block_unwritten os n b h opened = rw opened refl

pub stop_block-Sound : (b : Block) (h : History) → Sound b → Sound (stop_block b h).0
unfolding stop_block
stop_block-Sound b h sound = ground arith

-- For every operating system and every sequence of `Open`, `Stop` and `AcquireBlockToRead` on a new
-- block: a further `AcquireBlockToRead` returns null or the pointer to the block that was locked,
-- behind the state in a mapping, and never goes through a null `state_`.
reads_soundly :
    (os : Os) (num size i : ℕ) (h : History) (cs : List Call)
    → let t = run os cs (new_block num size, h) in
      let r = read_block os (pos i) t.0 t.1 in
      (r.0 ≡ gives_null)
      ⊎ ((r.0 ≡ gives (r.1.managed_shm + sizeof_state + i * r.1.block_size))
          × (r.1.managed_shm ≢ 0)
          × (r.1.managed_shm ≢ map_failed))
reads_soundly os num size i h cs =
    let t = run os cs (new_block num size, h) in
    (read_block_lem os i t.0 t.1 (Between-new os 0 num size h cs).sound).1

-- For every operating system, every sequence of `Open`, `Stop` and `AcquireBlockToRead` on a new
-- block, and every descriptor `x`: `x` was closed as often as a call returned it, and the mappings
-- made and not taken away are the one that the block holds.
pub reader_accounts :
    (os : Os) (x num size : ℕ) (h : History) (cs : List Call)
    → let t = run os cs (new_block num size, h) in Closed x 0 h t.1 × Mapped 0 (holds t.0) h t.1
reader_accounts os x num size h cs = let w = Between-new os x num size h cs in (w.closed, w.mapped)

pub new_block-Sound : (num size : ℕ) → Sound (new_block num size)
unfolding new_block
new_block-Sound num size ne = absurd (ne refl)
