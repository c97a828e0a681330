-- ===== src/ShmLocks/Tests.antt =====
-- Two blocks, a producer and two consumers.
use code_c.Base.{ℕ, ◌≡◌, refl, List, [], ◌∷◌}
use code_c.Base.Int.{pos, ◌+ℤ◌}
use code_c.ShmLocks.{
  trying, writing, Consumer, away, reading, State, at, init, adds, stores, released, write_begins,
  write_locks, write_unlocks, write_publishes, read_loads, read_looks, read_locks, Reach, start,
  later, lock_free, write_exclusive,
}
use code_c.ShmLocks.Counts.{readers, write_locks_alone}
use code_c.ShmLocks.Overlap.{in_progress_never, read_during_write}

abbrev two_away : List Consumer
two_away = away ∷ away ∷ []

none_read : (j : ℕ) → readers j two_away ≡ 0
none_read j = refl

-- After one write the first consumer reads block 0, and the producer comes back to it.
abbrev one_reads : State
one_reads = record (init 2 two_away) {
  read_pos = pos 0;
  producer = trying 0;
  consumers = reading 0 ∷ away ∷ [];
  locks =
      at (at (at (λ _. pos 0) 0 write_exclusive) 0 (released adds write_exclusive)) 0
        (released adds write_exclusive +ℤ pos 1);
}

one_reads-Reach : Reach adds (init 2 two_away) one_reads
one_reads-Reach =
    later
      (later
        (later
          (later
            (later
              (later (later (later start (write_begins refl)) (write_locks 0 refl refl))
                (write_unlocks 0 refl))
              (write_publishes 0 refl))
            (read_loads [] (away ∷ []) 0 refl refl))
          (read_looks [] (away ∷ []) 0 refl (in_progress_never 0 _)))
        (read_locks [] (away ∷ []) 0 _ refl refl))
      (write_begins refl)

-- Before the first write the producer may lock block 0.
abbrev before : State
before = record (init 2 two_away) { producer = trying 0 }

write_locks_alone_example : readers 0 before.consumers ≡ 0
write_locks_alone_example =
    write_locks_alone {s = before} none_read (later start (write_begins refl)) 0 refl refl

read_during_write_example :
    (t : State) × Reach stores (init 8 two_away) t
    × (t.producer ≡ writing 0)
    × (t.consumers ≡ away ∷ reading 0 ∷ [])
    × (t.locks 0 ≡ lock_free)
read_during_write_example = read_during_write stores 8 (away ∷ []) []
