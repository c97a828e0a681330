-- ===== src/Spmc/Tests.antt =====
-- Two entries of 10 bytes and one consumer, in spmc9.c.
use code_c.Base.{◌≤◌, ◌<◌, ◌≡◌, refl, [], ◌∷◌, arith}
use code_c.Base.Int.{pos}
use code_c.ShmLocks.{resting, trying, writing, away}
use code_c.ShmLocks.Counts.{readers}
use code_c.Spmc.{Entries, State, take_entry, alloc_begins, alloc_locks, Reach, start, later}
use code_c.Spmc.Exclusion.Always.{Fresh, never_both}
use code_c.Spmc.Supply.{Served, producer_gets_entry}

abbrev entries : Entries
entries = record {
  key = pos 7;
  size = 0;
  capacity = 2;
  buf_size = 10;
  write_pos = 0;
  read_pos = 0;
  nconsumers = λ i. pos 0;
}

abbrev fresh : State
fresh = record { entries = entries; producer = resting; consumers = away ∷ [] }

fresh-Fresh : Fresh 2 fresh
fresh-Fresh = (omega arith, refl, refl, refl, refl, λ j lt. refl, refl, (refl, tt))

abbrev begun : State
begun = record fresh { producer = trying 0 }

begun-Reach : Reach fresh begun
begun-Reach = later start (alloc_begins refl)

abbrev busy : State
busy = record begun { producer = writing 0; entries = take_entry 0 entries }

busy-Reach : Reach fresh busy
busy-Reach = later begun-Reach (alloc_locks 0 refl refl)

never_both_example :
    (readers 0 busy.consumers ≡ 0) × (0 < busy.entries.size) × (busy.entries.size ≤ 2)
never_both_example = never_both 0 fresh-Fresh busy-Reach refl

producer_gets_entry_example : Served 2 begun
producer_gets_entry_example = producer_gets_entry 0 fresh-Fresh begun-Reach refl (omega arith)
