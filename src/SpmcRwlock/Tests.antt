-- ===== src/SpmcRwlock/Tests.antt =====
-- Locks that count their readers, up to nine, and three entries of 16 bytes.
use code_c.Base.{
  ℕ, suc, ◌-◌, ◌<◌, ◌≡◌, refl, ap, true, none, some, ltb, if◌then◌else◌, arith, ◌>>=◌,
}
use code_c.SpmcRwlock.{
  Rwlock, IsDocumented, Spmc, set_up, to_read, producer_alloc, consumer_alloc, unlocked,
  consumer_alloc_end, rounds,
}
use code_c.SpmcRwlock.Ready.{Ready, set_up-Ready}
use code_c.SpmcRwlock.Overwritten.{producer_overwrites}

abbrev counter : Rwlock ℕ
counter = record {
  init = 0;
  tryrdlock = λ l. if ltb l 9 then some (suc l) else none;
  unlock = λ l. l - 1;
}

below_nine : (l : ℕ) → l < 9 → ltb l 9 ≡ true
below_nine l h = ground arith

abbrev counts_readers : IsDocumented counter
counts_readers = record {
  Reads = λ l n. l ≡ n;
  most = 9;
  starts = refl;
  grants = λ l n e low. (suc l, rw (below_nine l (omega (arith, e, low))) refl, ap suc e);
  releases = λ l n e. omega (arith, e);
}

abbrev three : Spmc ℕ
three = set_up counter 3 16

three-Ready : Ready counter counts_readers 2 three
three-Ready = set_up-Ready counter counts_readers 3 16 (omega arith) (omega arith) (omega arith)

producer_overwrites_example :
    (buf d : ℕ) × (t u v : Spmc ℕ) × (consumer_alloc counter 1 three ≡ some (buf, t))
    × (d < three.capacity)
    × (rounds counter 1 d t ≡ some u)
    × (producer_alloc counter 1 u ≡ some (buf, v))
producer_overwrites_example = producer_overwrites counter counts_readers 0 three three-Ready

-- The consumer gives its entry back.
read_back : (do r ← consumer_alloc counter 1 three; consumer_alloc_end counter r.0 r.1) ≡ some three
unfolding consumer_alloc consumer_alloc_end to_read unlocked set_up
read_back = refl
