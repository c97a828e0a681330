-- ===== src/BoundedQueue/Tests.antt =====
-- `BoundedBlockingQueue<T>` for two elements.
use code_c.Base.{ℕ, ◌≡◌, refl, true, Bool, [], ◌∷◌, arith}
use code_c.BlockingQueue.{waits, fault}
use code_c.BoundedQueue.{Bounded, make, push_back, pop_front, push_all}
use code_c.BoundedQueue.Laws.{Straight, push_back_overrun}

abbrev holding : Bounded ℕ
holding = record { slots = 4 ∷ 0 ∷ []; capacity = 3; in_pos = 1; out_pos = 0; closed = true }

abbrev opened : Bounded ℕ
opened = record holding { closed = Bool.false }

opened-Straight : Straight 2 opened
opened-Straight = ground arith

third_push_waits : (push_back {A = ℕ} (push_all (make 0 2) (4 ∷ 5 ∷ [])) 6).0 ≡ waits
unfolding push_back push_all make
third_push_waits = refl

push_back_overrun_example :
    (push_back {A = ℕ} (pop_front (push_all (make 0 2) (4 ∷ 5 ∷ []))).1 6).0 ≡ fault
push_back_overrun_example = push_back_overrun 0 2 (4 ∷ 5 ∷ []) 6 (omega arith) refl
