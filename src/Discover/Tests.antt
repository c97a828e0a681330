-- ===== src/Discover/Tests.antt =====
-- Topics "t" and "u" in service_discover.hpp, with a buffer of six bytes.
use code_c.Base.{ℕ, List, [], ◌∷◌}
use code_c.Base.Int.{pos}
use code_c.Discover.{Text, Discover, Answers}
use code_c.Discover.Registered.{Event, registers}

abbrev answers : Answers
answers = record {
  init_server = pos 0;
  init_client = pos 0;
  group_address = pos 0;
  bind = pos 0;
  membership = pos 0;
  recv_start = pos 0;
}

abbrev stale : List ℕ
stale = 9 ∷ 9 ∷ 9 ∷ 9 ∷ 9 ∷ 9 ∷ []

abbrev received : List ℕ
received = 116 ∷ 0 ∷ 5 ∷ 6 ∷ 9 ∷ 9 ∷ []

abbrev events : List Event
events = registers (116 ∷ []) 3 ∷ registers (117 ∷ []) 4 ∷ []

abbrev discover : Discover
discover = record { buffer = stale; callbacks = (116 ∷ [], 3 ∷ []) ∷ (117 ∷ [], 4 ∷ []) ∷ [] }
