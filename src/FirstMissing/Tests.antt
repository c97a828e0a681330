-- ===== src/FirstMissing/Tests.antt =====
-- Two calls, one after the other.
use code_c.Base.{ℕ, ◌<◌, ◌≡◌, refl, true, false, List, [], ◌∷◌}
use code_c.Base.Int.{ℤ, pos, negsuc}
use code_c.FirstMissing.{first_missing, sized, mark_loop, mark, scan_loop}
use code_c.FirstMissing.Least.{among, first_missing-least}

abbrev sample : List ℤ
sample = pos 3 ∷ pos 4 ∷ negsuc 0 ∷ pos 1 ∷ []

sample_holds : (first_missing sample []).0 ≡ 2
unfolding first_missing sized mark_loop mark scan_loop
sample_holds = refl

-- The marks of the first call are still there in the second, so 1 is not found to be missing.
second_call : (first_missing (pos 2 ∷ []) (first_missing (pos 1 ∷ []) []).1).0 ≡ 2
unfolding first_missing sized mark_loop mark scan_loop
second_call = refl

first_missing-least_example :
    let r = (first_missing sample []).0 in
    (0 < r) × (among r sample ≡ false) × ((k : ℕ) → 0 < k → k < r → among k sample ≡ true)
first_missing-least_example = first_missing-least sample
