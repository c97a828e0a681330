-- ===== src/MergeLists.antt =====
-- c++/leetcode/23.cpp: merging sorted linked lists with a priority queue. A linked list is the list of
-- its values; the queue of the standard library is a parameter, its contents a list in any order.
pub mod Order
pub mod Sorted
mod Tests
use code_c.Base.{
  ℕ, zero, suc, ◌+◌, Bool, true, false, ◌&&◌, leb, ◌≡◌, ◌≢◌, ◌⊎◌, ◌≤◌, Option, none, some, List, [],
  ◌∷◌, ◌++◌, ◌==◌, if◌then◌else◌, length, All, ◌>>=◌,
}

-- The loop that erases null pointers from `lists`.
pub without_null : List (List ℕ) → List (List ℕ)
without_null [] = []
without_null ([] ∷ ls) = without_null ls
without_null ((x ∷ xs) ∷ ls) = (x ∷ xs) ∷ without_null ls

-- `if (t->next != nullptr) q.push(t->next)`
pub push_next : List ℕ → List (List ℕ) → List (List ℕ)
push_next [] q = q
push_next (y ∷ ys) q = (y ∷ ys) ∷ q

-- One round, with the rounds after it as a function.
pub chained : (List (List ℕ) → Option (List ℕ)) → Option (List ℕ × List (List ℕ)) → Option (List ℕ)
chained go_on none = some []
chained go_on (some ([], rest)) = none
chained go_on (some (x ∷ xs, rest)) = do others ← go_on (push_next xs rest); some (x ∷ others)

-- The loop over the queue, on fuel: the values in the order in which the nodes are chained. `pop` is
-- `top` and `pop`, `none` for an empty queue. The whole is `none` when fuel runs out or a pointer in
-- the queue is null.
pub merge_loop :
    (List (List ℕ) → Option (List ℕ × List (List ℕ))) → ℕ → List (List ℕ) → Option (List ℕ)
merge_loop pop zero q = none
merge_loop pop (suc fuel) q = chained (merge_loop pop fuel) (pop q)

-- The comparator `cmp`; a null pointer, which the code does not compare, is above nothing.
pub cmp : List ℕ → List ℕ → Bool
cmp (x ∷ xs) (y ∷ ys) = leb y x
cmp l r = false

-- `mergeKLists`, with the priority queue for a comparator.
pub merge_k_lists :
    ((List ℕ → List ℕ → Bool) → List (List ℕ) → Option (List ℕ × List (List ℕ)))
    → ℕ
    → List (List ℕ)
    → Option (List ℕ)
merge_k_lists pop fuel lists = merge_loop (pop cmp) fuel (without_null lists)

-- A sum over lists.
abbrev pub weight : (List ℕ → ℕ) → List (List ℕ) → ℕ
weight f [] = 0
weight f (l ∷ ls) = f l + weight f ls

abbrev pub count : ℕ → List ℕ → ℕ
count v [] = 0
count v (x ∷ xs) = (if x == v then 1 else 0) + count v xs

-- The comparator is a strict weak order on the elements of a queue that are not null, each compared
-- with the others: it is transitive, what is below another is not on a level with any third, and no two
-- elements are each below the other.
abbrev pub Orders : (List ℕ → List ℕ → Bool) → List (List ℕ) → Type 0
Orders less q =
    ((a b c : List ℕ) → less a b ≡ true → less b c ≡ true → less a c ≡ true)
    × ((a b c : List ℕ) → b ≢ [] → less a c ≡ true → (less a b ≡ true) ⊎ (less b c ≡ true))
    × ((m : List ℕ) → weight (λ l. if less l m && less m l then 1 else 0) q ≤ 1)

-- What a priority queue is documented to do: where the comparator orders its elements, `top` is one that
-- is below no other; `pop` takes it away and nothing else.
pub record PriorityQueue (less : List ℕ → List ℕ → Bool)
    (pop : List (List ℕ) → Option (List ℕ × List (List ℕ))) : Type 1 where
  pub empty : (q : List (List ℕ)) → pop q ≡ none → q ≡ []
  pub top :
      (q rest : List (List ℕ)) (t : List ℕ)
      → Orders less q
      → All (λ l. l ≢ []) q
      → pop q ≡ some (t, rest)
      → All (λ m. less t m ≡ false) rest
  pub members :
      (P : List ℕ → Type 0) (q rest : List (List ℕ)) (t : List ℕ)
      → pop q ≡ some (t, rest)
      → All P q
      → P t × All P rest
  pub weights :
      (f : List ℕ → ℕ) (q rest : List (List ℕ)) (t : List ℕ)
      → pop q ≡ some (t, rest)
      → weight f q ≡ f t + weight f rest
