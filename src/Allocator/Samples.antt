-- ===== src/Allocator/Samples.antt =====
-- Runs of the allocator, and its theorems at them.
use sglang_mlx.Prelude.{
  ℕ, ◌+◌, ◌<◌, ◌≤◌, arith, List, [], ◌∷◌, ◌++◌, ◌≡◌, refl, ok, raise, memory_error, length, ◌⊎◌,
  count,
}
use sglang_mlx.Allocator.{
  TokenPoolAllocator, new_allocator, alloc, free, available_size, range_down,
}
use sglang_mlx.Allocator.Slots.{
  alloc_lem, free-alloc, Shared, Reach, here, next, takes, gives, slots_once, once_within,
}

abbrev four : TokenPoolAllocator
four = record { pool_size = 4; free_slots = 4 ∷ 3 ∷ 2 ∷ 1 ∷ [] }

abbrev two : TokenPoolAllocator
two = record { pool_size = 4; free_slots = 4 ∷ 3 ∷ [] }

new_four : new_allocator 4 ≡ ok four
unfolding new_allocator range_down
new_four = refl

take_two : alloc four 2 ≡ ok (2 ∷ 1 ∷ [], two)
unfolding alloc
take_two = refl

take_too_many : alloc two 3 ≡ raise memory_error
unfolding alloc
take_too_many = refl

-- A client that takes two slots and gives the first one back.
abbrev begin : Shared
begin = record { allocator = four; held = [] }

abbrev after : Shared
after = record { allocator = free two (2 ∷ []); held = 1 ∷ [] }

parts : (i : ℕ) → count i (2 ∷ 1 ∷ []) ≡ count i (2 ∷ []) + count i (1 ∷ [])
unfolding count
parts i = ground arith

history : Reach begin after
history =
    next (next here (takes begin 2 (2 ∷ 1 ∷ []) two take_two))
      (gives (record { allocator = two; held = 2 ∷ 1 ∷ [] }) (2 ∷ []) (1 ∷ []) parts)

alloc_lem_example :
    ((s : List ℕ) × (b : TokenPoolAllocator) × (alloc four 2 ≡ ok (s, b))
      × (2 ≤ available_size four)
      × (length s ≡ 2)
      × (b.free_slots ++ s ≡ four.free_slots)
      × (b.pool_size ≡ four.pool_size))
    ⊎ ((alloc four 2 ≡ raise memory_error) × (available_size four < 2))
alloc_lem_example = alloc_lem four 2

free-alloc_example : free two (2 ∷ 1 ∷ []) ≡ four
free-alloc_example = free-alloc four two 2 (2 ∷ 1 ∷ []) take_two

slots_once_example : count 2 after.allocator.free_slots + count 2 after.held ≡ once_within 4 2
slots_once_example = slots_once 4 four after new_four history 2
