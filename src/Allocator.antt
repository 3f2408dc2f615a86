-- ===== src/Allocator.antt =====
-- `TokenPoolAllocator` of sglang_mlx/srt/mem_cache/memory_pool.py: a free list used as a stack.
-- Sizes are natural numbers: a negative `pool_size` or `n` takes the branch of 0 in the source.
pub mod Slots
pub mod Samples
use sglang_mlx.Prelude.{
  ℕ, zero, suc, ◌-◌, List, [], ◌∷◌, ◌++◌, ltb, leb, length, take, drop, if◌then◌else◌, Result, ok,
  raise, value_error, memory_error,
}

pub record TokenPoolAllocator : Type 0 where
  pub pool_size : ℕ
  pub free_slots : List ℕ

-- `list(range(n, 0, -1))`.
unfoldable pub range_down : ℕ → List ℕ
range_down zero = []
range_down (suc n) = suc n ∷ range_down n

-- `TokenPoolAllocator(pool_size)`.
unfoldable pub new_allocator : ℕ → Result TokenPoolAllocator
new_allocator pool_size =
    if leb pool_size 0
    then raise value_error
    else ok (record { pool_size = pool_size; free_slots = range_down pool_size })

-- `alloc`: `_free_slots[-n:]` and its deletion.
unfoldable pub alloc : TokenPoolAllocator → ℕ → Result (List ℕ × TokenPoolAllocator)
alloc a n =
    let rest = length a.free_slots - n in
    if leb n 0
    then ok ([], a)
    else if ltb (length a.free_slots) n
    then raise memory_error
    else ok (drop rest a.free_slots, record a { free_slots = take rest a.free_slots })

-- `free`.
unfoldable pub free : TokenPoolAllocator → List ℕ → TokenPoolAllocator
free a indices = record a { free_slots = a.free_slots ++ indices }

-- `available_size`.
unfoldable pub available_size : TokenPoolAllocator → ℕ
available_size a = length a.free_slots

-- `clear`.
unfoldable pub clear : TokenPoolAllocator → TokenPoolAllocator
clear a = record a { free_slots = range_down a.pool_size }
