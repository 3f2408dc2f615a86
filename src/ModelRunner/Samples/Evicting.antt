-- ===== src/ModelRunner/Samples/Evicting.antt =====
-- Evictions from the cache of a runner while a request is in progress and after its end.
use sglang_mlx.Prelude.{
  ◌≤◌, Option, none, some, List, [], ◌∷◌, ◌≡◌, refl, length, take, pos, ◌⊎◌, ok,
}
use mathlib.Core.Option
use sglang_mlx.Allocator.{available_size, TokenPoolAllocator, free}
use sglang_mlx.Allocator.Slots.{once_within}
use sglang_mlx.Radix.Tree.{nil}
use sglang_mlx.Radix.Policy.{get_priority, ltb_rank}
use sglang_mlx.Radix.Cache.{
  RadixCache, match_prefix, protected_size, evictable_size, nodes_children,
}
use sglang_mlx.Radix.Evict.{
  entry, heappop, find_children, leaf_entries, remove_child, detach_tree, delete_leaf, evict_one,
  evict_loop, evicting, evict,
}
use sglang_mlx.Radix.Service.{evicted_from}
use sglang_mlx.Radix.Samples.{one_leaf}
use sglang_mlx.Radix.Locks.Clients.{nodes}
use sglang_mlx.Radix.Locks.Sizes.{guarded_children, idle_children}
use sglang_mlx.ModelRunner.State.{RequestState, ModelRunner}
use sglang_mlx.ModelRunner.Decode.{forward_decode, finish_request}
use sglang_mlx.ModelRunner.Interleaved.{prefills, decodes, finishes}
use sglang_mlx.ModelRunner.Pool.{IsServing}
use sglang_mlx.ModelRunner.Turns.{Turns, calls, evicts, here, next, locks_of}
use sglang_mlx.ModelRunner.Evicting.{Turns-match_prefix, Turns-sizes, Turns-evict}
use sglang_mlx.ModelRunner.Generate.{generate}
use sglang_mlx.ModelRunner.Generates.{none_yet, again, Generates-evict}
use sglang_mlx.ModelRunner.Reclaim.{NoneDecoded, Turns-IsServing}
use sglang_mlx.ModelRunner.Samples.{
  runs, lists, echo, small, made, asked, ask, served, decoded, answered,
}

-- What an eviction looks into.
evictions : Unit {0}
unfolding runs small served decoded find_children evict evict_loop evict_one delete_leaf detach_tree
    remove_child leaf_entries heappop entry evicting ltb_rank get_priority free nodes_children
evictions = tt

abbrev Any : List RequestState → Type 0
Any l = Unit

allocator_or : TokenPoolAllocator → Option TokenPoolAllocator → TokenPoolAllocator
allocator_or a none = a
allocator_or a (some b) = b

-- All but the prompt of the request in progress.
left : RadixCache
left = Option.get_or (evicted_from (evict decoded.1.radix_cache 100)) decoded.1.radix_cache

freed : TokenPoolAllocator
unfolding left
freed = allocator_or decoded.1.allocator left.allocator

evict_token : evict decoded.1.radix_cache 100 ≡ some (1, left)
unfolding evictions left
evict_token = refl

left_allocator : left.allocator ≡ some freed
unfolding evictions left freed allocator_or
left_allocator = refl

trimmed : ModelRunner lists
unfolding left freed
trimmed = record decoded.1 { radix_cache = left; allocator = freed }

-- The slot of the generated token is free, though the request goes on with it.
free_again : freed.free_slots ≡ 6 ∷ 5 ∷ 4 ∷ 3 ∷ []
unfolding evictions left freed allocator_or
free_again = refl

in_use : decoded.0.all_slot_indices ≡ 2 ∷ 1 ∷ 3 ∷ []
unfolding evictions
in_use = refl

-- The next token gets the slot that the first generated token is still read from.
twice : (forward_decode lists echo trimmed decoded.0 8).1.0.all_slot_indices ≡ 2 ∷ 1 ∷ 3 ∷ 3 ∷ []
unfolding evictions left freed allocator_or trimmed
twice = refl

trims :
    Turns lists Any echo
      (record { runner = small; requests = [] })
      (record { runner = trimmed; requests = decoded.0 ∷ [] })
unfolding trimmed
trims =
    next
      (next (next here (calls (prefills small served [] 7 (1 ∷ 2 ∷ []) asked _ ask)))
        (calls (decodes served decoded.1 [] [] 9 asked decoded.0 _ answered)))
      (evicts decoded.1 (decoded.0 ∷ []) 100 1 left freed tt evict_token left_allocator)

Turns-match_prefix_example :
    ((match_prefix trimmed.radix_cache decoded.0.prompt_tokens).0.device_indices
      ≡ take (length decoded.0.prompt_tokens) decoded.0.all_slot_indices)
    × (length (take (length decoded.0.prompt_tokens) decoded.0.all_slot_indices)
        ≡ length decoded.0.prompt_tokens)
Turns-match_prefix_example =
    Turns-match_prefix lists Any echo 1 1 1 6 tt one_leaf.supply small trimmed [] [] decoded.0 made
      trims

Turns-sizes_example :
    (protected_size trimmed.radix_cache
      ≡ pos (guarded_children (nodes (locks_of (decoded.0 ∷ []))) trimmed.radix_cache.children))
    × (evictable_size trimmed.radix_cache
        ≡ pos (idle_children (nodes (locks_of (decoded.0 ∷ []))) trimmed.radix_cache.children))
Turns-sizes_example =
    Turns-sizes lists Any echo 1 1 1 6 tt one_leaf.supply small
      (record { runner = trimmed; requests = decoded.0 ∷ [] }) made trims

-- The request has ended.
finished : ModelRunner lists
finished = finish_request lists decoded.1 decoded.0

ends :
    Turns lists NoneDecoded echo
      (record { runner = small; requests = [] })
      (record { runner = finished; requests = [] })
unfolding finished
ends =
    next
      (next (next here (calls (prefills small served [] 7 (1 ∷ 2 ∷ []) asked _ ask)))
        (calls (decodes served decoded.1 [] [] 9 asked decoded.0 _ answered)))
      (calls (finishes decoded.1 [] [] decoded.0))

cleared : RadixCache
unfolding finished
cleared = Option.get_or (evicted_from (evict finished.radix_cache 100)) finished.radix_cache

evict_all : evict finished.radix_cache 100 ≡ some (3, cleared)
unfolding evictions finished cleared
evict_all = refl

Turns-evict_example :
    (protected_size finished.radix_cache ≡ pos 0) × ((100 ≤ 3) ⊎ (cleared.children ≡ nil))
Turns-evict_example =
    Turns-evict lists NoneDecoded echo 1 1 1 6 tt one_leaf.supply small finished 100 3 cleared made
      ends evict_all

all_free : TokenPoolAllocator
unfolding cleared
all_free = allocator_or finished.allocator cleared.allocator

cleared_allocator : cleared.allocator ≡ some all_free
unfolding evictions finished cleared all_free allocator_or
cleared_allocator = refl

reclaimed : ModelRunner lists
unfolding cleared all_free
reclaimed = record finished { radix_cache = cleared; allocator = all_free }

Turns-IsServing_example :
    IsServing lists (once_within 6) (record { runner = reclaimed; requests = [] })
unfolding reclaimed
Turns-IsServing_example =
    Turns-IsServing lists echo 1 1 1 6 tt one_leaf.supply small
      (record { runner = reclaimed; requests = [] }) made
      (next ends (evicts finished [] 100 3 cleared all_free tt evict_all cleared_allocator))

-- A call of `generate`, and an eviction of all that it cached.
generated : ModelRunner lists
generated = (generate lists echo small 7 (1 ∷ 2 ∷ []) 3 none none).1

three_tokens :
    generate lists echo small 7 (1 ∷ 2 ∷ []) 3 none none ≡ (ok (1 ∷ 1 ∷ 1 ∷ []), generated)
unfolding runs small generated
three_tokens = refl

emptied : RadixCache
emptied = Option.get_or (evicted_from (evict generated.radix_cache 200)) generated.radix_cache

evict_five : evict generated.radix_cache 200 ≡ some (5, emptied)
unfolding evictions small generated emptied
evict_five = refl

-- All slots are free again.
slots_back : Option.map (λ a. available_size a) emptied.allocator ≡ some 6
unfolding evictions small generated emptied available_size
slots_back = refl

Generates-evict_example :
    (protected_size generated.radix_cache ≡ pos 0) × ((200 ≤ 5) ⊎ (emptied.children ≡ nil))
Generates-evict_example =
    Generates-evict lists echo 1 1 1 6 tt one_leaf.supply small generated 200 5 emptied made
      (again generated 7 (1 ∷ 2 ∷ []) 3 none none (1 ∷ 1 ∷ 1 ∷ []) none_yet three_tokens) evict_five
