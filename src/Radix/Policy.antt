-- ===== src/Radix/Policy.antt =====
-- sglang_mlx/srt/mem_cache/evict_policy.py, and the choice of a strategy in `RadixCache.__init__`.
-- A priority is a number or a tuple of numbers: here a list, compared as Python compares tuples.
use sglang_mlx.Prelude.{
  ℕ, ◌+◌, Bool, true, false, List, [], ◌∷◌, map, ◌==◌, leb, ◌&&◌, if◌then◌else◌, ℤ, pos, ltb_ℤ,
  ◌-ℤ◌, Result, ok, raise, value_error,
}
use Prim.Native.String.{String}
use Prim.Native.Char.{code}
use sglang_mlx.Radix.Tree.{TreeNode}

pub data Strategy : Type 0 where
  lru lfu fifo mru filo by_priority : Strategy

-- A time, as a number that can be negated.
abbrev pub time : ℕ → ℤ
time t = pos t

-- `get_priority` of the six strategies.
unfoldable pub get_priority : Strategy → TreeNode → List ℤ
get_priority lru h = time h.last_access_time ∷ []
get_priority lfu h = pos h.hit_count ∷ time h.last_access_time ∷ []
get_priority fifo h = time h.creation_time ∷ []
get_priority mru h = (pos 0 -ℤ time h.last_access_time) ∷ []
get_priority filo h = (pos 0 -ℤ time h.creation_time) ∷ []
get_priority by_priority h = h.priority ∷ time h.last_access_time ∷ []

-- `a < b` on tuples of numbers.
unfoldable pub ltb_rank : List ℤ → List ℤ → Bool
ltb_rank a [] = false
ltb_rank [] (y ∷ b) = true
ltb_rank (x ∷ a) (y ∷ b) = if ltb_ℤ x y then true else if ltb_ℤ y x then false else ltb_rank a b

-- `a < b` on the entries `(priority, node)` of the heap: equal priorities compare the nodes, and
-- `TreeNode.__lt__` compares their access times.
unfoldable pub ltb_entry : List ℤ × TreeNode → List ℤ × TreeNode → Bool
unfolding ltb_rank
ltb_entry (a, x) (b, y) =
    if ltb_rank a b
    then true
    else if ltb_rank b a
    then false
    else ltb_ℤ (time x.last_access_time) (time y.last_access_time)

-- The code points of a text.
abbrev pub codes : String → List ℕ
codes String.[] = []
codes (String.◌∷◌ c s) = code c ∷ codes s

-- `str.lower()` on ASCII. No other character lowers to a letter of the names below.
abbrev pub lower : ℕ → ℕ
lower c = if leb b'A' c && leb c b'Z' then c + 32 else c

unfoldable pub same : List ℕ → List ℕ → Bool
same [] [] = true
same [] (y ∷ ys) = false
same (x ∷ xs) [] = false
same (x ∷ xs) (y ∷ ys) = x == y && same xs ys

-- The ladder of `RadixCache.__init__` over `params.eviction_policy.lower()`.
unfoldable pub choose_strategy : String → Result Strategy
unfolding same
choose_strategy policy =
    let name = map lower (codes policy) in
    if same name (codes "lru")
    then ok lru
    else if same name (codes "lfu")
    then ok lfu
    else if same name (codes "fifo")
    then ok fifo
    else if same name (codes "mru")
    then ok mru
    else if same name (codes "filo")
    then ok filo
    else if same name (codes "priority")
    then ok by_priority
    else raise value_error
