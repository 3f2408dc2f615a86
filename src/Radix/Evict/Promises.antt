-- ===== src/Radix/Evict/Promises.antt =====
-- What callers of `evict` rely on, each by itself.
use mathlib.Core.Option
use sglang_mlx.Prelude.{
  ℕ, ◌+◌, ◌≤◌, ◌<◌, false, some, List, [], ◌∷◌, ◌≡◌, refl, sym, ◌∙◌, ap, arith, ◌⊎◌, inl, inr, pos,
  ◌+ℤ◌, int_laws, pos_part, neg_part, count, count-append, length, ltb_ℤ, ltb, if◌then◌else◌,
}
use sglang_mlx.Allocator.{TokenPoolAllocator, free}
use sglang_mlx.Radix.Tree.{TreeNode, slots}
use sglang_mlx.Radix.Weights.{sum_children}
use sglang_mlx.Radix.Measures.{unlocked, locked, holds}
use sglang_mlx.Radix.Evict.Loop.{sum_list, AreLoose, AreNeeded, free_all}
use sglang_mlx.Radix.Evict.Laws.{IsKept, evict-Eviction, sum_list-loose, locked-loose}
use sglang_mlx.Radix.Evict.{evict}
use sglang_mlx.Radix.Cache.{RadixCache, evictable_size, protected_size}

count-free_all :
    (i : ℕ) (l : List TreeNode) (a : TokenPoolAllocator)
    → (count i (free_all l a).free_slots ≡ count i a.free_slots + sum_list (holds i) l)
      × ((free_all l a).pool_size ≡ a.pool_size)
unfolding free holds
count-free_all i [] a = (omega arith, refl)
count-free_all i (x ∷ l) a =
    let ih = count-free_all i l (free a (slots x.value)) in
    (omega (arith, ih.0, count-append i a.free_slots (slots x.value)), ih.1)

-- On an enabled cache in order that has an allocator, an eviction moves slots from the tree to it:
-- the free list and the tree together hold each slot as often as before, and `pool_size` is as it
-- was.
pub evict-slots :
    (c d : RadixCache) (a : TokenPoolAllocator) (n k i : ℕ)
    → IsKept c
    → c.disable ≡ false
    → c.allocator ≡ some a
    → evict c n ≡ some (k, d)
    → (b : TokenPoolAllocator) × (d.allocator ≡ some b)
      × (b.pool_size ≡ a.pool_size)
      × (count i b.free_slots + sum_children (holds i) d.children
          ≡ count i a.free_slots + sum_children (holds i) c.children)
evict-slots c d a n k i v on held e =
    let x = evict-Eviction c d n k v on e in
    let gone = count-free_all i x.victims a in
    (
      free_all x.victims a,
      x.freed ∙ ap (Option.map (free_all x.victims)) held,
      gone.1,
      omega (arith, gone.0, x.sums (holds i)),
    )

-- On an enabled cache in order, an eviction leaves every locked node: whatever is counted of nodes,
-- and counts nothing of unlocked ones, is as before.
pub evict-locked :
    (c d : RadixCache) (n k : ℕ) (w : TreeNode → ℕ)
    → IsKept c
    → c.disable ≡ false
    → ((h : TreeNode) → ltb_ℤ (pos 0) h.lock_ref ≡ false → w h ≡ 0)
    → evict c n ≡ some (k, d)
    → sum_children w d.children ≡ sum_children w c.children
evict-locked c d n k w v on loose e =
    let x = evict-Eviction c d n k v on e in
    omega (arith, x.sums w, sum_list-loose w x.victims loose x.loose)

sum_list-unlocked :
    (l : List TreeNode) → AreLoose l → sum_list unlocked l ≡ sum_list (λ h. length h.key) l
unfolding unlocked
sum_list-unlocked [] v = refl
sum_list-unlocked (x ∷ l) v = rw v.0.0 (omega (arith, sum_list-unlocked l v.1))

-- On an enabled cache in order, the number that `evict` returns is what the evictable size lost,
-- and the protected size is as before.
pub evict-sizes :
    (c d : RadixCache) (n k : ℕ)
    → IsKept c
    → c.disable ≡ false
    → evict c n ≡ some (k, d)
    → (evictable_size d +ℤ pos k ≡ evictable_size c) × (protected_size d ≡ protected_size c)
unfolding evictable_size protected_size
evict-sizes c d n k v on e =
    let x = evict-Eviction c d n k v on e in
    let free = x.kept.balanced.free in
    (
      omega (
        int_laws,
        ap pos_part free,
        ap neg_part free,
        ap pos_part v.balanced.free,
        ap neg_part v.balanced.free,
        x.sums unlocked,
        sum_list-unlocked x.victims x.loose,
        x.counted,
      ),
      x.kept.balanced.taken
          ∙ ap pos (evict-locked c d n k locked v on locked-loose e)
          ∙ sym v.balanced.taken,
    )

-- Whether a node has more than `m` tokens, as a number.
unfoldable pub longer : ℕ → TreeNode → ℕ
longer m h = if ltb m (length h.key) then 1 else 0

longer_bound : (m : ℕ) (h : TreeNode) → longer m h ≡ 0 → length h.key ≤ m
unfolding longer
longer_bound m h e = ground arith

needed-bound :
    (n evicted m : ℕ) (l : List TreeNode)
    → AreNeeded n evicted l
    → sum_list (longer m) l ≡ 0
    → (l ≡ []) ⊎ (evicted + sum_list (λ h. length h.key) l < n + m)
unfolding longer
needed-bound n evicted m [] v z = inl refl
needed-bound n evicted m (x ∷ l) v z =
    inr (elim (needed-bound n (evicted + length x.key) m l v.1 (omega (arith, z))) [
      | inl none_left ↦ rw none_left (omega (arith, longer_bound m x (omega (arith, z)), v.0))
      | inr more ↦ omega (arith, more)
    ])

-- An eviction does not overshoot by a whole node: on an enabled cache in order no node of which has
-- more than `m` tokens, fewer than `n + m` tokens are evicted, or none.
pub evict-bounded :
    (c d : RadixCache) (n k m : ℕ)
    → IsKept c
    → c.disable ≡ false
    → sum_children (longer m) c.children ≡ 0
    → evict c n ≡ some (k, d)
    → (k ≡ 0) ⊎ (k < n + m)
evict-bounded c d n k m v on short e =
    let x = evict-Eviction c d n k v on e in
    elim (needed-bound n 0 m x.victims x.needed (omega (arith, x.sums (longer m), short))) [
      | inl none_left ↦ inl (x.counted ∙ ap (sum_list (λ h. length h.key)) none_left)
      | inr few ↦ inr (omega (arith, few, x.counted))
    ]
