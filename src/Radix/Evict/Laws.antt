-- ===== src/Radix/Evict/Laws.antt =====
-- What `evict` promises on a cache that is in use: it returns, with what it took.
use mathlib.Core.Option
use sglang_mlx.Prelude.{
  ℕ, ◌+◌, ◌≤◌, false, Option, none, some, List, [], ◌∷◌, ◌≡◌, refl, sym, ◌∙◌, ap, subst, arith, ◌⊎◌,
  inl, inr, pos, count, length, ltb_ℤ,
}
use sglang_mlx.Radix.Tree.{TreeNode, evicted}
use sglang_mlx.Radix.Weights.{sum_children}
use sglang_mlx.Radix.Measures.{locked}
use sglang_mlx.Radix.Evict.View.{Shrinks}
use sglang_mlx.Radix.Refine.{cached}
use sglang_mlx.Radix.Leaves.{is_id}
use sglang_mlx.Radix.Evict.LeafSums.{leaf_sum_children, leaf_sum-leaves}
use sglang_mlx.Radix.LeavesHistory.{IsExact}
use sglang_mlx.Radix.Balance.{IsBalanced}
use sglang_mlx.Radix.Policy.{Strategy}
use sglang_mlx.Radix.PopOrder.{total}
use sglang_mlx.Radix.Evict.HeapStart.{heap_sum-leaves, leaf_entries-AreRanked}
use sglang_mlx.Radix.Evict.Round.{IsSound, IsFull, negative, heap_sum}
use sglang_mlx.Radix.Evict.Loop.{
  Evicted, CutOff, evict_loop_lem, sum_list, AreLoose, AreNeeded, free_all, InOrder,
}
use sglang_mlx.Radix.Evict.{Evicting, evicting, evict_loop, evict}
use sglang_mlx.Radix.Cache.{RadixCache, nodes_children}

-- A cache as its calls keep it: the tree is well formed, ids are unique, the set of evictable
-- leaves is exact, and the two sizes count the tokens.
pub record IsKept (c : RadixCache) : Type 0 where
  pub leaves : (i : ℕ) → IsExact i c
  pub balanced : IsBalanced c
  pub alive : evicted c.root ≡ false

-- No lock was released more often than taken.
abbrev pub NoNegative : RadixCache → Type 0
NoNegative c = sum_children negative c.children ≡ 0

-- What `evict` took, and the cache after it.
pub record Eviction (n : ℕ) (c : RadixCache) (k : ℕ) (d : RadixCache) : Type 0 where
  pub kept : IsKept d
  pub same_switch : d.disable ≡ c.disable
  pub same_supply : d.supply ≡ c.supply
  pub victims : List TreeNode
  pub sums :
      (w : TreeNode → ℕ)
      → sum_children w c.children ≡ sum_children w d.children + sum_list w victims
  pub chain : CutOff c.root c.children victims d.children
  pub view : Shrinks (cached d) (cached c)
  pub loose : AreLoose victims
  pub needed : AreNeeded n 0 victims
  pub order : NoNegative c → InOrder c.eviction_strategy c.root c.children victims
  pub counted : k ≡ sum_list (λ h. length h.key) victims
  pub freed : d.allocator ≡ Option.map (free_all victims) c.allocator
  pub enough : (n ≤ k) ⊎ (NoNegative c → d.evictable_leaves ≡ [])

evicting-IsSound :
    (c : RadixCache)
    → IsKept c
    → IsSound (evicting c) × (NoNegative c → IsFull c.eviction_strategy (evicting c))
unfolding evicting
evicting-IsSound c v =
    let exact : (i : ℕ) → count i c.evictable_leaves ≡ leaf_sum_children (is_id i) c.children =
      λ i. (v.leaves i).exact ∙ sym (leaf_sum-leaves i c.children) in
    let start = λ (w : TreeNode → ℕ).
      heap_sum-leaves c.eviction_strategy w c.children c.evictable_leaves
        (λ i. omega (arith, (v.leaves i).one)) exact in
    (
      record {
        shape = (v.leaves 0).shape;
        rooted = (v.leaves 0).rooted;
        alive = v.alive;
        one = λ i. (v.leaves i).one;
        exact = exact;
        free = v.balanced.free;
        heap_leaves = λ w. omega (arith, start w);
      },
      λ z. record {
        locks = z;
        heap_all = λ w. omega (arith, start w);
        ranked = leaf_entries-AreRanked c.eviction_strategy c.children c.evictable_leaves;
      },
    )

-- A weight that unlocked nodes do not have is none of the victims'.
pub sum_list-loose :
    (w : TreeNode → ℕ) (l : List TreeNode)
    → ((h : TreeNode) → ltb_ℤ (pos 0) h.lock_ref ≡ false → w h ≡ 0)
    → AreLoose l
    → sum_list w l ≡ 0
sum_list-loose w [] none_loose v = refl
sum_list-loose w (x ∷ l) none_loose v =
    omega (arith, none_loose x v.0.0, sum_list-loose w l none_loose v.1)

pub locked-loose : (h : TreeNode) → ltb_ℤ (pos 0) h.lock_ref ≡ false → locked h ≡ 0
unfolding locked
locked-loose h e = rw e refl

count-empty : (l : List ℕ) → ((i : ℕ) → count i l ≡ 0) → l ≡ []
unfolding count
count-empty [] h = refl
count-empty (x ∷ l) h = absurd (ground (arith, h x))

after_loop : (c : RadixCache) → Evicting → RadixCache
after_loop c e = record c {
  root = e.root;
  children = e.children;
  evictable_size_ = e.evictable_size_;
  evictable_leaves = e.evictable_leaves;
  allocator = e.allocator;
}

after_loop-IsKept :
    (n : ℕ) (c : RadixCache) (e : Evicting)
    → IsKept c
    → Evicted c.eviction_strategy n (evicting c) e
    → IsKept (after_loop c e)
unfolding after_loop evicting
after_loop-IsKept n c e v x =
    let s = x.sound in
    let same = λ (i : ℕ). ap (is_id i) x.same_root in
    record {
      leaves = λ i. record {
        shape = s.shape;
        rooted = s.rooted;
        exact = s.exact i ∙ leaf_sum-leaves i e.children;
        one = s.one i;
        fresh = λ q. omega (arith, (v.leaves i).fresh q, x.sums (is_id i), same i);
      };
      balanced = record {
        free = s.free;
        taken =
            v.balanced.taken
            ∙ ap pos (
                omega (arith, x.sums locked, sum_list-loose locked x.victims locked-loose x.loose));
      };
      alive = s.alive;
    }

no_leaves :
    (st : Strategy) (e : Evicting) → IsSound e → IsFull st e → e.heap ≡ [] → e.evictable_leaves ≡ []
unfolding total
no_leaves st e s u empty =
    count-empty e.evictable_leaves
      (λ i. omega (arith, s.exact i, u.heap_all (is_id i), ap (heap_sum (is_id i)) empty))

evict-run :
    (c : RadixCache) (n : ℕ) (e : Evicting)
    → c.disable ≡ false
    → evict_loop (nodes_children c.children) c.eviction_strategy n (evicting c) ≡ some e
    → evict c n ≡ some (e.num_evicted, after_loop c e)
unfolding evict after_loop
evict-run c n e on ran = ground arith

-- On an enabled cache in order `evict` returns: it found every node that it looked for, and
-- its loop came to an end. It took unlocked nodes, with a slot for each of their tokens, as long
-- as fewer tokens were evicted than asked for; the result is the number of their tokens; their
-- slots went to the allocator in this order; no other node left the tree, and
-- every query is answered by a prefix of its answer before; if no lock
-- count is negative, each victim came first in the order of the strategy among the evictable leaves
-- of the tree that it was taken from; the cache is kept, and enabled; and
-- either enough tokens were evicted, or, if no lock count is negative, no evictable leaf is left.
pub evict_lem :
    (c : RadixCache) (n : ℕ)
    → IsKept c
    → c.disable ≡ false
    → (k : ℕ) × (d : RadixCache) × (evict c n ≡ some (k, d)) × Eviction n c k d
unfolding evicting after_loop
evict_lem c n v on =
    let start = evicting-IsSound c v in
    let (e, ran, x) =
      evict_loop_lem (nodes_children c.children) c.eviction_strategy n (evicting c) start.0
        (omega arith) in
    (
      e.num_evicted,
      after_loop c e,
      evict-run c n e on ran,
      record {
        kept = after_loop-IsKept n c e v x;
        same_switch = refl;
        same_supply = refl;
        victims = x.victims;
        sums = x.sums;
        chain = x.chain;
        view = x.view;
        loose = x.loose;
        needed = x.needed;
        order = λ z. x.order (start.1 z);
        counted = omega (arith, x.counted);
        freed = x.freed;
        enough = elim x.enough [
          | inl h ↦ inl h
          | inr h ↦ inr (λ z. no_leaves c.eviction_strategy e x.sound (x.full (start.1 z)) h)
        ];
      },
    )

unsome : {A : Type 0} → A → Option A → A
unsome a none = a
unsome a (some b) = b

-- The same for a call whose result is known.
pub evict-Eviction :
    (c d : RadixCache) (n k : ℕ)
    → IsKept c
    → c.disable ≡ false
    → evict c n ≡ some (k, d)
    → Eviction n c k d
unfolding unsome
evict-Eviction c d n k v on e =
    let (k', d', e', x) = evict_lem c n v on in
    let same : ◌≡◌ {A = ℕ × RadixCache} (k', d') (k, d) = ap (unsome (k, d)) (sym e' ∙ e) in
    subst (λ (r : ℕ × RadixCache). Eviction n c r.0 r.1) same x
