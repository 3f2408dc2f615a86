-- ===== src/Radix/Evict/Loop.antt =====
-- The loop of `evict`: it ends within its fuel, and what it took.
use mathlib.Core.Option
use sglang_mlx.Prelude.{
  ℕ, zero, suc, ◌+◌, ◌≤◌, ◌<◌, false, Option, none, some, List, [], ◌∷◌, ◌≡◌, refl, ◌∙◌, ap, subst,
  arith, ◌⊎◌, Bool-cases, inl, inr, pos, ltb_ℤ, length, ltb, ltb→lt,
}
use sglang_mlx.Allocator.{TokenPoolAllocator, free}
use sglang_mlx.Radix.Tree.{TreeNode, Tree, tree, Children, nil, child, slots}
use sglang_mlx.Radix.Weights.{sum_children, sum_tree}
use sglang_mlx.Radix.Evict.LeafSums.{leaf_sum_children, leaf_sum_children-le, at_id, sum-at_id}
use sglang_mlx.Radix.Evict.Victim.{at_id_self, is_id_self}
use sglang_mlx.Radix.Leaves.{is_id, ids}
use sglang_mlx.Radix.View.{cached_children}
use sglang_mlx.Radix.Evict.View.{Shrinks, IsPrefix-refl, IsPrefix-trans}
use sglang_mlx.Radix.Policy.{Strategy}
use sglang_mlx.Radix.Cache.{nodes_children, nodes_tree}
use sglang_mlx.Radix.PopOrder.{total, before, heap_sum-before, Least, heappop-Least}
use sglang_mlx.Radix.Evict.Round.{heap_sum, hot, IsSound, IsFull, Round, evict_one_lem}
use sglang_mlx.Radix.Evict.{Entry, Evicting, evict_loop, Parent, detach_tree}

abbrev pub sum_list : (TreeNode → ℕ) → List TreeNode → ℕ
sum_list w [] = 0
sum_list w (x ∷ l) = w x + sum_list w l

-- The victims were unlocked, and had a slot for each token.
abbrev pub AreLoose : List TreeNode → Type 0
AreLoose [] = Unit
AreLoose (x ∷ l) =
    ((ltb_ℤ (pos 0) x.lock_ref ≡ false) × (length (slots x.value) ≡ length x.key)) × AreLoose l

-- Before each victim fewer than `n` tokens were evicted.
abbrev pub AreNeeded : ℕ → ℕ → List TreeNode → Type 0
AreNeeded n evicted [] = Unit
AreNeeded n evicted (x ∷ l) = (evicted < n) × AreNeeded n (evicted + length x.key) l

-- The victims' slots go to the allocator, one victim after the other.
abbrev pub free_all : List TreeNode → TokenPoolAllocator → TokenPoolAllocator
free_all [] a = a
free_all (x ∷ l) a = free_all l (free a (slots x.value))

-- Each victim came first in the order of evictions, among the evictable leaves of the tree that it
-- was taken from.
abbrev pub InOrder : Strategy → TreeNode → Children → List TreeNode → Type 0
InOrder st root f [] = Unit
InOrder st root f (x ∷ l) =
    (leaf_sum_children (before st x) f ≡ 0)
    × ((f' : Children) × (p : Parent) × (detach_tree x.id (tree root f) ≡ some (tree root f', p))
        × InOrder st root f' l)

-- A dictionary from which the victims were cut one after the other, none of them locked.
abbrev pub CutOff : TreeNode → Children → List TreeNode → Children → Type 0
CutOff root f [] g = g ≡ f
CutOff root f (x ∷ l) g =
    (f' : Children) × (p : Parent) × (detach_tree x.id (tree root f) ≡ some (tree root f', p))
    × (sum_children (at_id x.id hot) f ≡ 0)
    × CutOff root f' l g

pub record Evicted (st : Strategy) (n : ℕ) (e e' : Evicting) : Type 0 where
  pub victims : List TreeNode
  pub sound : IsSound e'
  pub full : IsFull st e → IsFull st e'
  pub order : IsFull st e → InOrder st e.root e.children victims
  pub chain : CutOff e.root e.children victims e'.children
  pub same_root : e'.root ≡ e.root
  pub sums :
      (w : TreeNode → ℕ)
      → sum_children w e.children ≡ sum_children w e'.children + sum_list w victims
  pub view : Shrinks (cached_children e'.children) (cached_children e.children)
  pub loose : AreLoose victims
  pub needed : AreNeeded n e.num_evicted victims
  pub counted : e'.num_evicted ≡ e.num_evicted + sum_list (λ h. length h.key) victims
  pub freed : e'.allocator ≡ Option.map (free_all victims) e.allocator
  pub enough : (n ≤ e'.num_evicted) ⊎ (e'.heap ≡ [])

mutual
  unfolding nodes_tree sum_tree

  pub nodes-sum : (f : Children) → nodes_children f ≡ sum_children (λ h. 1) f
  nodes-sum nil = refl
  nodes-sum (child c t f) = omega (arith, nodes-sum_tree t, nodes-sum f)

  nodes-sum_tree : (t : Tree) → nodes_tree t ≡ sum_tree (λ h. 1) t
  nodes-sum_tree (tree h f) = omega (arith, nodes-sum f)

map_id : {A : Type 0} (a : Option A) → a ≡ Option.map (λ x. x) a
map_id none = refl
map_id (some x) = refl

map-map :
    {A : Type 0} (f g : A → A) (a : Option A)
    → Option.map g (Option.map f a) ≡ Option.map (λ x. g (f x)) a
map-map f g none = refl
map-map f g (some x) = refl

no_victims :
    (st : Strategy) (n : ℕ) (e : Evicting)
    → IsSound e
    → (n ≤ e.num_evicted) ⊎ (e.heap ≡ [])
    → Evicted st n e e
no_victims st n e s k = record {
  victims = [];
  sound = s;
  full = λ u. u;
  order = λ u. tt;
  chain = refl;
  same_root = refl;
  sums = λ w. omega arith;
  view = λ q. IsPrefix-refl (cached_children e.children q);
  loose = tt;
  needed = tt;
  counted = omega arith;
  freed = map_id e.allocator;
  enough = k;
}

-- No node with the id of a victim was locked.
victim_cold :
    (st : Strategy) (e e' : Evicting) (x : TreeNode) (rest : List Entry)
    → IsSound e
    → Round st rest e e' x
    → sum_children (at_id x.id hot) e.children ≡ 0
victim_cold st e e' x rest s r =
    let gone : ids x.id e'.children ≡ 0 =
      omega (arith, r.sums (is_id x.id), is_id_self x x refl, s.one x.id) in
    let loose : hot x ≡ 0 = rw r.loose refl in
    omega
      (arith, r.sums (at_id x.id hot), at_id_self x hot, sum-at_id x.id hot e'.children gone, loose)

one_more :
    (st : Strategy) (n : ℕ) (e e' e'' : Evicting) (m : Entry) (rest : List Entry)
    → IsSound e
    → e.num_evicted < n
    → Least e.heap m rest
    → Round st rest e e' m.1
    → Evicted st n e' e''
    → Evicted st n e e''
one_more st n e e' e'' m rest s few least r v = record {
  victims = m.1 ∷ v.victims;
  sound = v.sound;
  full = λ u. v.full (r.full (least.ranked st u.ranked).1 u);
  order = λ u.
      let ranks = least.ranked st u.ranked in
      (
        omega (
          arith,
          u.heap_all (before st m.1),
          heap_sum-before st m e.heap ranks.0 u.ranked least.none_before,
        ),
        (
          e'.children,
          r.taken.0,
          r.taken.1,
          subst (λ h. InOrder st h e'.children v.victims) r.same_root (v.order (r.full ranks.1 u)),
        ),
      );
  chain = (
    e'.children,
    r.taken.0,
    r.taken.1,
    victim_cold st e e' m.1 rest s r,
    subst (λ h. CutOff h e'.children v.victims e''.children) r.same_root v.chain,
  );
  same_root = v.same_root ∙ r.same_root;
  sums = λ w. omega (arith, r.sums w, v.sums w);
  view = λ q. IsPrefix-trans _ _ _ (v.view q) (r.view q);
  loose = ((r.loose, r.paired), v.loose);
  needed = (few, rw (← r.counted) v.needed);
  counted = omega (arith, r.counted, v.counted);
  freed =
      v.freed
      ∙ ap (Option.map (free_all v.victims)) r.freed
      ∙ map-map (λ a. free a (slots m.1.value)) (free_all v.victims) e.allocator;
  enough = v.enough;
}

empty_heap : (l : List Entry) → heap_sum (λ h. 1) l ≡ 0 → l ≡ []
unfolding total
empty_heap [] e = refl
empty_heap (x ∷ l) e = absurd (omega (arith, e))

pub evict_loop_lem :
    (fuel : ℕ) (st : Strategy) (n : ℕ) (e : Evicting)
    → IsSound e
    → nodes_children e.children ≤ fuel
    → (e' : Evicting) × (evict_loop fuel st n e ≡ some e') × Evicted st n e e'
unfolding evict_loop
evict_loop_lem zero st n e s room =
    let empty = empty_heap e.heap (
      omega (
        arith,
        nodes-sum e.children,
        s.heap_leaves (λ h. 1),
        leaf_sum_children-le (λ h. 1) e.children,
      )) in
    elim (Bool-cases (ltb e.num_evicted n)) [
      | inl h ↦ (
        e,
        rw (h, empty) (ap (λ l. some (record e { heap = l })) empty),
        no_victims st n e s (inr empty),
      )
      | inr h ↦ (e, rw h refl, no_victims st n e s (inl (ground arith)))
    ]
evict_loop_lem (suc fuel) st n e s room = elim (Bool-cases (ltb e.num_evicted n)) [
  | inr h ↦ (e, rw (h, evict_loop) refl, no_victims st n e s (inl (ground arith)))
  | inl h ↦ elim (heappop-Least e.heap) [
    | inl (empty, q) ↦ (e, rw (h, evict_loop, q) refl, no_victims st n e s (inr empty))
    | inr (m, rest, q, least) ↦
        let (e1, one, r) = evict_one_lem st e m.1 rest s (λ w. least.same_entries (λ x. w x.1)) in
        let (e2, more, v) =
          evict_loop_lem fuel st n e1 r.sound
            (omega (arith, nodes-sum e.children, nodes-sum e1.children, r.sums (λ h. 1))) in
        (
          e2,
          rw (h, evict_loop, q, one) more,
          one_more st n e e1 e2 m rest s (ltb→lt _ _ h) least r v,
        )
  ]
]
