-- ===== src/Radix/TotalSize.antt =====
-- `total_size` of radix_cache.py: the loop over a stack, against the sum over the tree.
use sglang_mlx.Prelude.{
  ℕ, zero, suc, false, Option, none, ℤ, ◌+◌, ◌≤◌, some, List, [], ◌∷◌, ◌≡◌, refl, arith, length, ap,
  ◌∙◌, Bool-cases, inl, inr, pos, ltb_ℤ, ◌+ℤ◌, subst, int_laws, pos_part, neg_part,
}
use sglang_mlx.Radix.Tree.{TreeNode, Tree, tree, Children, nil, child, slots, evicted}
use sglang_mlx.Radix.Weights.{sum_children, sum_tree}
use sglang_mlx.Radix.Measures.{unlocked, locked}
use sglang_mlx.Radix.View.{WfChildren, WfTree}
use sglang_mlx.Radix.Lock.{Body, inc_node, dec_node}
use sglang_mlx.Radix.Refine.{IsWellFormed, climb_cases}
use sglang_mlx.Radix.History.{
  Call, matches, stores, locks, unlocks, step, run, IfAny, locked_at-IfAny, run-IfAny, ArePaired,
}
use sglang_mlx.Radix.Balance.{run-IsBalanced}
use sglang_mlx.Radix.LeavesHistory.{run-IsExact}
use sglang_mlx.Radix.Cache.{
  RadixCache, total_size, total_size_loop, push_children, nodes_children, nodes_tree, InsertParams,
  reset, match_prefix, insert, climb, inc_lock_ref, dec_lock_ref, evictable_size, protected_size,
}

nodes_stack : List Tree → ℕ
nodes_stack [] = 0
nodes_stack (t ∷ stack) = nodes_tree t + nodes_stack stack

-- The tokens of a node, by its slots.
tokens : TreeNode → ℕ
tokens h = length (slots h.value)

sum_stack : List Tree → ℕ
unfolding tokens
sum_stack [] = 0
sum_stack (t ∷ stack) = sum_tree tokens t + sum_stack stack

abbrev IsSound : Tree → Type 0
IsSound (tree h f) = WfChildren f

abbrev AreSound : List Tree → Type 0
AreSound [] = Unit
AreSound (t ∷ stack) = IsSound t × AreSound stack

live-held : (h : TreeNode) (v : List ℕ) → h.value ≡ some v → evicted h ≡ false
live-held h v e = rw e refl

-- A pushed dictionary adds its nodes and its tokens, since each child is live.
push_children-sums :
    (f : Children) (stack : List Tree)
    → WfChildren f
    → AreSound stack
    → let s = push_children f stack in
      AreSound s
      × (nodes_stack s ≡ nodes_children f + nodes_stack stack)
      × (sum_stack s ≡ sum_children tokens f + sum_stack stack)
unfolding push_children nodes_stack sum_stack nodes_children sum_children
push_children-sums nil stack w v = (v, omega arith, omega arith)
push_children-sums (child c (tree h g) f) stack w v =
    let ih = push_children-sums f (tree h g ∷ stack) w.2 (w.0.1, v) in
    rw (live-held h _ w.0.0.held) ((ih.0, omega (arith, ih.1), omega (arith, ih.2)))

-- Fuel for each node on the stack is enough.
total_size_loop-sum :
    (fuel : ℕ) (stack : List Tree) (total : ℕ)
    → AreSound stack
    → nodes_stack stack ≤ fuel
    → total_size_loop fuel stack total ≡ some (total + sum_stack stack)
unfolding total_size_loop nodes_stack sum_stack nodes_tree sum_tree tokens
total_size_loop-sum fuel [] total v h = ap some (omega arith)
total_size_loop-sum zero (tree x f ∷ stack) total v h = absurd (omega (arith, h))
total_size_loop-sum (suc fuel) (tree x f ∷ stack) total v h =
    let p = push_children-sums f stack v.0 v.1 in
    total_size_loop-sum fuel (push_children f stack) (total + length (slots x.value)) p.0
      (omega (arith, h, p.1))
    ∙ ap some (omega (arith, p.2))

mutual
  unfolding sum_tree tokens unlocked locked

  tokens-children :
      (f : Children)
      → WfChildren f
      → sum_children tokens f ≡ sum_children unlocked f + sum_children locked f
  tokens-children nil w = omega arith
  tokens-children (child c t f) w = omega (arith, tokens-tree c t w.0, tokens-children f w.2)

  tokens-tree :
      (c : ℕ) (t : Tree) → WfTree c t → sum_tree tokens t ≡ sum_tree unlocked t + sum_tree locked t
  tokens-tree c (tree h f) w =
      let tail = tokens-children f w.1 in
      elim (Bool-cases (ltb_ℤ (pos 0) h.lock_ref)) [
        | inl e ↦ rw (e, w.0.held) (omega (arith, tail, w.0.paired))
        | inr e ↦ rw (e, w.0.held) (omega (arith, tail, w.0.paired))
      ]

pub total_size-sum :
    (c : RadixCache)
    → IsWellFormed c
    → total_size c
      ≡ some (
          length (slots c.root.value)
          + sum_children unlocked c.children
          + sum_children locked c.children)
unfolding total_size nodes_stack sum_stack sum_tree tokens
total_size-sum c w =
    total_size_loop-sum (nodes_tree (tree c.root c.children)) (tree c.root c.children ∷ []) 0
      (w, tt) (omega arith)
    ∙ ap some (omega (arith, tokens-children c.children w))

-- No call changes the slots of the root.
unfoldable pub Rests : RadixCache → RadixCache → Type 0
Rests c d = d.root.value ≡ c.root.value

match_prefix-Rests : (c : RadixCache) (key : List ℕ) → Rests c (match_prefix c key).1
unfolding Rests match_prefix
match_prefix-Rests c key = ground arith

insert-Rests : (c : RadixCache) (params : InsertParams) → Rests c (insert c params).1
unfolding Rests insert
insert-Rests c params = ground arith

climb-Rests :
    (body : Body) (c : RadixCache) (node : ℕ) (d : RadixCache) (delta : ℤ)
    → climb body c node ≡ some (delta, d)
    → Rests c d
unfolding Rests
climb-Rests body c node d delta e = elim (climb_cases body c d node delta e) [
  | inl (same, _) ↦ rw same refl
  | inr (f, b, _, place, _) ↦ rw place refl
]

pub step-Rests : (c : RadixCache) (call : Call) → IfAny (Rests c) (step c call)
unfolding step inc_lock_ref dec_lock_ref
step-Rests c (matches key) = match_prefix-Rests c key
step-Rests c (stores key value p) = insert-Rests c _
step-Rests c (locks node) =
    locked_at-IfAny (Rests c) inc_node c node _ refl (climb-Rests inc_node c node)
step-Rests c (unlocks node) =
    locked_at-IfAny (Rests c) dec_node c node _ refl (climb-Rests dec_node c node)

-- The root holds no slots.
abbrev IsBare : RadixCache → Type 0
IsBare c = slots c.root.value ≡ []

Rests-IsBare :
    (c : RadixCache) (r : Option RadixCache) → IsBare c → IfAny (Rests c) r → IfAny IsBare r
unfolding Rests
Rests-IsBare c none bare v = tt
Rests-IsBare c (some d) bare v = ap slots v ∙ bare

run-IsBare : (c d : RadixCache) (calls : List Call) → run (reset c) calls ≡ some d → IsBare d
run-IsBare c d calls ran = subst (IfAny IsBare) ran (
    run-IfAny IsBare (λ c call bare. Rests-IsBare c (step c call) bare (step-Rests c call))
      (reset c) calls (unfold reset in refl))

-- After `reset` and any matches and paired stores, and any locks and unlocks of nodes of the tree,
-- `total_size` returns a number, and it is the sum of `evictable_size` and `protected_size`.
pub total_size-run :
    (c d : RadixCache) (calls : List Call)
    → ArePaired calls
    → run (reset c) calls ≡ some d
    → (n : ℕ) × (total_size d ≡ some n) × (evictable_size d +ℤ protected_size d ≡ pos n)
unfolding evictable_size protected_size
total_size-run c d calls paired ran =
    let v = run-IsBalanced c d calls ran in
    let n = sum_children unlocked d.children + sum_children locked d.children in
    (
      n,
      total_size-sum d (run-IsExact 0 c d calls paired ran).shape
          ∙ ap some (omega (arith, ap length (run-IsBare c d calls ran))),
      omega (
        int_laws,
        ap pos_part v.free,
        ap neg_part v.free,
        ap pos_part v.taken,
        ap neg_part v.taken,
      ),
    )
