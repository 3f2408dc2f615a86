-- ===== src/Radix/Print.antt =====
-- `pretty_print` and `_print_helper`: a line for each node, by the stack of the loop.
use mathlib.Core.Option
use sglang_mlx.Prelude.{
  ℕ, zero, suc, ◌+◌, ◌≤◌, Option, none, some, List, [], ◌∷◌, ◌≡◌, refl, ◌∙◌, ap, arith, length,
  take, ℤ,
}
use sglang_mlx.Radix.Tree.{TreeNode, Tree, tree, Children, nil, child}
use sglang_mlx.Radix.Weights.{sum_children, sum_tree}
use sglang_mlx.Radix.Cache.{RadixCache, nodes_children, nodes_tree, total_size}
use sglang_mlx.Radix.Refine.{IsWellFormed}
use sglang_mlx.Radix.TotalSize.{total_size-sum}

-- What a line says of a node.
pub record Shown : Type 0 where
  pub key_length : ℕ
  pub first_tokens : List ℕ
  pub lock_ref : ℤ

pub record Line : Type 0 where
  pub indent : ℕ
  pub shown : Shown

unfoldable pub show : TreeNode → Shown
show h = record { key_length = length h.key; first_tokens = take 10 h.key; lock_ref = h.lock_ref }

-- The children are pushed one by one.
unfoldable pub push_indented : Children → ℕ → List (Tree × ℕ) → List (Tree × ℕ)
push_indented nil indent stack = stack
push_indented (child c t f) indent stack = push_indented f indent ((t, indent) ∷ stack)

-- The loop of `_print_helper`.
unfoldable pub print_loop : ℕ → List (Tree × ℕ) → Option (List Line)
unfolding show push_indented
print_loop fuel [] = some []
print_loop zero (x ∷ stack) = none
print_loop (suc fuel) ((tree h f, indent) ∷ stack) =
    Option.map (◌∷◌ (record { indent = indent; shown = show h }))
      (print_loop fuel (push_indented f (indent + 2) stack))

abbrev total_line : List Line → Option ℕ → Option (List Line × ℕ)
total_line lines none = none
total_line lines (some n) = some (lines, n)

abbrev printed : Option (List Line) → Option ℕ → Option (List Line × ℕ)
printed none n = none
printed (some lines) n = total_line lines n

-- `pretty_print`: the lines of the nodes, and the number of the last line.
unfoldable pub pretty_print : RadixCache → Option (List Line × ℕ)
unfolding print_loop nodes_tree total_size
pretty_print c =
    let t = tree c.root c.children in
    printed (print_loop (nodes_tree t) ((t, 0) ∷ [])) (total_size c)

-- What the lines weigh, and the nodes on the stack.
pub sum_lines : (Shown → ℕ) → List Line → ℕ
sum_lines w [] = 0
sum_lines w (x ∷ lines) = w x.shown + sum_lines w lines

nodes_stack : List (Tree × ℕ) → ℕ
nodes_stack [] = 0
nodes_stack ((t, indent) ∷ stack) = nodes_tree t + nodes_stack stack

sum_stack : (Shown → ℕ) → List (Tree × ℕ) → ℕ
sum_stack w [] = 0
sum_stack w ((t, indent) ∷ stack) = sum_tree (λ h. w (show h)) t + sum_stack w stack

push_indented-sums :
    (w : Shown → ℕ) (f : Children) (indent : ℕ) (stack : List (Tree × ℕ))
    → let s = push_indented f indent stack in
      (nodes_stack s ≡ nodes_children f + nodes_stack stack)
      × (sum_stack w s ≡ sum_children (λ h. w (show h)) f + sum_stack w stack)
unfolding push_indented nodes_stack sum_stack nodes_children sum_children
push_indented-sums w nil indent stack = (omega arith, omega arith)
push_indented-sums w (child c t f) indent stack =
    let ih = push_indented-sums w f indent ((t, indent) ∷ stack) in
    (omega (arith, ih.0), omega (arith, ih.1))

-- Fuel for each node on the stack is enough.
print_loop-sums :
    (w : Shown → ℕ) (fuel : ℕ) (stack : List (Tree × ℕ))
    → nodes_stack stack ≤ fuel
    → (lines : List Line) × (print_loop fuel stack ≡ some lines)
      × (sum_lines w lines ≡ sum_stack w stack)
unfolding print_loop nodes_stack sum_stack nodes_tree sum_tree sum_lines
print_loop-sums w fuel [] h = ([], refl, refl)
print_loop-sums w zero ((tree x f, indent) ∷ stack) h = absurd (omega (arith, h))
print_loop-sums w (suc fuel) ((tree x f, indent) ∷ stack) h =
    let p = push_indented-sums w f (indent + 2) stack in
    let (lines, e, sum) =
      print_loop-sums w fuel (push_indented f (indent + 2) stack) (omega (arith, h, p.0)) in
    (
      record { indent = indent; shown = show x } ∷ lines,
      ap (Option.map (◌∷◌ (record { indent = indent; shown = show x }))) e,
      omega (arith, sum, p.1),
    )

-- On a well-formed cache, `pretty_print` prints one line for each node, the root included, and ends
-- with the number that `total_size` returns: whatever is counted of what the lines show adds up to
-- the same over the lines and over the nodes.
pub pretty_print-nodes :
    (c : RadixCache) (w : Shown → ℕ)
    → IsWellFormed c
    → (lines : List Line) × (n : ℕ) × (pretty_print c ≡ some (lines, n))
      × (total_size c ≡ some n)
      × (sum_lines w lines ≡ w (show c.root) + sum_children (λ h. w (show h)) c.children)
unfolding pretty_print nodes_stack sum_stack sum_tree
pretty_print-nodes c w shape =
    let t = tree c.root c.children in
    let (lines, e, sum) = print_loop-sums w (nodes_tree t) ((t, 0) ∷ []) (omega arith) in
    let total = total_size-sum c shape in
    (
      lines,
      _,
      ap (λ o. printed o (total_size c)) e ∙ ap (total_line lines) total,
      total,
      omega (arith, sum),
    )
