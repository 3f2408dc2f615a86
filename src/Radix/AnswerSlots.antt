-- ===== src/Radix/AnswerSlots.antt =====
-- The slots of an answer stand in the tree, each as often at least.
use sglang_mlx.Prelude.{ℕ, ◌+◌, ◌≤◌, List, [], ◌∷◌, ◌==◌, arith, count, Bool-cases, inl, inr}
use sglang_mlx.Radix.Tree.{Tree, tree, Children, nil, child, slots}
use sglang_mlx.Radix.Walk.{leads}
use sglang_mlx.Radix.View.{along, cached_children, cached_tree}
use sglang_mlx.Radix.Weights.{sum_children, sum_tree}
use sglang_mlx.Radix.Measures.{holds}

count-along :
    (i bound : ℕ) (key v : List ℕ) (below : List ℕ → List ℕ) (q : List ℕ)
    → ((p : List ℕ) → count i (below p) ≤ bound)
    → count i (along key v below q) ≤ count i v + bound
unfolding along count
count-along i bound [] v below q h = omega (arith, h q)
count-along i bound (a ∷ key) v below [] h = omega arith
count-along i bound (a ∷ key) [] below (b ∷ q) h = omega arith
count-along i bound (a ∷ key) (x ∷ v) below (b ∷ q) h = elim (Bool-cases (a == b)) [
  | inl e ↦ rw e (omega (arith, count-along i bound key v below q h))
  | inr e ↦ rw e (omega arith)
]

mutual
  unfolding cached_tree sum_tree holds count

  pub count-cached_children :
      (i : ℕ) (f : Children) (q : List ℕ) → count i (cached_children f q) ≤ sum_children (holds i) f
  count-cached_children i nil q = omega arith
  count-cached_children i (child c t f) q = elim (Bool-cases (leads c q)) [
    | inl e ↦ rw e (omega (arith, count-cached_tree i t q))
    | inr e ↦ rw e (omega (arith, count-cached_children i f q))
  ]

  count-cached_tree :
      (i : ℕ) (t : Tree) (q : List ℕ) → count i (cached_tree t q) ≤ sum_tree (holds i) t
  count-cached_tree i (tree h f) q =
      count-along i (sum_children (holds i) f) h.key (slots h.value) (cached_children f) q
        (λ p. count-cached_children i f p)
