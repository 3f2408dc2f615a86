-- ===== src/Radix/Extends.antt =====
-- Answers to a query and to a longer one.
use sglang_mlx.Prelude.{
  ℕ, ◌≤◌, List, [], ◌∷◌, ◌++◌, ◌==◌, refl, ap, arith, length, Bool-cases, inl, inr, length-append,
}
use sglang_mlx.Radix.Tree.{Tree, tree, Children, nil, child, slots}
use sglang_mlx.Radix.Walk.{leads}
use sglang_mlx.Radix.View.{along, cached_children, cached_tree}
use sglang_mlx.Radix.Evict.View.{IsPrefix}
use sglang_mlx.Radix.Refine.{cached_children-nil}

-- What answers a longer query with a longer answer.
abbrev pub Extends : (List ℕ → List ℕ) → Type 0
Extends f = (q more : List ℕ) → IsPrefix (f q) (f (q ++ more))

along-Extends :
    (key v : List ℕ) (below : List ℕ → List ℕ) → Extends below → Extends (along key v below)
unfolding along
along-Extends [] v below x q more = x q more
along-Extends (a ∷ key) v below x [] more = (_, refl)
along-Extends (a ∷ key) [] below x (b ∷ q) more = ([], refl)
along-Extends (a ∷ key) (y ∷ v) below x (b ∷ q) more = elim (Bool-cases (a == b)) [
  | inl e ↦ rw e (let (r, k) = along-Extends key v below x q more in (r, ap (◌∷◌ y) k))
  | inr e ↦ rw e ([], refl)
]

mutual
  unfolding cached_tree

  pub cached_children-Extends : (f : Children) → Extends (cached_children f)
  cached_children-Extends nil q more = ([], refl)
  cached_children-Extends (child c t f) [] more =
      rw (cached_children-nil (child c t f) [] refl) (_, refl)
  cached_children-Extends (child c t f) (b ∷ q) more = elim (Bool-cases (leads c (b ∷ q))) [
    | inl e ↦ rw e (cached_tree-Extends t (b ∷ q) more)
    | inr e ↦ rw e (cached_children-Extends f (b ∷ q) more)
  ]

  cached_tree-Extends : (t : Tree) → Extends (cached_tree t)
  cached_tree-Extends (tree h f) q more =
      along-Extends h.key (slots h.value) (cached_children f) (cached_children-Extends f) q more

-- A longer query has no shorter answer.
pub length-cached_children-append :
    (f : Children) (q more : List ℕ)
    → length (cached_children f q) ≤ length (cached_children f (q ++ more))
length-cached_children-append f q more =
    let (rest, e) = cached_children-Extends f q more in
    omega (arith, ap length e, length-append (cached_children f q) rest)
