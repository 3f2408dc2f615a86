-- ===== src/Radix/Locks/Whole.antt =====
-- A query that ends at a node is cached whole, and stays so while its node keeps its place.
use sglang_mlx.Prelude.{
  ℕ, ◌+◌, ◌≤◌, Option, none, some, List, [], ◌∷◌, ◌++◌, ◌==◌, ◌≡◌, refl, sym, ◌∙◌, ap, arith,
  length, Bool-cases, inl, inr, length-append, append-nil,
}
use sglang_mlx.Radix.Tree.{Tree, tree, Children, nil, child}
use sglang_mlx.Radix.Walk.{leads}
use sglang_mlx.Radix.View.{along, cached_children, cached_tree, WfChildren, WfTree}
use sglang_mlx.Radix.Evict.View.{IsPrefix}
use sglang_mlx.Radix.Locks.Ends.{strip, end_or, end_children, end_tree}

along-strip :
    (key v : List ℕ) (below : List ℕ → List ℕ) (q rest : List ℕ)
    → length v ≡ length key
    → strip key q ≡ some rest
    → (along key v below q ≡ v ++ below rest) × (length q ≡ length key + length rest)
unfolding along strip
along-strip [] [] below q rest p e = (ground arith, ground arith)
along-strip [] (x ∷ v) below q rest p e = absurd (omega (arith, p))
along-strip (a ∷ key) [] below q rest p e = absurd (omega (arith, p))
along-strip (a ∷ key) (x ∷ v) below [] rest p e = absurd cc
along-strip (a ∷ key) (x ∷ v) below (b ∷ q) rest p e = elim (Bool-cases (a == b)) [
  | inl k ↦
      let (l, n) = along-strip key v below q rest (omega (arith, p)) (ground arith) in
      (rw k (ap (◌∷◌ x) l), omega (arith, n))
  | inr k ↦ absurd (ground arith)
]

-- The query ends at the node itself or goes on below it.
end_or-whole :
    (id : ℕ) (key v : List ℕ) (f : Children) (q : List ℕ) (i : ℕ) (r : Option (List ℕ))
    → length v ≡ length key
    → strip key q ≡ r
    → ((b : ℕ) (p : List ℕ)
        → end_children f (b ∷ p) ≡ some i
        → length (cached_children f (b ∷ p)) ≡ length (b ∷ p))
    → length (cached_children f []) ≡ 0
    → end_or id (end_children f) r ≡ some i
    → length (along key v (cached_children f) q) ≡ length q
end_or-whole id key v f q i none p k below none_left e = absurd cc
end_or-whole id key v f q i (some []) p k below none_left e =
    let (l, n) = along-strip key v (cached_children f) q [] p k in
    omega (arith, ap length l, length-append v (cached_children f []), n, p, none_left)
end_or-whole id key v f q i (some (b ∷ rest)) p k below none_left e =
    let (l, n) = along-strip key v (cached_children f) q (b ∷ rest) p k in
    omega (arith, ap length l, length-append v (cached_children f (b ∷ rest)), n, p, below b rest e)

pub cached-nil : (f : Children) → length (cached_children f []) ≡ 0
unfolding cached_children
cached-nil nil = refl
cached-nil (child c t f) = cached-nil f

mutual
  unfolding end_children cached_children

  pub end-whole :
      (f : Children) (q : List ℕ) (i : ℕ)
      → WfChildren f
      → end_children f q ≡ some i
      → length (cached_children f q) ≡ length q
  end-whole nil q i w e = absurd cc
  end-whole (child c t f) q i w e = elim (Bool-cases (leads c q)) [
    | inl on ↦ rw on (end-whole_tree c t q i w.0 (ground arith))
    | inr off ↦ rw off (end-whole f q i w.2 (ground arith))
  ]

  end-whole_tree :
      (c : ℕ) (t : Tree) (q : List ℕ) (i : ℕ)
      → WfTree c t
      → end_tree t q ≡ some i
      → length (cached_tree t q) ≡ length q
  end-whole_tree c (tree h f) q i w e = rw w.0.held (
      end_or-whole h.id h.key w.0.indices f q i (strip h.key q) w.0.paired refl
        (λ b p k. end-whole f (b ∷ p) i w.1 k) (cached-nil f) e)

-- A list that got no shorter than the one that it begins is that one.
pub IsPrefix-same : (a b : List ℕ) → IsPrefix a b → length b ≤ length a → a ≡ b
IsPrefix-same a b ([], e) le = sym (append-nil a) ∙ e
IsPrefix-same a b (x ∷ rest, e) le =
    absurd (omega (arith, ap length e, length-append a (x ∷ rest), le))
