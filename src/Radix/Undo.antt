-- ===== src/Radix/Undo.antt =====
-- Releasing a lock undoes taking it.
use sglang_mlx.Prelude.{
  ℕ, true, false, none, some, ◌≡◌, refl, sym, ◌∙◌, ap, ℤ, pos, ◌+ℤ◌, +ℤ_cancel, arith, int_laws,
  Bool-cases, Option-cases, inl, inr, ◌==◌, ◌||◌, pos_part, neg_part,
}
use sglang_mlx.Radix.Tree.{TreeNode, Tree, tree, Children, nil, child}
use sglang_mlx.Radix.Lock.{Body, Books, climb_tree, climb_children, inc_node, dec_node}
use sglang_mlx.Radix.Cache.{RadixCache, climb, inc_lock_ref, dec_lock_ref, books, placed}
use sglang_mlx.Radix.Weights.{sum_children}
use sglang_mlx.Radix.Measures.{unlocked, locked}
use sglang_mlx.Radix.Balance.{IsBalanced, climb-IsBalanced}
use sglang_mlx.Radix.Tracks.{inc_node-IsTracking, dec_node-IsTracking}

-- Whether a climb finds its node depends on the tree alone.
mutual
  unfolding climb_tree

  climb_children-none :
      (body body' : Body) (i : ℕ) (f : Children) (b b' : Books)
      → climb_children body i f b ≡ none
      → climb_children body' i f b' ≡ none
  climb_children-none body body' i nil b b' e = refl
  climb_children-none body body' i (child c t f) b b' e =
      ground (arith, climb_tree-none body body' i t b b', climb_children-none body body' i f b b')

  climb_tree-none :
      (body body' : Body) (i : ℕ) (t : Tree) (b b' : Books)
      → climb_tree body i t b ≡ none
      → climb_tree body' i t b' ≡ none
  climb_tree-none body body' i (tree h f) b b' e =
      ground (arith, climb_children-none body body' i f b b')

-- The second body takes back what the first did to a node, whatever the books.
pub record Undoes (body body' : Body) : Type 0 where
  pub same_id : (h : TreeNode) (f : Children) (b : Books) → (body h f b).0.id ≡ h.id
  pub back : (h : TreeNode) (f g : Children) (b b' : Books) → (body' (body h f b).0 g b').0 ≡ h

pub dec-Undoes-inc : Undoes inc_node dec_node
unfolding inc_node dec_node
dec-Undoes-inc = record {
  same_id = λ h f b. refl;
  back = λ h f g b b'. ap (λ z. record h { lock_ref = z }) (+ℤ_cancel h.lock_ref (pos 1));
}

climb-here :
    (body' : Body) (i : ℕ) (k h : TreeNode) (f : Children) (b : Books)
    → (k.id == i) ≡ true
    → (body' k f b).0 ≡ h
    → climb_tree body' i (tree k f) b ≡ some (tree h f, (body' k f b).1)
unfolding climb_tree
climb-here body' i k h f b here back = rw here (ap (λ z. some (tree z f, (body' k f b).1)) back)

climb-above :
    (body' : Body) (i : ℕ) (k h : TreeNode) (g f : Children) (b b' : Books)
    → (k.id == i) ≡ false
    → climb_children body' i g b ≡ some (f, b')
    → (body' k f b').0 ≡ h
    → climb_tree body' i (tree k g) b ≡ some (tree h f, (body' k f b').1)
unfolding climb_tree
climb-above body' i k h g f b b' deeper found back =
    rw (deeper, found) (ap (λ z. some (tree z f, (body' k f b').1)) back)

module _ (body body' : Body) (u : Undoes body body') where
  mutual
    unfolding climb_tree

    climb_children-undo :
        (i : ℕ) (f : Children) (b : Books) (f' : Children) (b' b₁ : Books)
        → climb_children body i f b ≡ some (f', b')
        → (b₂ : Books) × (climb_children body' i f' b₁ ≡ some (f, b₂))
    climb_children-undo i nil b f' b' b₁ e = cc
    climb_children-undo i (child c t f) b f' b' b₁ e = elim (Option-cases (climb_tree body i t b)) [
      | inl missing ↦ elim (Option-cases (climb_children body i f b)) [
        | inl lost ↦ absurd (ground arith)
        | inr ((f₁, b₃), found) ↦
            let (b₂, ih) = climb_children-undo i f b f₁ b₃ b₁ found in
            let away = climb_tree-none body body' i t b b₁ missing in
            let eq : f' ≡ child c t f₁ = ground arith in (b₂, rw (eq, away, ih))
      ]
      | inr ((t₁, b₃), found) ↦
          let (b₂, ih) = climb_tree-undo i t b t₁ b₃ b₁ found in
          let eq : f' ≡ child c t₁ f = ground arith in (b₂, rw (eq, ih))
    ]

    climb_tree-undo :
        (i : ℕ) (t : Tree) (b : Books) (t' : Tree) (b' b₁ : Books)
        → climb_tree body i t b ≡ some (t', b')
        → (b₂ : Books) × (climb_tree body' i t' b₁ ≡ some (t, b₂))
    climb_tree-undo i (tree h f) b t' b' b₁ e = elim (Bool-cases (h.id == i)) [
      | inl here ↦
          let eq : t' ≡ tree (body h f b).0 f = ground arith in
          (
            (body' (body h f b).0 f b₁).1,
            rw eq (
                climb-here body' i (body h f b).0 h f b₁ (ap (λ n. n == i) (u.same_id h f b) ∙ here)
                  (u.back h f f b b₁)),
          )
      | inr deeper ↦ elim (Option-cases (climb_children body i f b)) [
        | inl lost ↦ absurd (ground arith)
        | inr ((f₁, b₃), found) ↦
            let (b₂, ih) = climb_children-undo i f b f₁ b₃ b₁ found in
            let eq : t' ≡ tree (body h f₁ b₃).0 f₁ = ground arith in
            (
              (body' (body h f₁ b₃).0 f b₂).1,
              rw eq (
                  climb-above body' i (body h f₁ b₃).0 h f₁ f b₁ b₂
                    (ap (λ n. n == i) (u.same_id h f₁ b₃) ∙ deeper) ih (u.back h f₁ f b₃ b₂)),
            )
      ]
    ]

-- Balanced books of one tree are the same.
IsBalanced-sizes :
    (c e : RadixCache)
    → e.children ≡ c.children
    → IsBalanced c
    → IsBalanced e
    → (e.evictable_size_ ≡ c.evictable_size_) × (e.protected_size_ ≡ c.protected_size_)
IsBalanced-sizes c e same v w = (
  w.free ∙ ap (λ f. pos (sum_children unlocked f)) same ∙ sym v.free,
  w.taken ∙ ap (λ f. pos (sum_children locked f)) same ∙ sym v.taken,
)

-- The tree after a release of what was taken.
climb-undo :
    (body body' : Body) (c d : RadixCache) (node : ℕ) (delta : ℤ)
    → Undoes body body'
    → climb body c node ≡ some (delta, d)
    → (e : RadixCache) × (back : ℤ) × (climb body' d node ≡ some (back, e))
      × (e.children ≡ c.children)
unfolding climb
climb-undo body body' c d node delta u taken = elim (Bool-cases (c.disable || c.root.id == node)) [
  | inl skip ↦ let eq : d ≡ c = ground arith in (c, pos 0, rw (eq, skip), refl)
  | inr run ↦ elim (Option-cases (climb_children body node c.children (books c))) [
    | inl lost ↦ absurd (ground arith)
    | inr ((f, b), found) ↦
        let eq : d ≡ placed c f b = ground arith in
        let (b₂, back) =
          climb_children-undo body body' u node c.children (books c) f b (books (placed c f b))
            found in
        (placed (placed c f b) c.children b₂, b₂.delta, rw (eq, run, back), refl)
  ]
]

-- A lock that is taken and released again: the release succeeds, the nodes below the root are as
-- before with all their fields, both sizes are as before on balanced books, and the two results
-- cancel.
pub dec-inc_lock_ref :
    (c d : RadixCache) (node : ℕ) (delta : ℤ)
    → IsBalanced c
    → inc_lock_ref c node ≡ some (delta, d)
    → (e : RadixCache) × (back : ℤ) × (dec_lock_ref d node ≡ some (back, e))
      × (e.children ≡ c.children)
      × (e.evictable_size_ ≡ c.evictable_size_)
      × (e.protected_size_ ≡ c.protected_size_)
      × (delta +ℤ back ≡ pos 0)
unfolding inc_lock_ref dec_lock_ref
dec-inc_lock_ref c d node delta v taken =
    let (e, back, released, same) =
      climb-undo inc_node dec_node c d node delta dec-Undoes-inc taken in
    let first = climb-IsBalanced inc_node c d node delta inc_node-IsTracking taken v in
    let second = climb-IsBalanced dec_node d e node back dec_node-IsTracking released first.0 in
    let sizes = IsBalanced-sizes c e same v second.0 in
    (
      e,
      back,
      released,
      same,
      sizes.0,
      sizes.1,
      omega (
        int_laws,
        ap pos_part first.1,
        ap neg_part first.1,
        ap pos_part second.1,
        ap neg_part second.1,
        ap pos_part sizes.0,
        ap neg_part sizes.0,
      ),
    )
