-- ===== src/Radix/Evict/View.antt =====
-- Answers that get shorter: a tree without one of its leaves answers with prefixes.
use sglang_mlx.Prelude.{
  ℕ, true, false, List, [], ◌∷◌, ◌++◌, ◌≡◌, refl, sym, ◌∙◌, ap, arith, ◌==◌, Bool-cases, inl, inr,
  append-nil, append_assoc,
}
use sglang_mlx.Radix.Tree.{TreeNode, Tree, tree, Children, nil, child, slots}
use sglang_mlx.Radix.Walk.{leads}
use sglang_mlx.Radix.View.{along, cached_children, cached_tree, has_child}

abbrev pub IsPrefix : List ℕ → List ℕ → Type 0
IsPrefix a b = (rest : List ℕ) × (a ++ rest ≡ b)

-- A tree that answers every query with a prefix of the other's answer.
abbrev pub Shrinks : (List ℕ → List ℕ) → (List ℕ → List ℕ) → Type 0
Shrinks after before = (q : List ℕ) → IsPrefix (after q) (before q)

pub IsPrefix-refl : (a : List ℕ) → IsPrefix a a
IsPrefix-refl a = ([], append-nil a)

pub IsPrefix-trans : (a b c : List ℕ) → IsPrefix a b → IsPrefix b c → IsPrefix a c
IsPrefix-trans a b c (r, e) (s, k) = (r ++ s, sym (append_assoc a r s) ∙ ap (λ l. l ++ s) e ∙ k)

pub cached-absent :
    (c : ℕ) (f : Children) (q : List ℕ)
    → has_child c f ≡ false
    → leads c q ≡ true
    → cached_children f q ≡ []
unfolding cached_children has_child
cached-absent c nil q h e = refl
cached-absent c (child d t f) [] h e = cc
cached-absent c (child d t f) (b ∷ q) h e = ground (arith, cached-absent c f (b ∷ q))

along-Shrinks :
    (key v : List ℕ) (after before : List ℕ → List ℕ)
    → Shrinks after before
    → Shrinks (along key v after) (along key v before)
unfolding along
along-Shrinks [] v after before s q = s q
along-Shrinks (a ∷ key) v after before s [] = ([], refl)
along-Shrinks (a ∷ key) [] after before s (b ∷ q) = ([], refl)
along-Shrinks (a ∷ key) (x ∷ v) after before s (b ∷ q) = elim (Bool-cases (a == b)) [
  | inl e ↦ rw e (let (r, k) = along-Shrinks key v after before s q in (r, ap (◌∷◌ x) k))
  | inr e ↦ rw e ([], refl)
]

-- An entry goes, and the others answer nothing in its place.
pub removed-Shrinks :
    (c : ℕ) (t : Tree) (f : Children)
    → has_child c f ≡ false
    → Shrinks (cached_children f) (cached_children (child c t f))
unfolding cached_children
removed-Shrinks c t f h q = elim (Bool-cases (leads c q)) [
  | inl e ↦ rw (e, cached-absent c f q h e) (cached_tree t q, refl)
  | inr e ↦ rw e (IsPrefix-refl (cached_children f q))
]

pub below-Shrinks :
    (c : ℕ) (h : TreeNode) (g g' f : Children)
    → Shrinks (cached_children g') (cached_children g)
    → Shrinks (cached_children (child c (tree h g') f)) (cached_children (child c (tree h g) f))
unfolding cached_children
below-Shrinks c h g g' f s q = elim (Bool-cases (leads c q)) [
  | inl e ↦ rw e (along-Shrinks h.key (slots h.value) (cached_children g') (cached_children g) s q)
  | inr e ↦ rw e (IsPrefix-refl (cached_children f q))
]

pub later-Shrinks :
    (c : ℕ) (t : Tree) (f f' : Children)
    → Shrinks (cached_children f') (cached_children f)
    → Shrinks (cached_children (child c t f')) (cached_children (child c t f))
unfolding cached_children
later-Shrinks c t f f' s q = elim (Bool-cases (leads c q)) [
  | inl e ↦ rw e (IsPrefix-refl (cached_tree t q))
  | inr e ↦ rw e (s q)
]
