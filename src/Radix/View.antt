-- ===== src/Radix/View.antt =====
-- The abstract view of the tree: for a sequence of tokens, the slots of its longest cached prefix.
-- It is what a match answers, with no node, split or clock in sight.
use sglang_mlx.Prelude.{ℕ, Bool, true, false, some, List, [], ◌∷◌, ◌==◌, ◌≡◌, if◌then◌else◌, length}
use sglang_mlx.Radix.Tree.{TreeNode, Tree, tree, Children, nil, child, slots}
use sglang_mlx.Radix.Walk.{leads}

-- Along one node: its slots as long as its tokens are those of the query, and behind the whole
-- node what `below` answers.
unfoldable pub along : List ℕ → List ℕ → (List ℕ → List ℕ) → List ℕ → List ℕ
along [] v below q = below q
along (a ∷ key) v below [] = []
along (a ∷ key) [] below (b ∷ q) = []
along (a ∷ key) (x ∷ v) below (b ∷ q) = if a == b then x ∷ along key v below q else []

unfoldable mutual
  pub cached_children : Children → List ℕ → List ℕ
  cached_children nil q = []
  cached_children (child c t f) q = if leads c q then cached_tree t q else cached_children f q

  pub cached_tree : Tree → List ℕ → List ℕ
  cached_tree (tree h f) q = along h.key (slots h.value) (cached_children f) q

-- The answer to a query `q` after `key` was stored with `value`, from the answer before: along
-- the tokens that both share, old slots stay and missing ones are those of `value`.
unfoldable pub overlay : List ℕ → List ℕ → List ℕ → List ℕ → List ℕ
overlay [] value old q = old
overlay (a ∷ key) value old [] = old
overlay (a ∷ key) [] old (b ∷ q) = old
overlay (a ∷ key) (x ∷ value) [] (b ∷ q) = if a == b then x ∷ overlay key value [] q else []
overlay (a ∷ key) (x ∷ value) (y ∷ old) (b ∷ q) =
    y ∷ (if a == b then overlay key value old q else old)

-- A node of a well-formed tree holds tokens, the first of which is its key in the dictionary of
-- its parent, and one slot for each of them.
pub record IsFilled (c : ℕ) (h : TreeNode) : Type 0 where
  pub first : leads c h.key ≡ true
  pub indices : List ℕ
  pub held : h.value ≡ some indices
  pub paired : length indices ≡ length h.key

unfoldable pub has_child : ℕ → Children → Bool
has_child c nil = false
has_child c (child d t f) = if c == d then true else has_child c f

-- Every node below is filled, and a dictionary holds a key once.
abbrev mutual
  pub WfChildren : Children → Type 0
  WfChildren nil = Unit
  WfChildren (child c t f) = WfTree c t × (has_child c f ≡ false) × WfChildren f

  pub WfTree : ℕ → Tree → Type 0
  WfTree c (tree h f) = IsFilled c h × WfChildren f
