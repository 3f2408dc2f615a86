-- ===== src/Radix/Locks/Ends.antt =====
-- Where a sequence of tokens ends: the node whose last token is its last one. No call but an
-- eviction takes such a node from its place.
use sglang_mlx.Prelude.{
  ℕ, zero, suc, Bool, ◌<◌, true, false, Option, none, some, List, [], ◌∷◌, ◌==◌, ◌≡◌, refl, arith,
  ltb, length, take, drop, get_or, ℤ, Bool-cases, inl, inr, if◌then◌else◌, ltb→lt,
}
use sglang_mlx.Radix.Tree.{
  TreeNode, Tree, tree, Children, nil, child, Supply, key_match, split_node, upper_half, lower_half,
}
use sglang_mlx.Radix.Walk.{leads, raised, match_children, match_tree, insert_children, insert_tree}

-- What is left of a query behind a key.
unfoldable pub strip : List ℕ → List ℕ → Option (List ℕ)
strip [] q = some q
strip (a ∷ key) [] = none
strip (a ∷ key) (b ∷ q) = if a == b then strip key q else none

abbrev pub end_or : ℕ → (List ℕ → Option ℕ) → Option (List ℕ) → Option ℕ
end_or id below none = none
end_or id below (some []) = some id
end_or id below (some (b ∷ q)) = below (b ∷ q)

-- The id of the node where a query ends.
unfoldable mutual
  pub end_children : Children → List ℕ → Option ℕ
  end_children nil q = none
  end_children (child c t f) q = if leads c q then end_tree t q else end_children f q

  pub end_tree : Tree → List ℕ → Option ℕ
  end_tree (tree h f) q = end_or h.id (end_children f) (strip h.key q)

-- A walk keeps every end.
abbrev pub Stays : (List ℕ → Option ℕ) → (List ℕ → Option ℕ) → Type 0
Stays after before = (q : List ℕ) (i : ℕ) → before q ≡ some i → after q ≡ some i

pub end_or-Stays :
    (id : ℕ) (after before : List ℕ → Option ℕ) (r : Option (List ℕ)) (i : ℕ)
    → ((q : List ℕ) → before q ≡ some i → after q ≡ some i)
    → end_or id before r ≡ some i
    → end_or id after r ≡ some i
end_or-Stays id after before none i s e = e
end_or-Stays id after before (some []) i s e = e
end_or-Stays id after before (some (b ∷ q)) i s e = s (b ∷ q) e

-- Behind the upper half of a cut key comes the lower half.
strip_cut :
    (n : ℕ) (key q r : List ℕ)
    → n < length key
    → strip key q ≡ some r
    → (b : ℕ) × (mid : List ℕ) × (strip (take n key) q ≡ some (b ∷ mid))
      × (leads (get_or key n 0) (b ∷ mid) ≡ true)
      × (strip (drop n key) (b ∷ mid) ≡ some r)
unfolding strip
strip_cut n [] q r h e = absurd (omega (arith, h))
strip_cut zero (a ∷ key) [] r h e = absurd cc
strip_cut zero (a ∷ key) (b ∷ q) r h e = (b, q, refl, ground arith, e)
strip_cut (suc n) (a ∷ key) [] r h e = absurd cc
strip_cut (suc n) (a ∷ key) (b ∷ q) r h e = elim (Bool-cases (a == b)) [
  | inl k ↦
      let (x, mid, up, lead, low) = strip_cut n key q r (omega (arith, h)) (ground arith) in
      (x, mid, rw k up, lead, low)
  | inr k ↦ absurd (ground arith)
]

pub strip-some :
    (id : ℕ) (below : List ℕ → Option ℕ) (r : Option (List ℕ)) (i : ℕ)
    → end_or id below r ≡ some i
    → (rest : List ℕ) × (r ≡ some rest)
strip-some id below none i e = absurd cc
strip-some id below (some rest) i e = (rest, refl)

-- An end at a node or below it is still there when the node is cut in two.
end_cut :
    (id : ℕ) (h : TreeNode) (f more : Children) (n : ℕ) (q : List ℕ) (i : ℕ)
    → n < length h.key
    → end_tree (tree h f) q ≡ some i
    → end_or id
        (end_children (child (get_or h.key n 0) (tree (lower_half h n) f) more))
        (strip (take n h.key) q)
      ≡ some i
unfolding end_tree
end_cut id h f more n q i h' e =
    let (r, k) = strip-some h.id (end_children f) (strip h.key q) i e in
    let (b, mid, up, lead, low) = strip_cut n h.key q r h' k in rw (up, lead, low, ← k) e

pub if-Stays :
    (b : Bool) (x x' y y' : Option ℕ) (i : ℕ)
    → (x ≡ some i → x' ≡ some i)
    → (y ≡ some i → y' ≡ some i)
    → (if b then x else y) ≡ some i
    → (if b then x' else y') ≡ some i
if-Stays true x x' y y' i s u e = s e
if-Stays false x x' y y' i s u e = u e

-- A dictionary keeps the ends of its first entry and of the others.
pub child-Stays :
    (c : ℕ) (t t' : Tree) (f f' : Children)
    → Stays (end_tree t') (end_tree t)
    → Stays (end_children f') (end_children f)
    → Stays (end_children (child c t' f')) (end_children (child c t f))
unfolding end_children
child-Stays c t t' f f' s u q i = if-Stays (leads c q) _ _ _ _ i (s q i) (u q i)

pub tree-Stays :
    (h h' : TreeNode) (f f' : Children)
    → h'.key ≡ h.key
    → h'.id ≡ h.id
    → Stays (end_children f') (end_children f)
    → Stays (end_tree (tree h' f')) (end_tree (tree h f))
unfolding end_tree
tree-Stays h h' f f' same_key same_id s q i e =
    rw (same_key, same_id)
      (end_or-Stays h.id (end_children f') (end_children f) (strip h.key q) i (λ r. s r i) e)

pub Stays-refl : (x : List ℕ → Option ℕ) → Stays x x
Stays-refl x q i e = e

-- A split below which more children may follow.
split-Stays :
    (h upper : TreeNode) (now : ℕ) (f more : Children) (n : ℕ)
    → n < length h.key
    → upper.key ≡ take n h.key
    → Stays
        (end_tree (
          tree upper (
            child
              (get_or h.key n 0)
              (tree (lower_half (record h { last_access_time = now }) n) f)
              more)))
        (end_tree (tree h f))
unfolding end_tree
split-Stays h upper now f more n lt e q i k = rw e (end_cut upper.id h f more n q i lt k)

mutual
  unfolding match_tree split_node upper_half

  pub match_children-Stays :
      (node : ℕ) (f : Children) (key : List ℕ) (now : ℕ) (s : Supply)
      → Stays (end_children (match_children node f key now s).out) (end_children f)
  match_children-Stays node nil key now s = Stays-refl (end_children nil)
  match_children-Stays node (child c t f) key now s = elim (Bool-cases (leads c key)) [
    | inl hit ↦
        rw hit (child-Stays c t _ f f (match_tree-Stays t key now s) (Stays-refl (end_children f)))
    | inr miss ↦
        rw miss
          (child-Stays c t t f _ (Stays-refl (end_tree t)) (match_children-Stays node f key now s))
  ]

  pub match_tree-Stays :
      (t : Tree) (key : List ℕ) (now : ℕ) (s : Supply)
      → Stays (end_tree (match_tree t key now s).out) (end_tree t)
  match_tree-Stays (tree h f) key now s =
      let n = key_match h.key key in
      let h' = record h { last_access_time = now } in
      elim (Bool-cases (ltb n (length h.key))) [
        | inl part ↦ rw part (split-Stays h (upper_half s h' n) now f nil n (ltb→lt _ _ part) refl)
        | inr whole ↦
            rw whole
              (tree-Stays h h' f _ refl refl (match_children-Stays h.id f (drop n key) now s))
      ]

no_end : (q : List ℕ) (i : ℕ) → end_children nil q ≡ some i → ⊥
unfolding end_children
no_end q i e = absurd cc

mutual
  unfolding insert_tree upper_half

  pub insert_children-Stays :
      (node : TreeNode) (all f : Children) (key value : List ℕ) (p : ℤ) (now : ℕ) (s : Supply)
      (l : List ℕ)
      → Stays (end_children (insert_children node all f key value p now s l).out) (end_children f)
  insert_children-Stays node all nil key value p now s l = λ q i e. absurd (no_end q i e)
  insert_children-Stays node all (child c t f) key value p now s l =
      elim (Bool-cases (leads c key)) [
        | inl hit ↦ rw hit (
            child-Stays c t _ f f (insert_tree-Stays t key value p now s l)
              (Stays-refl (end_children f)))
        | inr miss ↦ rw miss (
            child-Stays c t t f _ (Stays-refl (end_tree t))
              (insert_children-Stays node all f key value p now s l))
      ]

  pub insert_tree-Stays :
      (t : Tree) (key value : List ℕ) (p : ℤ) (now : ℕ) (s : Supply) (l : List ℕ)
      → Stays (end_tree (insert_tree t key value p now s l).out) (end_tree t)
  insert_tree-Stays (tree h f) key value p now s l =
      let n = key_match h.key key in
      let h' = record h { last_access_time = now } in
      elim (Bool-cases (ltb n (length h.key))) [
        | inl part ↦
            rw part (split-Stays h (raised (upper_half s h' n) p) now f _ n (ltb→lt _ _ part) refl)
        | inr whole ↦ rw whole (
            tree-Stays h (raised h' p) f _ refl refl
              (insert_children-Stays (raised h' p) f f (drop n key) (drop n value) p now s l))
      ]
