-- ===== src/Radix/LeavesMatch.antt =====
-- A match changes no leaf, so the set of evictable leaves stays exact; a split takes a fresh id.
use mathlib.Core.Option
use sglang_mlx.Prelude.{
  ℕ, ◌+◌, ◌≤◌, Bool, true, false, ◌&&◌, some, List, ◌≡◌, refl, sym, ◌∙◌, ap, arith, ltb, leb,
  length, Bool-cases, inl, inr, if◌then◌else◌, drop, get_or,
}
use sglang_mlx.Radix.Tree.{
  TreeNode, Tree, tree, Children, nil, child, Supply, has_live_child, is_evictable_leaf, upper_half,
  lower_half, split_node, key_match,
}
use sglang_mlx.Radix.Walk.{leads, match_children, match_tree}
use sglang_mlx.Radix.View.{WfChildren, WfTree}
use sglang_mlx.Radix.MatchWf.{match_children-Wf}
use sglang_mlx.Radix.Weights.{sum_tree}
use sglang_mlx.Radix.Leaves.{is_id, ids, own, leaves_children, leaves_tree}

-- Whether a dictionary has an entry. In a well-formed tree each child is live.
abbrev pub occupied : Children → Bool
occupied nil = false
occupied (child c t f) = true

pub has_live_child-occupied : (f : Children) → WfChildren f → has_live_child f ≡ occupied f
unfolding has_live_child
has_live_child-occupied nil w = refl
has_live_child-occupied (child c (tree h g) f) w = rw w.0.0.held

occupied-match :
    (node : ℕ) (f : Children) (key : List ℕ) (now : ℕ) (s : Supply)
    → occupied (match_children node f key now s).out ≡ occupied f
unfolding match_children
occupied-match node nil key now s = refl
occupied-match node (child c t f) key now s = ground arith

-- The status of a node goes by its value, its lock and whether it has a live child.
pub own-same :
    (i : ℕ) (h h' : TreeNode) (f f' : Children)
    → h'.id ≡ h.id
    → h'.lock_ref ≡ h.lock_ref
    → h'.value ≡ h.value
    → has_live_child f' ≡ has_live_child f
    → own i h' f' ≡ own i h f
unfolding own is_evictable_leaf is_id
own-same i h h' f f' same_id same_lock same_value same_live = ground arith

-- A lower half has the status of the node that was cut.
pub own-lower :
    (i : ℕ) (h : TreeNode) (f : Children) (n : ℕ) (v : List ℕ)
    → h.value ≡ some v
    → own i (lower_half h n) f ≡ own i h f
unfolding own is_evictable_leaf is_id
own-lower i h f n v e = rw e

-- A node above a live one is no leaf.
pub own-above :
    (i d : ℕ) (h k : TreeNode) (g f : Children) (v : List ℕ)
    → k.value ≡ some v
    → own i h (child d (tree k g) f) ≡ 0
unfolding own is_evictable_leaf has_live_child
own-above i d h k g f v e = rw e (ground arith)

-- The ids from `a` up to `b`, once each.
abbrev pub within : ℕ → ℕ → ℕ → ℕ
within a b i = if leb a i && ltb i b then 1 else 0

mutual
  unfolding match_tree split_node upper_half leaves_tree sum_tree is_id

  pub ids-match_children :
      (i node : ℕ) (f : Children) (key : List ℕ) (now : ℕ) (s : Supply)
      → let r = match_children node f key now s in
        (ids i r.out ≡ ids i f + within s.counter r.supply.counter i)
        × (s.counter ≤ r.supply.counter)
  ids-match_children i node nil key now s = ground arith
  ids-match_children i node (child c t f) key now s = elim (Bool-cases (leads c key)) [
    | inl hit ↦ rw hit (omega (arith, ids-match_tree i t key now s))
    | inr miss ↦ rw miss (omega (arith, ids-match_children i node f key now s))
  ]

  pub ids-match_tree :
      (i : ℕ) (t : Tree) (key : List ℕ) (now : ℕ) (s : Supply)
      → let r = match_tree t key now s in
        (sum_tree (is_id i) r.out ≡ sum_tree (is_id i) t + within s.counter r.supply.counter i)
        × (s.counter ≤ r.supply.counter)
  ids-match_tree i (tree h f) key now s =
      let n = key_match h.key key in
      elim (Bool-cases (ltb n (length h.key))) [
        | inl part ↦ rw part (ground arith)
        | inr whole ↦ rw whole (omega (arith, ids-match_children i h.id f (drop n key) now s))
      ]

mutual
  unfolding match_tree split_node upper_half leaves_tree

  pub leaves-match_children :
      (i node : ℕ) (f : Children) (key : List ℕ) (now : ℕ) (s : Supply)
      → WfChildren f
      → leaves_children i (match_children node f key now s).out ≡ leaves_children i f
  leaves-match_children i node nil key now s w = refl
  leaves-match_children i node (child c t f) key now s w = elim (Bool-cases (leads c key)) [
    | inl hit ↦ rw hit (omega (arith, leaves-match_tree i c t key now s w.0))
    | inr miss ↦ rw miss (omega (arith, leaves-match_children i node f key now s w.2))
  ]

  pub leaves-match_tree :
      (i c : ℕ) (t : Tree) (key : List ℕ) (now : ℕ) (s : Supply)
      → WfTree c t
      → leaves_tree i (match_tree t key now s).out ≡ leaves_tree i t
  leaves-match_tree i c (tree h f) key now s w =
      let n = key_match h.key key in
      let h' = record h { last_access_time = now } in
      elim (Bool-cases (ltb n (length h.key))) [
        | inl part ↦ rw part (
            omega (
              arith,
              own-above i (get_or h.key n 0) (upper_half s h' n) (lower_half h' n) f nil _
                  (ap (Option.map (drop n)) w.0.held),
              own-lower i h' f n w.0.indices w.0.held,
              own-same i h h' f f refl refl refl refl,
            ))
        | inr whole ↦
            let rest = match_children h.id f (drop n key) now s in
            let live =
              has_live_child-occupied rest.out (match_children-Wf h.id f (drop n key) now s w.1)
              ∙ occupied-match h.id f (drop n key) now s
              ∙ sym (has_live_child-occupied f w.1) in
            rw whole (
              omega (
                arith,
                own-same i h h' f rest.out refl refl refl live,
                leaves-match_children i h.id f (drop n key) now s w.1,
              ))
      ]
