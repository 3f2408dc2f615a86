-- ===== src/Radix/LeavesLock.antt =====
-- Locks keep the set of evictable leaves exact: each node on the way is settled.
use sglang_mlx.Prelude.{
  ℕ, ◌+◌, ◌≤◌, some, List, ◌≡◌, refl, ◌∙◌, ap, count, arith, ◌==◌, if◌then◌else◌,
}
use sglang_mlx.Radix.Tree.{TreeNode, Children, update_leaf_status}
use sglang_mlx.Radix.Weights.{sum_children, sum_tree}
use sglang_mlx.Radix.Lock.{Body, Books, climb_children, climb_induction, inc_node, dec_node}
use sglang_mlx.Radix.Leaves.{
  is_id, ids, own, leaves_children, leaves_tree, leaves_children-le, leaves_tree-le, own-le, settle,
}

-- A body that keeps the id and settles the status of its node.
pub record Settles (body : Body) : Type 0 where
  pub same_id : (h : TreeNode) (f : Children) (b : Books) → (body h f b).0.id ≡ h.id
  pub status :
      (h : TreeNode) (f : Children) (b : Books)
      → (body h f b).1.evictable_leaves ≡ update_leaf_status (body h f b).0 f b.evictable_leaves

pub inc_node-Settles : Settles inc_node
unfolding inc_node
inc_node-Settles = record { same_id = λ h f b. refl; status = λ h f b. refl }

pub dec_node-Settles : Settles dec_node
unfolding dec_node
dec_node-Settles = record { same_id = λ h f b. refl; status = λ h f b. refl }

-- The set `l` counts the leaves here, with `outside` of them elsewhere; ids are unique.
pub record Exact (l : List ℕ) (i outside others here ids_here : ℕ) : Type 0 where
  pub counts : count i l ≡ outside + here
  pub apart : outside ≤ others
  pub one : others + ids_here ≤ 1

-- What a part of the tree keeps: its ids, and an exact set.
abbrev pub KeepsExact : ℕ → List ℕ → List ℕ → ℕ → ℕ → ℕ → ℕ → Type 0
KeepsExact i l l' here here' ids_here ids_here' =
    (ids_here' ≡ ids_here)
    × ((outside others : ℕ) → Exact l i outside others here ids_here → count i l' ≡ outside + here')

pub is_id-same : (i : ℕ) (h h' : TreeNode) → h'.id ≡ h.id → is_id i h' ≡ is_id i h
unfolding is_id
is_id-same i h h' e = ap (λ n. if i == n then 1 else 0) e

module _ (body : Body) (s : Settles body) where
  settle-body :
      (i : ℕ) (h : TreeNode) (f : Children) (b : Books) (before outside others : ℕ)
      → count i b.evictable_leaves ≡ outside + before + leaves_children i f
      → before ≤ is_id i h
      → outside ≤ others
      → others + is_id i h + ids i f ≤ 1
      → count i (body h f b).1.evictable_leaves
        ≡ outside + own i (body h f b).0 f + leaves_children i f
  settle-body i h f b before outside others e p o one =
      ap (count i) (s.status h f b)
      ∙ settle i h (body h f b).0 f b.evictable_leaves before outside others (leaves_children i f)
          (ids i f) (s.same_id h f b) e p o (leaves_children-le i f) one

  pub climb-KeepsExact :
      (i node : ℕ) (f : Children) (b : Books) (f' : Children) (b' : Books)
      → climb_children body node f b ≡ some (f', b')
      → KeepsExact i b.evictable_leaves b'.evictable_leaves
          (leaves_children i f)
          (leaves_children i f')
          (ids i f)
          (ids i f')
  unfolding leaves_children sum_children
  climb-KeepsExact i =
      climb_induction body
        (λ f b f' b'.
          KeepsExact i b.evictable_leaves b'.evictable_leaves (leaves_children i f)
            (leaves_children i f') (ids i f) (ids i f'))
        (λ t b t' b'.
          KeepsExact i b.evictable_leaves b'.evictable_leaves (leaves_tree i t) (leaves_tree i t')
            (sum_tree (is_id i) t) (sum_tree (is_id i) t'))
        (λ h f b. (
          omega (arith, is_id-same i h (body h f b).0 (s.same_id h f b)),
          λ outside others x. omega (
            arith,
            settle-body i h f b (own i h f) outside others (omega (arith, x.counts)) (own-le i h f)
                x.apart (omega (arith, x.one)),
          ),
        ))
        (λ h f b f' b' ih. (
          omega (arith, ih.0, is_id-same i h (body h f' b').0 (s.same_id h f' b')),
          λ outside others x. omega (
            arith,
            settle-body i h f' b' (own i h f) outside others
                (omega (
                  arith,
                  ih.1 (outside + own i h f) (others + is_id i h) (record {
                    counts = omega (arith, x.counts);
                    apart = omega (arith, x.apart, own-le i h f);
                    one = omega (arith, x.one);
                  }),
                ))
                (own-le i h f) x.apart (omega (arith, x.one, ih.0)),
          ),
        ))
        (λ c t f b t' b' ih. (
          omega (arith, ih.0),
          λ outside others x. omega (
            arith,
            ih.1 (outside + leaves_children i f) (others + ids i f) (record {
              counts = omega (arith, x.counts);
              apart = omega (arith, x.apart, leaves_children-le i f);
              one = omega (arith, x.one);
            }),
          ),
        ))
        (λ c t f b f' b' ih. (
          omega (arith, ih.0),
          λ outside others x. omega (
            arith,
            ih.1 (outside + leaves_tree i t) (others + sum_tree (is_id i) t) (record {
              counts = omega (arith, x.counts);
              apart = omega (arith, x.apart, leaves_tree-le i t);
              one = omega (arith, x.one);
            }),
          ),
        ))
