-- ===== src/Radix/LeavesStore.antt =====
-- The set of evictable leaves through `_insert_helper`: a new leaf enters and its parent leaves.
use mathlib.Core.Option
use sglang_mlx.Prelude.{
  ℕ, suc, ◌+◌, ◌≤◌, true, some, List, [], ◌∷◌, ◌≡◌, refl, sym, ◌∙◌, ap, arith, ltb, length,
  Bool-cases, inl, inr, ◌==◌, ◌||◌, if◌then◌else◌, drop, get_or, ℤ, count,
}
use sglang_mlx.Radix.Tree.{
  TreeNode, Tree, tree, Children, nil, child, Supply, has_live_child, is_evictable_leaf, upper_half,
  lower_half, key_match, after_new, append_child, update_leaf_status,
}
use sglang_mlx.Radix.Walk.{leads, raised, leaf_node, add_leaf, insert_children, insert_tree}
use sglang_mlx.Radix.View.{WfChildren, WfTree}
use sglang_mlx.Radix.InsertWf.{insert_children-Wf}
use sglang_mlx.Radix.Overlay.{paired-drop}
use sglang_mlx.Radix.Weights.{sum_tree}
use sglang_mlx.Radix.Leaves.{
  is_id, ids, own, leaves_children, leaves_tree, leaves_children-le, leaves_tree-le, own-le, settle,
  count-update_leaf_status,
}
use sglang_mlx.Radix.LeavesLock.{is_id-same}
use sglang_mlx.Radix.LeavesMatch.{occupied, has_live_child-occupied, own-same, own-lower, own-above}

has_live_child-append :
    (all : Children) (k : ℕ) (h : TreeNode) (f : Children) (v : List ℕ)
    → h.value ≡ some v
    → has_live_child (append_child all k (tree h f)) ≡ true
unfolding has_live_child append_child
has_live_child-append nil k h f v e = rw e
has_live_child-append (child c (tree g x) all) k h f v e =
    rw (has_live_child-append all k h f v e) (ground arith)

has_live_child-live :
    (d : ℕ) (h : TreeNode) (g f : Children) (v : List ℕ)
    → h.value ≡ some v
    → has_live_child (child d (tree h g) f) ≡ true
unfolding has_live_child
has_live_child-live d h g f v e = rw e refl

-- A node that takes the next id finds that id free, and leaves those after it free.
upper-room :
    (i : ℕ) (s : Supply) (u : TreeNode) (rest : ℕ)
    → u.id ≡ s.counter
    → rest ≤ 1
    → (s.counter ≤ i → rest ≡ 0)
    → rest + is_id i u ≤ 1
unfolding is_id
upper-room i s u rest e one fresh = ground arith

is_id-later :
    (i : ℕ) (s : Supply) (u : TreeNode) → u.id ≡ s.counter → suc s.counter ≤ i → is_id i u ≡ 0
unfolding is_id
is_id-later i s u e q = ground arith

own-live : (i : ℕ) (h : TreeNode) (f : Children) → has_live_child f ≡ true → own i h f ≡ 0
unfolding own is_evictable_leaf
own-live i h f e = ground arith

own-leaf_node :
    (i : ℕ) (s : Supply) (key value : List ℕ) (p : ℤ)
    → own i (leaf_node s key value p) nil ≡ (if i == s.counter then 1 else 0)
unfolding own is_evictable_leaf has_live_child leaf_node is_id
own-leaf_node i s key value p = refl

-- The set counts a node, what is below it and the leaves elsewhere; ids are unique, and ids from
-- the counter on are not taken.
pub record Fits (i outside others taken first : ℕ) : Type 0 where
  pub apart : outside ≤ others
  pub one : others + taken ≤ 1
  pub fresh : first ≤ i → others + taken ≡ 0

-- A new leaf enters the set beside what was there.
new_leaf :
    (i : ℕ) (s : Supply) (key value : List ℕ) (p : ℤ) (l : List ℕ) (outside others taken : ℕ)
    → count i l ≡ outside
    → Fits i outside others taken s.counter
    → (gone : ℕ) → gone ≡ 0
    → let leaf = leaf_node s key value p in
      count i (update_leaf_status leaf nil l) ≡ outside + gone + (own i leaf nil + 0 + 0)
unfolding leaf_node
new_leaf i s key value p l outside others taken e x gone z = ground (
  arith,
  count-update_leaf_status i (leaf_node s key value p) nil l,
  own-leaf_node i s key value p,
)

add_leaf-exact :
    (i : ℕ) (node : TreeNode) (all g : Children) (key value : List ℕ) (p : ℤ) (s : Supply)
    (l : List ℕ) (outside others : ℕ)
    → has_live_child all ≡ occupied all
    → let r = add_leaf node all key value p s l in
      has_live_child g ≡ occupied all || occupied r.out
      → count i l ≡ outside + own i node all
      → Fits i outside others (is_id i node) s.counter
      → count i r.leaves ≡ outside + own i node g + leaves_children i r.out
unfolding add_leaf leaves_tree
add_leaf-exact i node all g [] value p s l outside others live final e x =
    let same : has_live_child g ≡ has_live_child all = ground arith in
    omega (arith, e, own-same i node node all g refl refl refl same)
add_leaf-exact i node all g (k ∷ key) value p s l outside others live final e x =
    let leaf = leaf_node s (k ∷ key) value p in
    let whole = append_child all k (tree leaf nil) in
    let full : has_live_child g ≡ true = ground arith in
    let parent =
      settle i node node whole l (own i node all) outside others 0 0 refl (omega (arith, e))
        (own-le i node all) x.apart (omega arith) (omega (arith, x.one)) in
    new_leaf i s (k ∷ key) value p (update_leaf_status node whole l) outside others (is_id i node)
      (omega (
        arith,
        parent,
        own-live i node whole
            (has_live_child-append all k leaf nil value (unfold leaf_node in refl)),
      ))
      x (own i node g) (own-live i node g full)

pub occupied-insert :
    (node : TreeNode) (all f : Children) (key value : List ℕ) (p : ℤ) (now : ℕ) (s : Supply)
    (l : List ℕ)
    → let r = insert_children node all f key value p now s l in
      occupied r.out ≡ occupied f || occupied r.out
unfolding insert_children
occupied-insert node all nil key value p now s l = refl
occupied-insert node all (child c t f) key value p now s l = ground arith

upper-born :
    (s : Supply) (h : TreeNode) (n : ℕ) (p : ℤ) → (raised (upper_half s h n) p).id ≡ s.counter
unfolding upper_half
upper-born s h n p = refl

mutual
  unfolding insert_tree leaves_tree sum_tree

  pub insert_children-exact :
      (i : ℕ) (node : TreeNode) (all f g : Children) (key value : List ℕ) (p : ℤ) (now : ℕ)
      (s : Supply) (l : List ℕ) (outside others : ℕ)
      → WfChildren f
      → length value ≡ length key
      → has_live_child all ≡ occupied all
      → (occupied f ≡ true → occupied all ≡ true)
      → let r = insert_children node all f key value p now s l in
        has_live_child g ≡ occupied all || occupied r.out
        → count i l ≡ outside + own i node all + leaves_children i f
        → Fits i outside others (is_id i node + ids i f) s.counter
        → count i r.leaves ≡ outside + own i node g + leaves_children i r.out
  insert_children-exact i node all nil g key value p now s l outside others w paired live k final e
        x =
      add_leaf-exact i node all g key value p s l outside others live final (omega (arith, e))
        (record {
          apart = x.apart;
          one = omega (arith, x.one);
          fresh = λ h. omega (arith, x.fresh h);
        })
  insert_children-exact i node all (child c t f) g key value p now s l outside others w paired live
        k final e x =
      let full : has_live_child g ≡ true =
        final
        ∙ ap (λ b. b || occupied (insert_children node all (child c t f) key value p now s l).out)
            (k refl) in
      elim (Bool-cases (leads c key)) [
        | inl hit ↦ rw hit (
            omega (
              arith,
              insert_tree-exact i c t key value p now s l
                  (outside + own i node all + leaves_children i f) (others + is_id i node + ids i f)
                  w.0 paired (omega (arith, e))
                  (record {
                    apart = omega (arith, x.apart, own-le i node all, leaves_children-le i f);
                    one = omega (arith, x.one);
                    fresh = λ h. omega (arith, x.fresh h);
                  }),
              own-live i node g full,
              own-live i node all (live ∙ k refl),
            ))
        | inr miss ↦ rw miss (
            omega (
              arith,
              insert_children-exact i node all f g key value p now s l (outside + leaves_tree i t)
                  (others + sum_tree (is_id i) t) w.2 paired live (λ _. k refl)
                  (full
                    ∙ sym (
                        ap (λ b. b || occupied (insert_children node all f key value p now s l).out)
                          (k refl)))
                  (omega (arith, e))
                  (record {
                    apart = omega (arith, x.apart, leaves_tree-le i t);
                    one = omega (arith, x.one);
                    fresh = λ h. omega (arith, x.fresh h);
                  }),
            ))
      ]

  insert_tree-exact :
      (i c : ℕ) (t : Tree) (key value : List ℕ) (p : ℤ) (now : ℕ) (s : Supply) (l : List ℕ)
      (outside others : ℕ)
      → WfTree c t
      → length value ≡ length key
      → count i l ≡ outside + leaves_tree i t
      → Fits i outside others (sum_tree (is_id i) t) s.counter
      → let r = insert_tree t key value p now s l in
        count i r.leaves ≡ outside + leaves_tree i r.out
  insert_tree-exact i c (tree h f) key value p now s l outside others w paired e x =
      let n = key_match h.key key in
      let h' = record h { last_access_time = now } in
      elim (Bool-cases (ltb n (length h.key))) [
        | inl part ↦
            let born = upper-born s h' n p in
            let d = get_or h.key n 0 in
            let upper = raised (upper_half s h' n) p in
            let lower = lower_half h' n in
            let below = child d (tree lower f) nil in
            let split = add_leaf upper below (drop n key) (drop n value) p (after_new s) l in
            let g = child d (tree lower f) split.out in
            let cut : lower.value ≡ some (drop n w.0.indices) = ap (Option.map (drop n)) w.0.held in
            rw part (
              omega (
                arith,
                add_leaf-exact i upper below g (drop n key) (drop n value) p (after_new s) l
                    (outside + own i h f + leaves_children i f) (others + is_id i h + ids i f)
                    (has_live_child-live d lower f nil _ cut)
                    (has_live_child-live d lower f split.out _ cut)
                    (omega (
                      arith,
                      e,
                      own-above i d upper lower f nil _ cut,
                      own-same i h h' f f refl refl refl refl,
                    ))
                    (record {
                      apart = omega (arith, x.apart, own-le i h f, leaves_children-le i f);
                      one =
                          upper-room i s upper _ born (omega (arith, x.one))
                            (λ q. omega (arith, x.fresh q));
                      fresh = λ q.
                          omega (arith, is_id-later i s upper born q, x.fresh (omega (arith, q)));
                    }),
                own-above i d upper lower f split.out _ cut,
                own-lower i h' f n w.0.indices w.0.held,
                own-same i h h' f f refl refl refl refl,
              ))
        | inr whole ↦
            let node = raised h' p in
            let rest = insert_children node f f (drop n key) (drop n value) p now s l in
            let live = has_live_child-occupied f w.1 in
            let live' =
              has_live_child-occupied rest.out (
                insert_children-Wf node f f (drop n key) (drop n value) p now s l w.1
                  (paired-drop n key value paired))
              ∙ occupied-insert node f f (drop n key) (drop n value) p now s l in
            rw whole (
              omega (
                arith,
                insert_children-exact i node f f rest.out (drop n key) (drop n value) p now s l
                    outside others w.1 (paired-drop n key value paired) live (λ z. z) live'
                    (omega (arith, e, own-same i h node f f refl refl refl refl))
                    (record {
                      apart = x.apart;
                      one = omega (arith, x.one, is_id-same i h node refl);
                      fresh = λ q. omega (arith, x.fresh q, is_id-same i h node refl);
                    }),
              ))
      ]
