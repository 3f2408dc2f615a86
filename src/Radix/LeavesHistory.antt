-- ===== src/Radix/LeavesHistory.antt =====
-- The set `evictable_leaves` of `RadixCache` through whole histories of calls.
use sglang_mlx.Prelude.{
  subst, ℕ, ◌+◌, ◌≤◌, some, List, [], ◌∷◌, ◌≡◌, refl, ◌∙◌, sym, length, ℤ, pos, Bool-cases, inl,
  inr, ◌||◌, arith, count,
}
use sglang_mlx.Radix.Tree.{TreeNode, Children, monotonic, tick, is_evictable_leaf}
use sglang_mlx.Radix.Walk.{insert_children}
use sglang_mlx.Radix.Lock.{Body, inc_node, dec_node}
use sglang_mlx.Radix.LockView.{Keeps, climb-Wf, inc_node-Keeps, dec_node-Keeps}
use sglang_mlx.Radix.MatchWf.{match_children-Wf}
use sglang_mlx.Radix.InsertWf.{insert_children-Wf}
use sglang_mlx.Radix.Weights.{sum_children}
use sglang_mlx.Radix.Leaves.{is_id, ids, own, leaves_children}
use sglang_mlx.Radix.LeavesMatch.{
  within, has_live_child-occupied, ids-match_children, leaves-match_children,
}
use sglang_mlx.Radix.LeavesInsert.{ids-insert_children}
use sglang_mlx.Radix.LeavesLock.{Settles, inc_node-Settles, dec_node-Settles, climb-KeepsExact}
use sglang_mlx.Radix.LeavesStore.{insert_children-exact, occupied-insert}
use sglang_mlx.Radix.Refine.{IsWellFormed, climb_cases}
use sglang_mlx.Radix.History.{
  Call, matches, stores, locks, unlocks, step, run, IfAny, after-IfAny, locked_at-IfAny, ArePaired,
  IsPaired,
}
use sglang_mlx.Radix.Cache.{
  RadixCache, InsertParams, reset, match_prefix, insert, climb, inc_lock_ref, dec_lock_ref,
  is_empty, books, touched_root, stored_value,
}

-- The set holds `i` as often as an unlocked node without children has it as id; no two nodes have
-- one id, and none has an id from the counter on.
pub record IsExact (i : ℕ) (c : RadixCache) : Type 0 where
  pub shape : IsWellFormed c
  pub rooted : c.root.lock_ref ≡ pos 1
  pub exact : count i c.evictable_leaves ≡ leaves_children i c.children
  pub one : is_id i c.root + ids i c.children ≤ 1
  pub fresh : c.supply.counter ≤ i → is_id i c.root + ids i c.children ≡ 0

pub reset-IsExact : (i : ℕ) (c : RadixCache) → IsExact i (reset c)
unfolding reset sum_children is_id leaves_children count
reset-IsExact i c = record {
  shape = tt;
  rooted = refl;
  exact = refl;
  one = ground arith;
  fresh = λ q. ground arith;
}

-- Ids that come from the counter stay unique.
ids-grow :
    (i first last root old new : ℕ)
    → root + old ≤ 1
    → (first ≤ i → root + old ≡ 0)
    → (new ≡ old + within first last i) × (first ≤ last)
    → (root + new ≤ 1) × (last ≤ i → root + new ≡ 0)
ids-grow i first last root old new one fresh e = (ground arith, λ q. ground arith)

own-locked : (i : ℕ) (h : TreeNode) (f : Children) → h.lock_ref ≡ pos 1 → own i h f ≡ 0
unfolding own is_evictable_leaf
own-locked i h f e = ground arith

match_prefix-IsExact :
    (i : ℕ) (c : RadixCache) (key : List ℕ) → IsExact i c → IsExact i (match_prefix c key).1
unfolding match_prefix is_id
match_prefix-IsExact i c key x = elim (Bool-cases (c.disable || is_empty key)) [
  | inl skip ↦ rw skip x
  | inr walk ↦
      let now = monotonic c.supply in
      let s = tick c.supply in
      let grow =
        ids-grow i c.supply.counter _ (is_id i c.root) _ _ x.one x.fresh
          (ids-match_children i c.root.id c.children key now s) in
      rw walk (record {
        shape = match_children-Wf c.root.id c.children key now s x.shape;
        rooted = x.rooted;
        exact = x.exact ∙ sym (leaves-match_children i c.root.id c.children key now s x.shape);
        one = grow.0;
        fresh = grow.1;
      })
]

insert-IsExact :
    (i : ℕ) (c : RadixCache) (params : InsertParams)
    → length (stored_value params) ≡ length params.key
    → IsExact i c
    → IsExact i (insert c params).1
unfolding insert is_id
insert-IsExact i c params paired x = elim (Bool-cases c.disable) [
  | inl off ↦
      rw off (record {
        shape = x.shape;
        rooted = x.rooted;
        exact = x.exact;
        one = x.one;
        fresh = x.fresh;
      })
  | inr on ↦ rw on (elim (Bool-cases (is_empty params.key)) [
    | inl skip ↦ rw skip (record {
      shape = x.shape;
      rooted = x.rooted;
      exact = x.exact;
      one = x.one;
      fresh = x.fresh;
    })
    | inr walk ↦
        let root = touched_root c params.priority in
        let value = stored_value params in
        let now = monotonic c.supply in
        let s = tick c.supply in
        let p = params.priority in
        let l = c.evictable_leaves in
        let f = c.children in
        let rest = insert_children root f f params.key value p now s l in
        let w = insert_children-Wf root f f params.key value p now s l x.shape paired in
        let grow =
          ids-grow i c.supply.counter _ (is_id i c.root) _ _ x.one x.fresh
            (ids-insert_children i root f f params.key value p now s l) in
        let live =
          has_live_child-occupied rest.out w
          ∙ occupied-insert root f f params.key value p now s l in
        rw walk (record {
          shape = w;
          rooted = x.rooted;
          exact = omega (
            arith,
            own-locked i root rest.out x.rooted,
            insert_children-exact i root f f rest.out params.key value p now s l 0 0 x.shape paired
                (has_live_child-occupied f x.shape) (λ z. z) live
                (omega (arith, x.exact, own-locked i root f x.rooted))
                (record {
                  apart = omega arith;
                  one = omega (arith, x.one);
                  fresh = λ q. omega (arith, x.fresh q);
                }),
          );
          one = grow.0;
          fresh = grow.1;
        })
  ])
]

climb-IsExact :
    (i : ℕ) (body : Body) (c d : RadixCache) (node : ℕ) (delta : ℤ)
    → Keeps body
    → Settles body
    → climb body c node ≡ some (delta, d)
    → IsExact i c
    → IsExact i d
climb-IsExact i body c d node delta k s e x = elim (climb_cases body c d node delta e) [
  | inl (same, _) ↦ rw same x
  | inr (f, b, found, place, _) ↦
      let t = climb-KeepsExact body s i node c.children (books c) f b found in
      rw place (record {
        shape = climb-Wf body k node c.children (books c) f b found x.shape;
        rooted = x.rooted;
        exact = omega (
          arith,
          t.1 0 (is_id i c.root)
              (record { counts = omega (arith, x.exact); apart = omega arith; one = x.one }),
        );
        one = omega (arith, t.0, x.one);
        fresh = λ q. omega (arith, t.0, x.fresh q);
      })
]

pub step-IsExact :
    (i : ℕ) (c : RadixCache) (call : Call)
    → IsPaired call
    → IsExact i c
    → IfAny (IsExact i) (step c call)
unfolding step inc_lock_ref dec_lock_ref
step-IsExact i c (matches key) paired x = match_prefix-IsExact i c key x
step-IsExact i c (stores key value p) paired x = insert-IsExact i c _ paired x
step-IsExact i c (locks node) paired x =
    locked_at-IfAny (IsExact i) inc_node c node _ refl
      (λ d delta e. climb-IsExact i inc_node c d node delta inc_node-Keeps inc_node-Settles e x)
step-IsExact i c (unlocks node) paired x =
    locked_at-IfAny (IsExact i) dec_node c node _ refl
      (λ d delta e. climb-IsExact i dec_node c d node delta dec_node-Keeps dec_node-Settles e x)

pub run-IsExact :
    (i : ℕ) (c d : RadixCache) (calls : List Call)
    → ArePaired calls
    → run (reset c) calls ≡ some d
    → IsExact i d
unfolding run
run-IsExact i c d calls paired ran =
    subst (IfAny (IsExact i)) ran (go (reset c) calls paired (reset-IsExact i c))
  where
    go :
        (c : RadixCache) (calls : List Call)
        → ArePaired calls
        → IsExact i c
        → IfAny (IsExact i) (run c calls)
    go c [] paired x = x
    go c (call ∷ calls) paired x =
        after-IfAny (IsExact i) (IsExact i) (step c call) (λ d. run d calls)
          (step-IsExact i c call paired.0 x) (λ d y. go d calls paired.1 y)
