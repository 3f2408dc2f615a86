-- ===== src/Radix/Locks/Calls.antt =====
-- The calls of the cache against the locks that are held.
use sglang_mlx.Prelude.{
  ℕ, ◌<◌, true, false, Option, none, some, List, ◌∷◌, ◌==◌, ◌||◌, ◌≡◌, refl, ◌∙◌, ap, arith, count,
  length, ℤ, Bool-cases, inl, inr,
}
use sglang_mlx.Radix.Tree.{Children, monotonic, tick}
use sglang_mlx.Radix.Lock.{Body, Books, inc_node, dec_node, climb_children}
use sglang_mlx.Radix.Leaves.{is_id, ids}
use sglang_mlx.Radix.LeavesMatch.{ids-match_children}
use sglang_mlx.Radix.LeavesInsert.{ids-insert_children}
use sglang_mlx.Radix.Cache.{
  RadixCache, InsertParams, match_prefix, insert, climb, inc_lock_ref, dec_lock_ref, is_empty,
  stored_value, touched_root, books, after_climb,
}
use sglang_mlx.Radix.Refine.{disable-match, disable-insert}
use sglang_mlx.Radix.History.{matches, stores, locks, unlocks, step, IfAny, locked_at}
use sglang_mlx.Radix.Service.{step-IsKept}
use sglang_mlx.Radix.Evict.{evict}
use sglang_mlx.Radix.Evict.Laws.{IsKept, evict-Eviction}
use sglang_mlx.Radix.Locks.Counts.{
  LockedChildren, AreOld, match_children-Counts, insert_children-Counts,
}
use sglang_mlx.Radix.Locks.Ends.{
  Stays, Stays-refl, end_children, match_children-Stays, insert_children-Stays,
}
use sglang_mlx.Radix.Locks.Climb.{
  Moves, inc_node-Moves, dec_node-Moves, Moved, absent-Counts, climb_children-Moved, climb-Stays,
}
use sglang_mlx.Radix.Locks.Cut.{StaysHeld, CutOff-IsCut}

-- An enabled cache in order whose lock counts are those of the locks `held`, one id for each.
pub record IsHeld (held : List ℕ) (c : RadixCache) : Type 0 where
  pub kept : IsKept c
  pub enabled : c.disable ≡ false
  pub counted : LockedChildren held c.children
  pub old : AreOld held c.supply

-- The node where a query ends.
abbrev pub ends : RadixCache → List ℕ → Option ℕ
ends c q = end_children c.children q

-- What a match or an insertion keeps of the locks.
abbrev Follows : List ℕ → RadixCache → RadixCache → Type 0
Follows held c d = LockedChildren held d.children × AreOld held d.supply × Stays (ends d) (ends c)

match-Follows :
    (held : List ℕ) (c : RadixCache) (q : List ℕ)
    → LockedChildren held c.children
    → AreOld held c.supply
    → Follows held c (match_prefix c q).1
unfolding match_prefix
match-Follows held c q u old = elim (Bool-cases (c.disable || is_empty q)) [
  | inl skip ↦ rw skip (u, old, Stays-refl (ends c))
  | inr walk ↦
      let now = monotonic c.supply in
      let s = tick c.supply in
      let grow = ids-match_children 0 c.root.id c.children q now s in
      rw walk (
        (match_children-Counts held c.root.id c.children q now s (λ i later. old i later) u).0,
        λ i later. old i (omega (arith, later, grow.1)),
        match_children-Stays c.root.id c.children q now s,
      )
]

insert-Follows :
    (held : List ℕ) (c : RadixCache) (params : InsertParams)
    → LockedChildren held c.children
    → AreOld held c.supply
    → Follows held c (insert c params).1
unfolding insert
insert-Follows held c params u old = elim (Bool-cases c.disable) [
  | inl off ↦ rw off (u, old, Stays-refl (ends c))
  | inr on ↦ rw on (elim (Bool-cases (is_empty params.key)) [
    | inl skip ↦ rw skip (u, old, Stays-refl (ends c))
    | inr walk ↦
        let root = touched_root c params.priority in
        let value = stored_value params in
        let now = monotonic c.supply in
        let s = tick c.supply in
        let p = params.priority in
        let l = c.evictable_leaves in
        let f = c.children in
        let grow = ids-insert_children 0 root f f params.key value p now s l in
        rw walk (
          (insert_children-Counts held root f f params.key value p now s l (λ i later. old i later)
              u).0,
          λ i later. old i (omega (arith, later, grow.1)),
          insert_children-Stays root f f params.key value p now s l,
        )
  ])
]

pub match-IsHeld :
    (held : List ℕ) (c : RadixCache) (q : List ℕ)
    → IsHeld held c
    → IsHeld held (match_prefix c q).1 × Stays (ends (match_prefix c q).1) (ends c)
unfolding step
match-IsHeld held c q v =
    let (counted, old, stays) = match-Follows held c q v.counted v.old in
    (
      record {
        kept = step-IsKept c (matches q) tt v.kept;
        enabled = disable-match c q ∙ v.enabled;
        counted = counted;
        old = old;
      },
      stays,
    )

pub insert-IsHeld :
    (held : List ℕ) (c : RadixCache) (key value : List ℕ) (p : ℤ)
    → length value ≡ length key
    → IsHeld held c
    → let d = (insert c (record { key = key; value = some value; priority = p })).1 in
      IsHeld held d × Stays (ends d) (ends c)
unfolding step
insert-IsHeld held c key value p paired v =
    let params : InsertParams = record { key = key; value = some value; priority = p } in
    let (counted, old, stays) = insert-Follows held c params v.counted v.old in
    (
      record {
        kept = step-IsKept c (stores key value p) paired v.kept;
        enabled = disable-insert c params ∙ v.enabled;
        counted = counted;
        old = old;
      },
      stays,
    )

-- The cache of a lock call's result, and without one the cache before.
abbrev pub left_by : RadixCache → Option (ℤ × RadixCache) → RadixCache
left_by c none = c
left_by c (some (delta, d)) = d

pub IsKept-left_by :
    (c : RadixCache) (r : Option (ℤ × RadixCache))
    → IsKept c
    → IfAny IsKept (locked_at r)
    → IsKept (left_by c r)
IsKept-left_by c none v w = v
IsKept-left_by c (some (delta, d)) v w = w

-- What a lock call leaves of the locks.
abbrev Relocked : List ℕ → RadixCache → RadixCache → Type 0
Relocked held' c d =
    LockedChildren held' d.children × (d.supply ≡ c.supply) × Stays (ends d) (ends c)

module _ (body : Body) (i up down : ℕ) (held held' : List ℕ)
    (m : Moves body i up down held held') where
  Relocked-climbed :
      (c : RadixCache) (r : Option (Children × Books))
      → LockedChildren held c.children
      → climb_children body i c.children (books c) ≡ r
      → Moved body i up down held held' m c.children r
      → Relocked held' c (left_by c (after_climb c r))
  Relocked-climbed c none u e v =
      ((absent-Counts body i up down held held' m c.children v u).0, refl, Stays-refl (ends c))
  Relocked-climbed c (some (f, b)) u e v =
      (v.1, refl, climb-Stays body m.keeps i c.children (books c) f b e)

  Relocked-climb : (c : RadixCache) → IsHeld held c → Relocked held' c (left_by c (climb body c i))
  unfolding climb is_id
  Relocked-climb c v = elim (Bool-cases (c.root.id == i)) [
    | inl top ↦
        let gone : ids i c.children ≡ 0 = ground (arith, (v.kept.leaves i).one) in
        let test : (c.disable || c.root.id == i) ≡ true = ground arith in
        rw test (
          (absent-Counts body i up down held held' m c.children gone v.counted).0,
          refl,
          Stays-refl (ends c),
        )
    | inr off ↦
        let test : (c.disable || c.root.id == i) ≡ false = ground (arith, v.enabled) in
        rw test (
          Relocked-climbed c (climb_children body i c.children (books c)) v.counted refl (
            climb_children-Moved body i up down held held' m c.children (books c)
              (omega (arith, (v.kept.leaves i).one)) v.counted))
  ]

climb-enabled :
    (body : Body) (c : RadixCache) (i : ℕ) → (left_by c (climb body c i)).disable ≡ c.disable
unfolding climb
climb-enabled body c i = elim (Bool-cases (c.disable || c.root.id == i)) [
  | inl skip ↦ rw skip refl
  | inr run ↦ rw run (go (climb_children body i c.children (books c)))
]
  where
    go : (r : Option (Children × Books)) → (left_by c (after_climb c r)).disable ≡ c.disable
    go none = refl
    go (some (f, b)) = refl

pub inc-IsHeld :
    (held : List ℕ) (c : RadixCache) (i : ℕ)
    → i < c.supply.counter
    → IsHeld held c
    → let d = left_by c (inc_lock_ref c i) in IsHeld (i ∷ held) d × Stays (ends d) (ends c)
unfolding step inc_lock_ref count
inc-IsHeld held c i given v =
    let m = inc_node-Moves i held in
    let (counted, supply, stays) = Relocked-climb inc_node i 1 0 held (i ∷ held) m c v in
    (
      record {
        kept = IsKept-left_by c (climb inc_node c i) v.kept (step-IsKept c (locks i) tt v.kept);
        enabled = climb-enabled inc_node c i ∙ v.enabled;
        counted = counted;
        old = λ j later. ground (
          arith,
          v.old j (omega (arith, later, ap (λ s. s.counter) supply)),
          given,
          ap (λ s. s.counter) supply,
        );
      },
      stays,
    )

pub dec-IsHeld :
    (held held' : List ℕ) (c : RadixCache) (i : ℕ)
    → ((j : ℕ) → count j held ≡ count j (i ∷ held'))
    → IsHeld held c
    → let d = left_by c (dec_lock_ref c i) in IsHeld held' d × Stays (ends d) (ends c)
unfolding step dec_lock_ref count
dec-IsHeld held held' c i same v =
    let m = dec_node-Moves i held held' same in
    let (counted, supply, stays) = Relocked-climb dec_node i 0 1 held held' m c v in
    (
      record {
        kept = IsKept-left_by c (climb dec_node c i) v.kept (step-IsKept c (unlocks i) tt v.kept);
        enabled = climb-enabled dec_node c i ∙ v.enabled;
        counted = counted;
        old = λ j later.
            ground (arith, v.old j (omega (arith, later, ap (λ s. s.counter) supply)), same j);
      },
      stays,
    )

pub evict-IsHeld :
    (held : List ℕ) (c d : RadixCache) (n k : ℕ)
    → evict c n ≡ some (k, d)
    → IsHeld held c
    → IsHeld held d × StaysHeld held (ends d) (ends c)
evict-IsHeld held c d n k e v =
    let x = evict-Eviction c d n k v.kept v.enabled e in
    let ((counted, _), stays) =
      CutOff-IsCut held c.root c.children x.victims d.children x.chain v.counted in
    (
      record {
        kept = x.kept;
        enabled = x.same_switch ∙ v.enabled;
        counted = counted;
        old = λ j later. v.old j (omega (arith, later, ap (λ s. s.counter) x.same_supply));
      },
      stays,
    )
