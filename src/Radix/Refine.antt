-- ===== src/Radix/Refine.antt =====
-- The cache against a flat history: what its calls answer, whatever the shape of the tree.
use sglang_mlx.Prelude.{
  ℕ, true, false, some, List, [], ◌∷◌, ◌≡◌, refl, sym, ◌||◌, length, ℤ, pos, Bool-cases, inl, inr,
  arith, Option-cases, ◌⊎◌, ◌==◌,
}
use sglang_mlx.Radix.Tree.{Children, nil, child}
use sglang_mlx.Radix.Lock.{Body, Books, climb_children}
use sglang_mlx.Radix.LockView.{Keeps, cached-climb, climb-Wf}
use sglang_mlx.Radix.View.{cached_children, overlay, WfChildren}
use sglang_mlx.Radix.MatchView.{join-match_children, cached-match_children}
use sglang_mlx.Radix.MatchWf.{match_children-Wf}
use sglang_mlx.Radix.InsertView.{cached-insert_children}
use sglang_mlx.Radix.InsertWf.{insert_children-Wf}
use sglang_mlx.Radix.Cache.{
  RadixCache, InsertParams, match_prefix, insert, stored_value, climb, books, is_empty, placed,
}

-- The answer of the tree to a query.
abbrev pub cached : RadixCache → List ℕ → List ℕ
cached c q = cached_children c.children q

abbrev pub IsWellFormed : RadixCache → Type 0
IsWellFormed c = WfChildren c.children

pub cached_children-nil :
    (f : Children) (key : List ℕ) → is_empty key ≡ true → cached_children f key ≡ []
unfolding cached_children
cached_children-nil nil key h = refl
cached_children-nil (child c t f) [] h = cached_children-nil f [] h
cached_children-nil (child c t f) (a ∷ key) h = cc

overlay-nil : (key value old q : List ℕ) → is_empty key ≡ true → overlay key value old q ≡ old
unfolding overlay
overlay-nil [] value old q h = refl
overlay-nil (a ∷ key) value old q h = cc

-- The two outcomes of a lock call that finds its node: nothing to do, or a climb below the root.
pub climb_cases :
    (body : Body) (c d : RadixCache) (node : ℕ) (delta : ℤ)
    → climb body c node ≡ some (delta, d)
    → ((d ≡ c) × (delta ≡ pos 0))
      ⊎ ((f : Children) × (b : Books) × (climb_children body node c.children (books c)
            ≡ some (f, b))
          × (d ≡ placed c f b)
          × (delta ≡ b.delta))
unfolding climb
climb_cases body c d node delta e = elim (Bool-cases (c.disable || c.root.id == node)) [
  | inl skip ↦ inl (ground arith)
  | inr run ↦ elim (Option-cases (climb_children body node c.children (books c))) [
    | inl lost ↦ absurd (ground arith)
    | inr ((f, b), found) ↦ inr ((f, b, found, ground arith, ground arith))
  ]
]

-- On an enabled well-formed cache, where each node has a slot for each of its tokens, a match
-- returns the slots of the longest cached prefix of the key.
pub match_prefix-cached :
    (c : RadixCache) (key : List ℕ)
    → IsWellFormed c
    → c.disable ≡ false
    → (match_prefix c key).0.device_indices ≡ cached c key
unfolding match_prefix
match_prefix-cached c key w on = elim (Bool-cases (is_empty key)) [
  | inl e ↦ rw (on, e) (sym (cached_children-nil c.children key e))
  | inr e ↦ rw (on, e) (join-match_children c.root.id c.children key _ _ w)
]

-- A match leaves a well-formed cache that answers every query as before: its splits and its new
-- access times show in no answer.
pub cached-match_prefix :
    (c : RadixCache) (key : List ℕ)
    → IsWellFormed c
    → IsWellFormed (match_prefix c key).1
      × ((q : List ℕ) → cached (match_prefix c key).1 q ≡ cached c q)
unfolding match_prefix
cached-match_prefix c key w = elim (Bool-cases (c.disable || is_empty key)) [
  | inl skip ↦ rw skip ((w, λ q. refl))
  | inr run ↦ rw run (
      (
        match_children-Wf _ c.children key _ _ w,
        λ q. cached-match_children _ c.children key _ _ q w,
      ))
]

-- An insertion into an enabled well-formed cache, of a key with a slot for each token, leaves a
-- well-formed cache in which the entry is overlaid: where a query follows the key, slots that the tree has
-- stay and the missing ones are those of the entry; every other answer is as before.
pub cached-insert :
    (c : RadixCache) (params : InsertParams)
    → IsWellFormed c
    → c.disable ≡ false
    → length (stored_value params) ≡ length params.key
    → IsWellFormed (insert c params).1
      × ((q : List ℕ)
          → cached (insert c params).1 q ≡ overlay params.key (stored_value params) (cached c q) q)
unfolding insert
cached-insert c params w on paired = elim (Bool-cases (is_empty params.key)) [
  | inl skip ↦ rw (on, skip) ((w, λ q. sym (overlay-nil params.key _ _ q skip)))
  | inr run ↦
      rw (on, run)
        ((
          insert_children-Wf _ _ c.children params.key _ _ _ _ _ w paired,
          λ q. cached-insert_children _ _ c.children params.key _ _ _ _ _ q w paired,
        ))
]

-- Taking or releasing a lock leaves a well-formed cache that answers every query as before.
pub cached-climb_cache :
    (body : Body) (c d : RadixCache) (node : ℕ) (delta : ℤ)
    → Keeps body
    → IsWellFormed c
    → climb body c node ≡ some (delta, d)
    → IsWellFormed d × ((q : List ℕ) → cached d q ≡ cached c q) × (d.disable ≡ c.disable)
cached-climb_cache body c d node delta k w e = elim (climb_cases body c d node delta e) [
  | inl (same, _) ↦ rw same ((w, λ q. refl, refl))
  | inr (f, b, found, place, _) ↦ rw place (
      (
        climb-Wf body k node c.children (books c) f b found w,
        cached-climb body k node c.children (books c) f b found,
        refl,
      ))
]

pub disable-match : (c : RadixCache) (key : List ℕ) → (match_prefix c key).1.disable ≡ c.disable
unfolding match_prefix
disable-match c key = ground arith

pub disable-insert : (c : RadixCache) (p : InsertParams) → (insert c p).1.disable ≡ c.disable
unfolding insert
disable-insert c p = ground arith
