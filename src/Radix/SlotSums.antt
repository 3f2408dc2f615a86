-- ===== src/Radix/SlotSums.antt =====
-- How often the tree holds a slot, after each call.
use sglang_mlx.Prelude.{
  ℕ, ◌+◌, some, List, [], ◌∷◌, true, ◌≡◌, refl, ◌∙◌, ap, arith, length, length-drop, false, ◌||◌,
  drop, count, Bool-cases, inl, inr, ℤ,
}
use sglang_mlx.Radix.Tree.{slots}
use sglang_mlx.Radix.Cache.{
  RadixCache, InsertParams, match_prefix, insert, climb, is_empty, stored_value, books,
}
use sglang_mlx.Radix.Weights.{sum_children, sum_tree, sum-match_children, sum-insert_children}
use sglang_mlx.Radix.Measures.{holds, gain_slot, holds-IsAdditive}
use sglang_mlx.Radix.Lock.{Body, climb_induction}
use sglang_mlx.Radix.LockView.{Keeps}
use sglang_mlx.Radix.Refine.{cached, IsWellFormed, climb_cases}
use sglang_mlx.Radix.InsertPrefix.{prefix_len-insert}

-- How often the nodes below the root hold the slot `i`.
unfoldable pub held : ℕ → RadixCache → ℕ
held i c = sum_children (holds i) c.children

pub held-match : (i : ℕ) (c : RadixCache) (key : List ℕ) → held i (match_prefix c key).1 ≡ held i c
unfolding match_prefix held
held-match i c key = elim (Bool-cases (c.disable || is_empty key)) [
  | inl skip ↦ rw skip refl
  | inr run ↦ rw run (sum-match_children (holds i) _ (holds-IsAdditive i) _ c.children key _ _)
]

gain_slot-count :
    (i : ℕ) (key value : List ℕ) → length value ≡ length key → gain_slot i key value ≡ count i value
gain_slot-count i [] [] e = unfold count in refl
gain_slot-count i [] (x ∷ value) e = absurd (omega (arith, e))
gain_slot-count i (k ∷ key) value e = refl

gain_slot-empty : (i : ℕ) (key value : List ℕ) → is_empty key ≡ true → gain_slot i key value ≡ 0
gain_slot-empty i [] value e = refl
gain_slot-empty i (k ∷ key) value e = cc

held-insert_gain :
    (i : ℕ) (c : RadixCache) (params : InsertParams)
    → c.disable ≡ false
    → let n = (insert c params).0 in
      held i (insert c params).1
      ≡ held i c + gain_slot i (drop n params.key) (drop n (stored_value params))
unfolding insert held
held-insert_gain i c params on = elim (Bool-cases (is_empty params.key)) [
  | inl skip ↦
      rw (on, skip) (omega (arith, gain_slot-empty i params.key (stored_value params) skip))
  | inr run ↦
      rw (on, run)
        (sum-insert_children (holds i) (gain_slot i) (holds-IsAdditive i) _ c.children c.children
          params.key (stored_value params) params.priority _ _ c.evictable_leaves)
]

-- An insertion adds the slots behind the cached prefix of the key.
pub held-insert :
    (i : ℕ) (c : RadixCache) (params : InsertParams)
    → IsWellFormed c
    → c.disable ≡ false
    → length (stored_value params) ≡ length params.key
    → held i (insert c params).1
      ≡ held i c + count i (drop (length (cached c params.key)) (stored_value params))
held-insert i c params w on paired =
    let value = stored_value params in
    let n = prefix_len-insert c params w on in
    let gain : gain_slot i (drop (insert c params).0 params.key) (drop (insert c params).0 value)
        ≡ count i (drop (length (cached c params.key)) value) =
      gain_slot-count i (drop (insert c params).0 params.key) (drop (insert c params).0 value) (
        omega (
          arith,
          length-drop (insert c params).0 params.key,
          length-drop (insert c params).0 value,
          paired,
        ))
      ∙ ap (λ k. count i (drop k value)) n in
    omega (arith, held-insert_gain i c params on, gain)

-- A lock call changes no slot.
pub held-climb :
    (i : ℕ) (body : Body) (c d : RadixCache) (node : ℕ) (delta : ℤ)
    → Keeps body
    → climb body c node ≡ some (delta, d)
    → held i d ≡ held i c
unfolding held sum_children holds
held-climb i body c d node delta k e = elim (climb_cases body c d node delta e) [
  | inl (same, _) ↦ rw same refl
  | inr (f, b, found, place, _) ↦ rw place (
      climb_induction body (λ f b f' b'. sum_children (holds i) f' ≡ sum_children (holds i) f)
        (λ t b t' b'. sum_tree (holds i) t' ≡ sum_tree (holds i) t)
        (λ h f b. ap (λ v. count i (slots v) + sum_children (holds i) f) (k.value h f b))
        (λ h f b f' b' ih. omega (arith, ih, ap (λ v. count i (slots v)) (k.value h f' b')))
        (λ c t f b t' b' ih. omega (arith, ih)) (λ c t f b f' b' ih. omega (arith, ih)) node
        c.children (books c) f b found)
]
