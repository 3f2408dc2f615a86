-- ===== src/Radix/Measures.antt =====
-- The measures of a tree that the cache keeps books of: unlocked tokens, locked tokens, slots.
use sglang_mlx.Prelude.{
  ℕ, List, [], ◌∷◌, refl, length, pos, ltb_ℤ, arith, Bool-cases, inl, inr, length-take, length-drop,
  if◌then◌else◌, count, count-take-drop, Option-cases,
}
use sglang_mlx.Radix.Tree.{TreeNode, slots, upper_half}
use sglang_mlx.Radix.Walk.{leaf_node}
use sglang_mlx.Radix.Weights.{IsAdditive}

-- The tokens of a node that no request holds, and of one that some request holds.
unfoldable pub unlocked : TreeNode → ℕ
unlocked h = if ltb_ℤ (pos 0) h.lock_ref then 0 else length h.key

unfoldable pub locked : TreeNode → ℕ
locked h = if ltb_ℤ (pos 0) h.lock_ref then length h.key else 0

-- How often a node holds the slot `i`.
unfoldable pub holds : ℕ → TreeNode → ℕ
holds i h = count i (slots h.value)

abbrev pub gain_tokens : List ℕ → List ℕ → ℕ
gain_tokens key value = length key

abbrev pub gain_none : List ℕ → List ℕ → ℕ
gain_none key value = 0

abbrev pub gain_slot : ℕ → List ℕ → List ℕ → ℕ
gain_slot i [] value = 0
gain_slot i (k ∷ key) value = count i value

pub unlocked-IsAdditive : IsAdditive unlocked gain_tokens
unfolding unlocked upper_half leaf_node
unlocked-IsAdditive = record {
  touch = λ h t. refl;
  raise = λ h p. refl;
  cut = λ s h n lt. elim (Bool-cases (ltb_ℤ (pos 0) h.lock_ref)) [
    | inl e ↦ rw e (omega arith)
    | inr e ↦ rw e (omega (arith, length-take n h.key, length-drop n h.key))
  ];
  leaf = λ s k key value p. refl;
  nothing = λ value. refl;
}

pub locked-IsAdditive : IsAdditive locked gain_none
unfolding locked upper_half leaf_node
locked-IsAdditive = record {
  touch = λ h t. refl;
  raise = λ h p. refl;
  cut = λ s h n lt. elim (Bool-cases (ltb_ℤ (pos 0) h.lock_ref)) [
    | inl e ↦ rw e (omega (arith, length-take n h.key, length-drop n h.key))
    | inr e ↦ rw e (omega arith)
  ];
  leaf = λ s k key value p. refl;
  nothing = λ value. refl;
}

pub holds-IsAdditive : (i : ℕ) → IsAdditive (holds i) (gain_slot i)
unfolding holds upper_half leaf_node count
holds-IsAdditive i = record {
  touch = λ h t. refl;
  raise = λ h p. refl;
  cut = λ s h n lt. elim (Option-cases h.value) [
    | inl e ↦ rw e (omega arith)
    | inr (v, e) ↦ rw e (omega (arith, count-take-drop i n v))
  ];
  leaf = λ s k key value p. refl;
  nothing = λ value. refl;
}
