-- ===== src/Radix/Answers.antt =====
-- The answers of the cache after insertions: they only grow.
use sglang_mlx.Prelude.{
  ℕ, ◌≤◌, List, [], ◌∷◌, ◌==◌, ◌≡◌, refl, ◌∙◌, ap, arith, length, drop, Bool-cases, inl, inr,
  length-append, length-drop,
}
use sglang_mlx.Radix.View.{overlay}
use sglang_mlx.Radix.InsertPrefix.{overlay_self}
use sglang_mlx.Radix.Evict.View.{IsPrefix, IsPrefix-refl}

-- An insertion only adds to an answer.
pub overlay-grows : (key value old q : List ℕ) → IsPrefix old (overlay key value old q)
unfolding overlay
overlay-grows [] value old q = IsPrefix-refl old
overlay-grows (a ∷ key) value old [] = IsPrefix-refl old
overlay-grows (a ∷ key) [] old (b ∷ q) = IsPrefix-refl old
overlay-grows (a ∷ key) (x ∷ value) [] (b ∷ q) = (_, refl)
overlay-grows (a ∷ key) (x ∷ value) (y ∷ old) (b ∷ q) = elim (Bool-cases (a == b)) [
  | inl e ↦ rw e (let (rest, k) = overlay-grows key value old q in (rest, ap (◌∷◌ y) k))
  | inr e ↦ rw e (IsPrefix-refl (y ∷ old))
]

-- After an insertion, the inserted tokens are all cached.
pub overlay_whole :
    (key value old : List ℕ)
    → length value ≡ length key
    → length old ≤ length key
    → length (overlay key value old key) ≡ length key
overlay_whole key value old e small =
    ap length (overlay_self key value old e small)
    ∙ omega (
      arith,
      length-append old (drop (length old) value),
      length-drop (length old) value,
      e,
      small,
    )
