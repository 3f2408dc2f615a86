-- ===== src/Radix/Overlay.antt =====
-- Lists of tokens and slots: how the overlay of an insertion meets a node of the tree.
use sglang_mlx.Prelude.{
  ℕ, Bool, true, false, not, List, [], ◌∷◌, ◌≡◌, refl, if◌then◌else◌, length, ltb, take, drop,
  get_or, arith, length-drop,
}
use sglang_mlx.Radix.Tree.{key_match}
use sglang_mlx.Radix.Walk.{leads}
use sglang_mlx.Radix.View.{along, overlay}

-- Over an empty answer only the stored entry is left.
pub along-overlay :
    (key value : List ℕ) (q : List ℕ)
    → length value ≡ length key
    → along key value (λ _. []) q ≡ overlay key value [] q
unfolding along overlay
along-overlay [] value q e = refl
along-overlay (a ∷ key) value [] e = refl
along-overlay (a ∷ key) [] (b ∷ q) e = refl
along-overlay (a ∷ key) (x ∷ value) (b ∷ q) e = rw (along-overlay key value q (omega arith))

-- An entry says nothing about a query that begins otherwise.
pub overlay_apart :
    (c : ℕ) (b : Bool) (key value old q : List ℕ)
    → leads c key ≡ b
    → leads c q ≡ not b
    → overlay key value old q ≡ old
unfolding overlay
overlay_apart c b [] value old q h k = refl
overlay_apart c b (a ∷ key) value old [] h k = refl
overlay_apart c b (a ∷ key) [] old (e ∷ q) h k = refl
overlay_apart c true (a ∷ key) (x ∷ value) [] (e ∷ q) h k = ground arith
overlay_apart c false (a ∷ key) (x ∷ value) [] (e ∷ q) h k = ground arith
overlay_apart c true (a ∷ key) (x ∷ value) (y ∷ old) (e ∷ q) h k = ground arith
overlay_apart c false (a ∷ key) (x ∷ value) (y ∷ old) (e ∷ q) h k = ground arith

-- Where the key goes through the whole node, the entry is overlaid on what is below.
pub overlay-along :
    (key value held v : List ℕ) (below : List ℕ → List ℕ) (q : List ℕ)
    → ltb (key_match held key) (length held) ≡ false
    → length v ≡ length held
    → length value ≡ length key
    → let n = key_match held key in
      along held v (λ r. overlay (drop n key) (drop n value) (below r) r) q
      ≡ overlay key value (along held v below q) q
unfolding along overlay key_match
overlay-along key value [] v below q h e k = refl
overlay-along key value (a ∷ held) [] below q h e k = absurd (omega arith)
overlay-along [] value (a ∷ held) (x ∷ v) below q h e k = absurd (ground arith)
overlay-along (b ∷ key) [] (a ∷ held) (x ∷ v) below q h e k = absurd (omega arith)
overlay-along (b ∷ key) (y ∷ value) (a ∷ held) (x ∷ v) below [] h e k = refl
overlay-along (b ∷ key) (y ∷ value) (a ∷ held) (x ∷ v) below (d ∷ q) h e k =
    ground (arith, overlay-along key value held v below q)

-- Where the key parts from the node inside it, the rest of the entry stands beside the lower half.
pub overlay-along_cut :
    (key value held v : List ℕ) (below : List ℕ → List ℕ) (q : List ℕ)
    → ltb (key_match held key) (length held) ≡ true
    → length v ≡ length held
    → length value ≡ length key
    → let n = key_match held key in
      along
        (take n held)
        (take n v)
        (λ r.
          if leads (get_or held n 0) r
          then along (drop n held) (drop n v) below r
          else overlay (drop n key) (drop n value) [] r)
        q
      ≡ overlay key value (along held v below q) q
unfolding along overlay key_match
overlay-along_cut key value [] v below q h e k = absurd (ground arith)
overlay-along_cut key value (a ∷ held) [] below q h e k = absurd (omega arith)
overlay-along_cut [] value (a ∷ held) (x ∷ v) below [] h e k = refl
overlay-along_cut [] value (a ∷ held) (x ∷ v) below (d ∷ q) h e k = ground arith
overlay-along_cut (b ∷ key) [] (a ∷ held) (x ∷ v) below q h e k = absurd (omega arith)
overlay-along_cut (b ∷ key) (y ∷ value) (a ∷ held) (x ∷ v) below [] h e k = ground arith
overlay-along_cut (b ∷ key) (y ∷ value) (a ∷ held) (x ∷ v) below (d ∷ q) h e k =
    ground (arith, overlay-along_cut key value held v below q)

-- A key and its value stay paired when both lose their first entries.
pub paired-drop :
    (n : ℕ) (key value : List ℕ)
    → length value ≡ length key
    → length (drop n value) ≡ length (drop n key)
paired-drop n key value e = omega (arith, length-drop n key, length-drop n value)
