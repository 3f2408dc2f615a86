-- ===== src/Radix/InsertView.antt =====
-- What `_insert_helper` stores: every query is answered by the overlay of the entry.
use sglang_mlx.Prelude.{
  ℕ, true, false, List, [], ◌∷◌, ◌≡◌, refl, sym, ap, fun_ext, ◌∙◌, if◌then◌else◌, length, ltb, take,
  drop, get_or, ℤ, arith, Bool-cases, inl, inr,
}
use sglang_mlx.Radix.Tree.{
  TreeNode, Tree, tree, Children, nil, child, Supply, key_match, upper_half,
}
use sglang_mlx.Radix.Walk.{leads, add_leaf, insert_children, insert_tree}
use sglang_mlx.Radix.View.{along, overlay, cached_children, cached_tree, WfChildren, WfTree}
use sglang_mlx.Radix.Overlay.{
  along-overlay, overlay_apart, overlay-along, overlay-along_cut, paired-drop,
}

cached-add_leaf :
    (node : TreeNode) (all : Children) (key value : List ℕ) (p : ℤ) (s : Supply) (l q : List ℕ)
    → length value ≡ length key
    → cached_children (add_leaf node all key value p s l).out q ≡ overlay key value [] q
unfolding add_leaf cached_tree along overlay
cached-add_leaf node all [] value p s l q e = refl
cached-add_leaf node all (k ∷ key) [] p s l q e = absurd (omega arith)
cached-add_leaf node all (k ∷ key) (x ∷ value) p s l [] e = refl
cached-add_leaf node all (k ∷ key) (x ∷ value) p s l (b ∷ q) e =
    ground (arith, along-overlay (k ∷ key) (x ∷ value) (b ∷ q))

mutual
  unfolding insert_tree cached_tree upper_half

  pub cached-insert_children :
      (node : TreeNode) (all f : Children) (key value : List ℕ) (p : ℤ) (now : ℕ) (s : Supply)
      (l q : List ℕ)
      → WfChildren f
      → length value ≡ length key
      → cached_children (insert_children node all f key value p now s l).out q
        ≡ overlay key value (cached_children f q) q
  cached-insert_children node all nil key value p now s l q w e =
      cached-add_leaf node all key value p s l q e
  cached-insert_children node all (child c t f) key value p now s l q w e =
      elim (Bool-cases (leads c key)) [
        | inl hit ↦ rw hit (elim (Bool-cases (leads c q)) [
          | inl here ↦ rw here (cached-insert_tree c t key value p now s l q w.0 e)
          | inr apart ↦ rw apart (sym (overlay_apart c true key value _ q hit apart))
        ])
        | inr miss ↦ rw miss (elim (Bool-cases (leads c q)) [
          | inl here ↦ rw here (sym (overlay_apart c false key value _ q miss here))
          | inr apart ↦ rw apart (cached-insert_children node all f key value p now s l q w.2 e)
        ])
      ]

  pub cached-insert_tree :
      (c : ℕ) (t : Tree) (key value : List ℕ) (p : ℤ) (now : ℕ) (s : Supply) (l q : List ℕ)
      → WfTree c t
      → length value ≡ length key
      → cached_tree (insert_tree t key value p now s l).out q
        ≡ overlay key value (cached_tree t q) q
  cached-insert_tree c (tree h f) key value p now s l q w e =
      let n = key_match h.key key in
      elim (Bool-cases (ltb n (length h.key))) [
        | inl part ↦
            rw (part, w.0.held)
              (ap (λ b. along (take n h.key) (take n w.0.indices) b q)
                  (fun_ext (λ r.
                    ap
                      (λ b.
                        if leads (get_or h.key n 0) r
                        then along (drop n h.key) (drop n w.0.indices) (cached_children f) r
                        else b)
                      (cached-add_leaf _ _ (drop n key) (drop n value) p _ l r
                        (paired-drop n key value e))))
                ∙ overlay-along_cut key value h.key w.0.indices (cached_children f) q part
                    w.0.paired e)
        | inr whole ↦
            rw (whole, w.0.held)
              (ap (λ b. along h.key w.0.indices b q)
                  (fun_ext (λ r.
                    cached-insert_children _ f f (drop n key) (drop n value) p now s l r w.1
                      (paired-drop n key value e)))
                ∙ overlay-along key value h.key w.0.indices (cached_children f) q whole w.0.paired
                    e)
      ]
