-- ===== src/Radix/MatchView.antt =====
-- What `_match_prefix_helper` answers, and that its splits change no answer.
use sglang_mlx.Prelude.{
  ℕ, zero, suc, ◌<◌, true, false, List, [], ◌∷◌, ◌++◌, ◌≡◌, refl, ap, fun_ext, sym, if◌then◌else◌,
  length, ltb, take, drop, get_or, arith, ltb→lt, Bool-cases, inl, inr, append-nil,
}
use sglang_mlx.Radix.Tree.{
  Tree, tree, Children, nil, child, Supply, slots, key_match, split_node, upper_half,
}
use sglang_mlx.Radix.Walk.{leads, join, match_children, match_tree}
use sglang_mlx.Radix.View.{along, cached_children, cached_tree, WfChildren, WfTree}

-- Cutting a node in two changes no answer along it.
pub along_cut :
    (n : ℕ) (key v : List ℕ) (below : List ℕ → List ℕ) (q : List ℕ)
    → n < length key
    → length v ≡ length key
    → along
        (take n key)
        (take n v)
        (λ r. if leads (get_or key n 0) r then along (drop n key) (drop n v) below r else [])
        q
      ≡ along key v below q
unfolding along
along_cut n [] v below q h e = absurd (omega arith)
along_cut n (a ∷ key) [] below q h e = absurd (omega arith)
along_cut zero (a ∷ key) (x ∷ v) below [] h e = refl
along_cut zero (a ∷ key) (x ∷ v) below (b ∷ q) h e = ground arith
along_cut (suc n) (a ∷ key) (x ∷ v) below [] h e = refl
along_cut (suc n) (a ∷ key) (x ∷ v) below (b ∷ q) h e =
    rw (along_cut n key v below q (omega arith) (omega arith))

-- A query that parts from the node inside it gets the node's slots up to there.
pub along_part :
    (key v : List ℕ) (below : List ℕ → List ℕ) (q : List ℕ)
    → ltb (key_match key q) (length key) ≡ true
    → length v ≡ length key
    → along key v below q ≡ take (key_match key q) v
unfolding along key_match
along_part [] v below q h e = absurd (ground arith)
along_part (a ∷ key) [] below q h e = absurd (omega arith)
along_part (a ∷ key) (x ∷ v) below [] h e = refl
along_part (a ∷ key) (x ∷ v) below (b ∷ q) h e = ground (arith, along_part key v below q)

-- A query that goes through the whole node goes on below.
pub along_whole :
    (key v : List ℕ) (below : List ℕ → List ℕ) (q : List ℕ)
    → ltb (key_match key q) (length key) ≡ false
    → length v ≡ length key
    → along key v below q ≡ v ++ below (drop (key_match key q) q)
unfolding along key_match
along_whole [] [] below q h e = refl
along_whole [] (x ∷ v) below q h e = absurd (omega arith)
along_whole (a ∷ key) [] below q h e = absurd (omega arith)
along_whole (a ∷ key) (x ∷ v) below [] h e = absurd (ground arith)
along_whole (a ∷ key) (x ∷ v) below (b ∷ q) h e = ground (arith, along_whole key v below q)

-- The walk of a match along a well-formed tree returns the answer of the view, and the tree that
-- it leaves answers every query as before.
mutual
  unfolding match_tree cached_tree split_node upper_half

  pub join-match_children :
      (node : ℕ) (f : Children) (key : List ℕ) (now : ℕ) (s : Supply)
      → WfChildren f
      → join (match_children node f key now s).values ≡ cached_children f key
  join-match_children node nil key now s w = refl
  join-match_children node (child c t f) key now s w = elim (Bool-cases (leads c key)) [
    | inl hit ↦ rw hit (join-match_tree c t key now s w.0)
    | inr miss ↦ rw miss (join-match_children node f key now s w.2)
  ]

  pub join-match_tree :
      (c : ℕ) (t : Tree) (key : List ℕ) (now : ℕ) (s : Supply)
      → WfTree c t
      → join (match_tree t key now s).values ≡ cached_tree t key
  join-match_tree c (tree h f) key now s w =
      elim (Bool-cases (ltb (key_match h.key key) (length h.key))) [
        | inl part ↦
            rw (part, w.0.held)
              (rw append-nil (sym (along_part h.key _ (cached_children f) key part w.0.paired)))
        | inr whole ↦
            rw (whole, w.0.held)
              (rw (join-match_children h.id f (drop (key_match h.key key) key) now s w.1)
                (sym (along_whole h.key _ (cached_children f) key whole w.0.paired)))
      ]

mutual
  unfolding match_tree cached_tree split_node upper_half

  pub cached-match_children :
      (node : ℕ) (f : Children) (key : List ℕ) (now : ℕ) (s : Supply) (q : List ℕ)
      → WfChildren f
      → cached_children (match_children node f key now s).out q ≡ cached_children f q
  cached-match_children node nil key now s q w = refl
  cached-match_children node (child c t f) key now s q w = elim (Bool-cases (leads c key)) [
    | inl hit ↦ rw hit (rw (cached-match_tree c t key now s q w.0))
    | inr miss ↦ rw miss (rw (cached-match_children node f key now s q w.2))
  ]

  pub cached-match_tree :
      (c : ℕ) (t : Tree) (key : List ℕ) (now : ℕ) (s : Supply) (q : List ℕ)
      → WfTree c t
      → cached_tree (match_tree t key now s).out q ≡ cached_tree t q
  cached-match_tree c (tree h f) key now s q w =
      elim (Bool-cases (ltb (key_match h.key key) (length h.key))) [
        | inl part ↦
            rw (part, w.0.held)
              (along_cut (key_match h.key key) h.key w.0.indices (cached_children f) q
                (ltb→lt _ _ part) w.0.paired)
        | inr whole ↦ rw whole (
            ap (λ b. along h.key (slots h.value) b q)
              (fun_ext
                (λ r. cached-match_children h.id f (drop (key_match h.key key) key) now s r w.1)))
      ]
