-- ===== src/Radix/Locks/Cut.antt =====
-- `_delete_leaf` takes a node that nothing holds: the locks count as before, and the nodes that are
-- held keep their places.
use mathlib.Core.Option
use sglang_mlx.Prelude.{
  ℕ, ◌+◌, ◌≤◌, Option, none, some, List, [], ◌∷◌, ◌==◌, ◌≡◌, refl, sym, ◌∙◌, ap, arith, count, pos,
  Bool-cases, inl, inr, subst,
}
use sglang_mlx.Radix.Tree.{TreeNode, Tree, tree, Children, nil, child}
use sglang_mlx.Radix.Walk.{leads}
use sglang_mlx.Radix.Weights.{sum_children, sum_tree}
use sglang_mlx.Radix.Evict.LeafSums.{at_id}
use sglang_mlx.Radix.Evict.Round.{hot}
use sglang_mlx.Radix.Evict.Loop.{CutOff}
use sglang_mlx.Radix.Evict.{
  Parent, remove_child, detach_tree, detach_children, put_tree, keep_tree, under, removed,
}
use sglang_mlx.Radix.Locks.Counts.{held_at, LockedChildren, LockedTree, Counts}
use sglang_mlx.Radix.Locks.Ends.{strip, end_or, end_children, end_tree, end_or-Stays, if-Stays}

-- A held node keeps its place.
abbrev pub StaysHeld : List ℕ → (List ℕ → Option ℕ) → (List ℕ → Option ℕ) → Type 0
StaysHeld held after before =
    (q : List ℕ) (j : ℕ) → 1 ≤ count j held → before q ≡ some j → after q ≡ some j

end_or-weighs :
    (w : TreeNode → ℕ) (h : TreeNode) (bound n : ℕ) (below : List ℕ → Option ℕ)
    (r : Option (List ℕ)) (j : ℕ)
    → ((k : TreeNode) → k.id ≡ j → n ≤ w k)
    → ((q : List ℕ) → below q ≡ some j → n ≤ bound)
    → end_or h.id below r ≡ some j
    → n ≤ w h + bound
end_or-weighs w h bound n below none j at le e = absurd cc
end_or-weighs w h bound n below (some []) j at le e = omega (arith, at h (ground arith))
end_or-weighs w h bound n below (some (b ∷ q)) j at le e = omega (arith, le (b ∷ q) e)

-- A node where a query ends weighs in every dictionary that it stands in.
mutual
  unfolding end_children sum_children

  pub end-weighs :
      (w : TreeNode → ℕ) (n : ℕ) (f : Children) (q : List ℕ) (j : ℕ)
      → ((k : TreeNode) → k.id ≡ j → n ≤ w k)
      → end_children f q ≡ some j
      → n ≤ sum_children w f
  end-weighs w n nil q j at e = absurd cc
  end-weighs w n (child c t f) q j at e = elim (Bool-cases (leads c q)) [
    | inl on ↦ omega (arith, end-weighs_tree w n t q j at (ground arith))
    | inr off ↦ omega (arith, end-weighs w n f q j at (ground arith))
  ]

  end-weighs_tree :
      (w : TreeNode → ℕ) (n : ℕ) (t : Tree) (q : List ℕ) (j : ℕ)
      → ((k : TreeNode) → k.id ≡ j → n ≤ w k)
      → end_tree t q ≡ some j
      → n ≤ sum_tree w t
  end-weighs_tree w n (tree h f) q j at e =
      end_or-weighs w h (sum_children w f) n (end_children f) (strip h.key q) j at
        (λ r k. end-weighs w n f r j at k) e

-- The locks at a node are among those of every tree that it stands in.
end-counted_tree :
    (held : List ℕ) (t : Tree) (q : List ℕ) (j : ℕ)
    → end_tree t q ≡ some j
    → count j held ≤ sum_tree (held_at held) t
unfolding held_at
end-counted_tree held t q j e =
    end-weighs_tree (held_at held) (count j held) t q j (λ k same. rw same (omega arith)) e

-- A dictionary after a cut.
abbrev pub IsCut : List ℕ → Children → Children → Type 0
IsCut held f f' = Counts held f f' × StaysHeld held (end_children f') (end_children f)

-- The entry of a node that is not locked goes: nothing is held in it.
removed-IsCut :
    (held : List ℕ) (c : ℕ) (h : TreeNode) (g f : Children)
    → hot h ≡ 0
    → LockedChildren held (child c (tree h g) f)
    → IsCut held (child c (tree h g) f) f
unfolding LockedChildren sum_children end_children
removed-IsCut held c h g f cold u =
    let free : held_at held h + sum_children (held_at held) g ≡ 0 = ground (arith, u.0.0, cold) in
    (
      (u.1, omega (arith, free)),
      λ q j some_held e. elim (Bool-cases (leads c q)) [
        | inl on ↦ absurd (
            omega (
              arith,
              some_held,
              free,
              end-counted_tree held (tree h g) q j (unfold end_children in ground arith),
            ))
        | inr off ↦ ground arith
      ],
    )

later-IsCut :
    (held : List ℕ) (c : ℕ) (t : Tree) (f f' : Children)
    → LockedTree held t
    → IsCut held f f'
    → IsCut held (child c t f) (child c t f')
unfolding LockedChildren sum_children end_children
later-IsCut held c t f f' u ((w, e), s) = (
  ((u, w), omega (arith, e)),
  λ q j some_held k. if-Stays (leads c q) _ _ _ _ j (λ x. x) (s q j some_held) k,
)

below-IsCut :
    (held : List ℕ) (c : ℕ) (h : TreeNode) (g g' f : Children)
    → LockedChildren held (child c (tree h g) f)
    → IsCut held g g'
    → IsCut held (child c (tree h g) f) (child c (tree h g') f)
unfolding LockedChildren sum_children end_children
below-IsCut held c h g g' f u ((w, e), s) = (
  (((u.0.0 ∙ ap pos (omega (arith, e)), w), u.1), omega (arith, e)),
  λ q j some_held k.
      if-Stays (leads c q) _ _ _ _ j
        (end_or-Stays h.id (end_children g') (end_children g) (strip h.key q) j
          (λ r. s r j some_held))
        (λ x. x) k,
)

abbrev RemovedCut : List ℕ → Children → Option Children → Type 0
RemovedCut held f none = Unit
RemovedCut held f (some f') = IsCut held f f'

RemovedCut-later :
    (held : List ℕ) (c : ℕ) (t : Tree) (f : Children) (r : Option Children)
    → LockedTree held t
    → RemovedCut held f r
    → RemovedCut held (child c t f) (Option.map (child c t) r)
RemovedCut-later held c t f none u p = tt
RemovedCut-later held c t f (some f') u p = later-IsCut held c t f f' u p

remove_child-IsCut :
    (held : List ℕ) (i : ℕ) (f : Children)
    → sum_children (at_id i hot) f ≡ 0
    → LockedChildren held f
    → RemovedCut held f (remove_child i f)
unfolding remove_child sum_children at_id LockedChildren
remove_child-IsCut held i nil cold u = tt
remove_child-IsCut held i (child c (tree h g) f) cold u = elim (Bool-cases (h.id == i)) [
  | inl e ↦ rw e (removed-IsCut held c h g f (ground arith) u)
  | inr e ↦ rw e (
      RemovedCut-later held c (tree h g) f _ u.0
        (remove_child-IsCut held i f (omega (arith, cold)) u.1))
]

abbrev pub DetachedTree : List ℕ → Tree → Option (Tree × Parent) → Type 0
DetachedTree held t none = Unit
DetachedTree held (tree h f) (some (t', p)) = (f' : Children) × (t' ≡ tree h f') × IsCut held f f'

abbrev DetachedChildren : List ℕ → Children → Option (Children × Parent) → Type 0
DetachedChildren held f none = Unit
DetachedChildren held f (some (f', p)) = IsCut held f f'

DetachedTree-join :
    (held : List ℕ) (h : TreeNode) (f : Children) (r : Option Children)
    (d : Option (Children × Parent))
    → RemovedCut held f r
    → DetachedChildren held f d
    → DetachedTree held (tree h f) (removed h r (under h d))
DetachedTree-join held h f (some f') d u v = (f', refl, u)
DetachedTree-join held h f none none u v = tt
DetachedTree-join held h f none (some (f', p)) u v = (f', refl, v)

DetachedChildren-join :
    (held : List ℕ) (c : ℕ) (h : TreeNode) (g f : Children) (t : Option (Tree × Parent))
    (d : Option (Children × Parent))
    → LockedChildren held (child c (tree h g) f)
    → DetachedTree held (tree h g) t
    → DetachedChildren held f d
    → DetachedChildren held (child c (tree h g) f) (put_tree c f t (keep_tree c (tree h g) d))
unfolding LockedChildren
DetachedChildren-join held c h g f (some (t, p)) d u (g', same, v) w =
    rw same (below-IsCut held c h g g' f u v)
DetachedChildren-join held c h g f none none u v w = tt
DetachedChildren-join held c h g f none (some (f', p)) u v w =
    later-IsCut held c (tree h g) f f' u.0 w

mutual
  unfolding detach_tree sum_children LockedChildren

  pub detach_tree-IsCut :
      (held : List ℕ) (i : ℕ) (t : Tree)
      → sum_tree (at_id i hot) t ≡ 0
      → LockedTree held t
      → DetachedTree held t (detach_tree i t)
  detach_tree-IsCut held i (tree h f) cold u =
      DetachedTree-join held h f (remove_child i f) (detach_children i f)
        (remove_child-IsCut held i f (omega (arith, cold)) u.1)
        (detach_children-IsCut held i f (omega (arith, cold)) u.1)

  detach_children-IsCut :
      (held : List ℕ) (i : ℕ) (f : Children)
      → sum_children (at_id i hot) f ≡ 0
      → LockedChildren held f
      → DetachedChildren held f (detach_children i f)
  detach_children-IsCut held i nil cold u = tt
  detach_children-IsCut held i (child c (tree h g) f) cold u =
      DetachedChildren-join held c h g f (detach_tree i (tree h g)) (detach_children i f) u
        (detach_tree-IsCut held i (tree h g) (omega (arith, cold)) u.0)
        (detach_children-IsCut held i f (omega (arith, cold)) u.1)

detach_root-IsCut :
    (held : List ℕ) (i : ℕ) (h : TreeNode) (f : Children)
    → sum_children (at_id i hot) f ≡ 0
    → LockedChildren held f
    → DetachedTree held (tree h f) (detach_tree i (tree h f))
unfolding detach_tree
detach_root-IsCut held i h f cold u =
    DetachedTree-join held h f (remove_child i f) (detach_children i f)
      (remove_child-IsCut held i f cold u) (detach_children-IsCut held i f cold u)

subtrees : Tree → Children
subtrees (tree h f) = f

-- A cut below the root whose result is known.
detached-IsCut :
    (held : List ℕ) (i : ℕ) (h : TreeNode) (f f' : Children) (p : Parent)
    → detach_tree i (tree h f) ≡ some (tree h f', p)
    → sum_children (at_id i hot) f ≡ 0
    → LockedChildren held f
    → IsCut held f f'
unfolding subtrees
detached-IsCut held i h f f' p e cold u =
    let (g, same, cut) =
      subst (DetachedTree held (tree h f)) e (detach_root-IsCut held i h f cold u) in
    subst (IsCut held f) (sym (ap subtrees same)) cut

-- Victims are cut off one after the other.
pub CutOff-IsCut :
    (held : List ℕ) (root : TreeNode) (f : Children) (l : List TreeNode) (g : Children)
    → CutOff root f l g
    → LockedChildren held f
    → IsCut held f g
CutOff-IsCut held root f [] g e u = rw e ((u, refl), λ q j some_held k. k)
CutOff-IsCut held root f (x ∷ l) g (f', p, e, cold, rest) u =
    let ((w, sum), stays) = detached-IsCut held x.id root f f' p e cold u in
    let ((w', sum'), stays') = CutOff-IsCut held root f' l g rest w in
    ((w', sum' ∙ sum), λ q j some_held k. stays' q j some_held (stays q j some_held k))
