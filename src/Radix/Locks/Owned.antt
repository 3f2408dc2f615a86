-- ===== src/Radix/Locks/Owned.antt =====
-- What a client's lock guards: its tokens keep their slots, whatever the other calls do.
use sglang_mlx.Prelude.{
  ℕ, ◌<◌, false, some, List, [], ◌≡◌, refl, sym, ◌∙◌, arith, length, take, drop, Bool-cases, inl,
  inr, ◌⊎◌, length-take, take-append-drop, subst, ◌||◌,
}
use sglang_mlx.Radix.Tree.{tick, monotonic}
use sglang_mlx.Radix.MatchView.{join-match_children}
use sglang_mlx.Radix.Leaves.{is_id}
use sglang_mlx.Radix.Refine.{cached, IsWellFormed}
use sglang_mlx.Radix.InsertPrefix.{length-cached_children-le}
use sglang_mlx.Radix.Extends.{cached_children-Extends}
use sglang_mlx.Radix.Evict.View.{IsPrefix}
use sglang_mlx.Radix.Cache.{RadixCache, match_prefix, is_empty}
use sglang_mlx.Radix.Locks.Matched.{EndsAt, match_children-EndsAt}
use sglang_mlx.Radix.Locks.Cut.{end-weighs}
use sglang_mlx.Radix.Locks.Whole.{end-whole, cached-nil, IsPrefix-same}
use sglang_mlx.Radix.Locks.Calls.{IsHeld, ends, match-IsHeld}
use sglang_mlx.Radix.Locks.Clients.{Lock, Owns}

-- The place of a lock.
abbrev pub HasPlace : RadixCache → List ℕ → ℕ → Type 0
HasPlace c key node = (key ≡ []) ⊎ (ends c key ≡ some node)

pub place-whole :
    (held : List ℕ) (c : RadixCache) (key : List ℕ) (node : ℕ)
    → IsHeld held c
    → HasPlace c key node
    → length (cached c key) ≡ length key
place-whole held c key node v (inl e) = rw e (cached-nil c.children)
place-whole held c key node v (inr e) = end-whole c.children key node (v.kept.leaves 0).shape e

-- A lock that keeps its place keeps its slots, if the answers only grow or only shrink.
pub Owns-keeps :
    (held held' : List ℕ) (c d : RadixCache) (x : Lock)
    → IsHeld held c
    → IsHeld held' d
    → (ends c x.key ≡ some x.node → ends d x.key ≡ some x.node)
    → IsPrefix (cached c x.key) (cached d x.key) ⊎ IsPrefix (cached d x.key) (cached c x.key)
    → Owns c x
    → Owns d x
Owns-keeps held held' c d x v u stays near o =
    let place : HasPlace d x.key x.node = elim o.place [ inl e ↦ inl e | inr e ↦ inr (stays e) ] in
    let before = place-whole held c x.key x.node v o.place in
    let after = place-whole held' d x.key x.node u place in
    record {
      place = place;
      slots = elim near [
        | inl p ↦
            sym (IsPrefix-same (cached c x.key) (cached d x.key) p (omega (arith, before, after)))
            ∙ o.slots
        | inr p ↦
            IsPrefix-same (cached d x.key) (cached c x.key) p (omega (arith, before, after))
            ∙ o.slots
      ];
    }

-- An id in the tree, or that of the root, was given out.
given_root : (held : List ℕ) (c : RadixCache) → IsHeld held c → c.root.id < c.supply.counter
unfolding is_id
given_root held c v = ground (arith, (v.kept.leaves c.root.id).fresh)

given_end :
    (held : List ℕ) (c : RadixCache) (q : List ℕ) (i : ℕ)
    → IsHeld held c
    → ends c q ≡ some i
    → i < c.supply.counter
given_end held c q i v e =
    let present =
      end-weighs (is_id i) 1 c.children q i (λ k same. unfold is_id in ground arith) e in
    ground (arith, present, (v.kept.leaves i).fresh)

pub root-match : (c : RadixCache) (q : List ℕ) → (match_prefix c q).1.root.id ≡ c.root.id
unfolding match_prefix
root-match c q = ground arith

pub match_prefix-EndsAt :
    (c : RadixCache) (q : List ℕ)
    → IsWellFormed c
    → c.disable ≡ false
    → let (found, d) = match_prefix c q in
      EndsAt c.root.id (length found.device_indices) found.last_node q (ends d)
unfolding match_prefix
match_prefix-EndsAt c q w on = elim (Bool-cases (c.disable || is_empty q)) [
  | inl skip ↦ rw skip (inl (refl, refl))
  | inr walk ↦
      let now = monotonic c.supply in
      let s = tick c.supply in
      rw (walk, join-match_children c.root.id c.children q now s w)
        (match_children-EndsAt c.root.id c.children q now s w)
]

-- The last node of a match was given out, and is where the matched tokens end.
matched-HasPlace :
    (held : List ℕ) (c d : RadixCache) (q : List ℕ) (m last : ℕ)
    → IsHeld held d
    → d.root.id ≡ c.root.id
    → EndsAt c.root.id m last q (ends d)
    → HasPlace d (take m q) last × (last < d.supply.counter)
matched-HasPlace held c d q m last v same (inl (nothing, e)) =
    (inl (rw nothing refl), rw (e, ← same) (given_root held d v))
matched-HasPlace held c d q m last v same (inr (some_found, e)) =
    (inr e, given_end held d (take m q) last v e)

pub match_prefix-HasPlace :
    (held : List ℕ) (c : RadixCache) (q : List ℕ)
    → IsHeld held c
    → let (found, d) = match_prefix c q in
      HasPlace d (take (length found.device_indices) q) found.last_node
      × (found.last_node < d.supply.counter)
match_prefix-HasPlace held c q v =
    let (found, d) = match_prefix c q in
    matched-HasPlace held c d q (length found.device_indices) found.last_node
      (match-IsHeld held c q v).0 (root-match c q)
      (match_prefix-EndsAt c q (v.kept.leaves 0).shape v.enabled)

-- The matched tokens have the slots of the answer.
pub cached-matched :
    (held : List ℕ) (d : RadixCache) (q : List ℕ) (node : ℕ)
    → IsHeld held d
    → HasPlace d (take (length (cached d q)) q) node
    → cached d (take (length (cached d q)) q) ≡ cached d q
cached-matched held d q node v place =
    let m = length (cached d q) in
    let small = length-cached_children-le d.children q (v.kept.leaves 0).shape in
    let grows : IsPrefix (cached d (take m q)) (cached d q) =
      subst (λ p. IsPrefix (cached d (take m q)) (cached d p)) (take-append-drop m q)
        (cached_children-Extends d.children (take m q) (drop m q)) in
    IsPrefix-same (cached d (take m q)) (cached d q) grows
      (omega (arith, place-whole held d (take m q) node v place, length-take m q, small))
