-- ===== src/Radix/Tracks.antt =====
-- The books along a climb: what a lock call does to them is what it does to the sums that they
-- keep.
use sglang_mlx.Prelude.{
  ℕ, ◌+◌, true, false, some, ◌≡◌, refl, ap, ℤ, pos, ltb_ℤ, eqb_ℤ, ◌+ℤ◌, ◌-ℤ◌, int_laws, arith,
  Bool-cases, inl, inr, +ℤ_parts, -ℤ_parts, pos_part, neg_part,
}
use sglang_mlx.Radix.Tree.{TreeNode, Children}
use sglang_mlx.Radix.Weights.{sum_children, sum_tree}
use sglang_mlx.Radix.Measures.{unlocked, locked}
use sglang_mlx.Radix.Lock.{Body, Books, climb_children, inc_node, dec_node, climb_induction}

-- The change of the books is the change of what they count, and `delta` follows the unlocked part.
pub record Tracks (b b' : Books) (u u' l l' : ℕ) : Type 0 where
  pub free : b'.evictable_size_ +ℤ pos u ≡ b.evictable_size_ +ℤ pos u'
  pub taken : b'.protected_size_ +ℤ pos l ≡ b.protected_size_ +ℤ pos l'
  pub change : b'.delta +ℤ b.evictable_size_ ≡ b.delta +ℤ b'.evictable_size_

abbrev pub IsTracking : Body → Type 0
IsTracking body =
    (h : TreeNode) (f : Children) (b : Books)
    → let r = body h f b in Tracks b r.1 (unlocked h) (unlocked r.0) (locked h) (locked r.0)

-- A lock from 0 to 1 moves a node to the locked ones, and no other step of `inc` moves it.
inc_zero :
    (z : ℤ)
    → eqb_ℤ z (pos 0) ≡ true
    → (ltb_ℤ (pos 0) z ≡ false) × (ltb_ℤ (pos 0) (z +ℤ pos 1) ≡ true)
inc_zero z h = ground (arith, +ℤ_parts z (pos 1))

inc_other : (z : ℤ) → eqb_ℤ z (pos 0) ≡ false → ltb_ℤ (pos 0) (z +ℤ pos 1) ≡ ltb_ℤ (pos 0) z
inc_other z h = ground (arith, +ℤ_parts z (pos 1))

dec_one :
    (z : ℤ)
    → eqb_ℤ z (pos 1) ≡ true
    → (ltb_ℤ (pos 0) z ≡ true) × (ltb_ℤ (pos 0) (z -ℤ pos 1) ≡ false)
dec_one z h = ground (arith, -ℤ_parts z (pos 1))

dec_other : (z : ℤ) → eqb_ℤ z (pos 1) ≡ false → ltb_ℤ (pos 0) (z -ℤ pos 1) ≡ ltb_ℤ (pos 0) z
dec_other z h = ground (arith, -ℤ_parts z (pos 1))

pub inc_node-IsTracking : IsTracking inc_node
unfolding inc_node unlocked locked
inc_node-IsTracking h f b = elim (Bool-cases (eqb_ℤ h.lock_ref (pos 0))) [
  | inl e ↦
      let t = inc_zero h.lock_ref e in
      rw (e, t.0, t.1)
        (record { free = omega int_laws; taken = omega int_laws; change = omega int_laws })
  | inr e ↦ rw (e, inc_other h.lock_ref e) (record { free = refl; taken = refl; change = refl })
]

pub dec_node-IsTracking : IsTracking dec_node
unfolding dec_node unlocked locked
dec_node-IsTracking h f b = elim (Bool-cases (eqb_ℤ h.lock_ref (pos 1))) [
  | inl e ↦
      let t = dec_one h.lock_ref e in
      rw (e, t.0, t.1)
        (record { free = omega int_laws; taken = omega int_laws; change = omega int_laws })
  | inr e ↦ rw (e, dec_other h.lock_ref e) (record { free = refl; taken = refl; change = refl })
]

Tracks-still : (b : Books) (u l : ℕ) → Tracks b b u u l l
Tracks-still b u l = record { free = refl; taken = refl; change = refl }

Tracks-join :
    {b b' b'' : Books} (u u' l l' v v' m m' : ℕ)
    → Tracks b b' u u' l l'
    → Tracks b' b'' v v' m m'
    → Tracks b b'' (v + u) (v' + u') (m + l) (m' + l')
Tracks-join u u' l l' v v' m m' t s = record {
  free =
      omega
        (int_laws, ap pos_part t.free, ap neg_part t.free, ap pos_part s.free, ap neg_part s.free);
  taken = omega (
    int_laws,
    ap pos_part t.taken,
    ap neg_part t.taken,
    ap pos_part s.taken,
    ap neg_part s.taken,
  );
  change = omega (
    int_laws,
    ap pos_part t.change,
    ap neg_part t.change,
    ap pos_part s.change,
    ap neg_part s.change,
  );
}

pub climb-Tracks :
    (body : Body)
    → IsTracking body
    → (i : ℕ) (f : Children) (b : Books) (f' : Children) (b' : Books)
    → climb_children body i f b ≡ some (f', b')
    → Tracks b b'
        (sum_children unlocked f)
        (sum_children unlocked f')
        (sum_children locked f)
        (sum_children locked f')
unfolding sum_children
climb-Tracks body tracking =
    climb_induction body
      (λ f b f' b'.
        Tracks b b' (sum_children unlocked f) (sum_children unlocked f') (sum_children locked f)
          (sum_children locked f'))
      (λ t b t' b'.
        Tracks b b' (sum_tree unlocked t) (sum_tree unlocked t') (sum_tree locked t)
          (sum_tree locked t'))
      (λ h f b.
        Tracks-join _ _ _ _ _ _ _ _
          (Tracks-still b (sum_children unlocked f) (sum_children locked f)) (tracking h f b))
      (λ h f b f' b' ih. Tracks-join _ _ _ _ _ _ _ _ ih (tracking h f' b'))
      (λ c t f b t' b' ih.
        Tracks-join _ _ _ _ _ _ _ _
          (Tracks-still b (sum_children unlocked f) (sum_children locked f)) ih)
      (λ c t f b f' b' ih.
        Tracks-join _ _ _ _ _ _ _ _ ih (Tracks-still b' (sum_tree unlocked t) (sum_tree locked t)))
