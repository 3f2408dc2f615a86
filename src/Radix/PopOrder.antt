-- ===== src/Radix/PopOrder.antt =====
-- The order of the heap entries, and what `heappop` takes.
use sglang_mlx.Prelude.{
  ℕ, zero, ◌+◌, Bool, true, false, none, some, List, [], ◌∷◌, ◌≡◌, refl, sym, ◌∙◌, ap₂,
  if◌then◌else◌, arith, ℤ, ltb_ℤ, Bool-cases, inl, inr, Option-cases, ◌⊎◌,
}
use sglang_mlx.Radix.Tree.{TreeNode}
use sglang_mlx.Radix.Policy.{Strategy, ltb_rank, ltb_entry}
use sglang_mlx.Radix.Evict.{Entry, entry, heappop}

ltb_ℤ-asym : (x y : ℤ) → ltb_ℤ x y ≡ true → ltb_ℤ y x ≡ false
ltb_ℤ-asym x y h = ground arith

ltb_ℤ-gap : (x y z : ℤ) → ltb_ℤ x y ≡ false → ltb_ℤ y z ≡ false → ltb_ℤ x z ≡ false
ltb_ℤ-gap x y z h k = ground arith

ltb_rank-asym : (a b : List ℤ) → ltb_rank a b ≡ true → ltb_rank b a ≡ false
unfolding ltb_rank
ltb_rank-asym [] [] h = refl
ltb_rank-asym [] (y ∷ b) h = refl
ltb_rank-asym (x ∷ a) [] h = absurd (ground arith)
ltb_rank-asym (x ∷ a) (y ∷ b) h = ground (arith, ltb_ℤ-asym x y, ltb_rank-asym a b)

-- Not being less is transitive, so entries that no comparison tells apart form classes.
ltb_rank-gap : (a b c : List ℤ) → ltb_rank a b ≡ false → ltb_rank b c ≡ false → ltb_rank a c ≡ false
unfolding ltb_rank
ltb_rank-gap a b [] h k = refl
ltb_rank-gap a [] (z ∷ c) h k = absurd (ground arith)
ltb_rank-gap [] (y ∷ b) (z ∷ c) h k = absurd (ground arith)
ltb_rank-gap (x ∷ a) (y ∷ b) (z ∷ c) h k = ground (
  arith,
  ltb_ℤ-gap x y z,
  ltb_ℤ-gap z y x,
  ltb_ℤ-gap y z x,
  ltb_ℤ-gap y x z,
  ltb_ℤ-gap x z y,
  ltb_ℤ-gap z x y,
  ltb_ℤ-asym x y,
  ltb_ℤ-asym y z,
  ltb_ℤ-asym x z,
  ltb_rank-gap a b c,
)

ltb_entry-asym : (x y : Entry) → ltb_entry x y ≡ true → ltb_entry y x ≡ false
unfolding ltb_entry
ltb_entry-asym (a, x) (b, y) h = ground (arith, ltb_rank-asym a b, ltb_rank-asym b a)

ltb_entry-gap :
    (x y z : Entry) → ltb_entry x y ≡ false → ltb_entry y z ≡ false → ltb_entry x z ≡ false
unfolding ltb_entry
ltb_entry-gap (a, x) (b, y) (c, z) h k = ground (
  arith,
  ltb_rank-gap a b c,
  ltb_rank-gap c b a,
  ltb_rank-gap b c a,
  ltb_rank-gap b a c,
  ltb_rank-gap a c b,
  ltb_rank-gap c a b,
  ltb_rank-asym a b,
  ltb_rank-asym b c,
  ltb_rank-asym a c,
)

abbrev pub NoneBefore : Entry → List Entry → Type 0
NoneBefore m [] = Unit
NoneBefore m (e ∷ l) = (ltb_entry e m ≡ false) × NoneBefore m l

unfoldable pub total : (Entry → ℕ) → List Entry → ℕ
total w [] = 0
total w (e ∷ l) = w e + total w l

-- The entries of a heap carry the priorities of their nodes.
abbrev pub AreRanked : Strategy → List Entry → Type 0
AreRanked st [] = Unit
AreRanked st (e ∷ l) = (e ≡ entry st e.1) × AreRanked st l

-- A least entry of a list and the others, the whole list having the same entries.
pub record Least (l : List Entry) (m : Entry) (rest : List Entry) : Type 0 where
  pub none_before : NoneBefore m l
  pub same_entries : (w : Entry → ℕ) → total w l ≡ w m + total w rest
  pub ranked : (st : Strategy) → AreRanked st l → (m ≡ entry st m.1) × AreRanked st rest

NoneBefore-gap :
    (m e : Entry) (l : List Entry) → ltb_entry m e ≡ false → NoneBefore m l → NoneBefore e l
NoneBefore-gap m e [] h v = tt
NoneBefore-gap m e (x ∷ l) h v = (ltb_entry-gap x m e v.0 h, NoneBefore-gap m e l h v.1)

ltb_entry_irrefl : (e : Entry) → ltb_entry e e ≡ false
ltb_entry_irrefl e = elim (Bool-cases (ltb_entry e e)) [ inl h ↦ ltb_entry-asym e e h | inr h ↦ h ]

heappop-nil : (l : List Entry) → heappop l ≡ none → l ≡ []
unfolding heappop
heappop-nil [] h = refl
heappop-nil (e ∷ l) h = elim (Option-cases (heappop l)) [
  | inl q ↦ absurd (ground arith)
  | inr ((m, rest), q) ↦ absurd (ground arith)
]

-- `heappop` on a heap with entries takes one of them, which no entry of the heap comes before, and
-- leaves the others; on an empty heap it takes none.
pub heappop-Least :
    (l : List Entry)
    → ((l ≡ []) × (heappop l ≡ none))
      ⊎ ((m : Entry) × (rest : List Entry) × (heappop l ≡ some (m, rest)) × Least l m rest)
unfolding heappop total
heappop-Least [] = inl (refl, refl)
heappop-Least (e ∷ l) = inr (elim (heappop-Least l) [
  | inl (empty, q) ↦ rw q (
    e,
    [],
    refl,
    record {
      none_before = rw empty (ltb_entry_irrefl e, tt);
      same_entries = λ w. rw empty (omega arith);
      ranked = λ st v. (v.0, tt);
    },
  )
  | inr (m, rest, q, x) ↦ rw q (elim (Bool-cases (ltb_entry m e)) [
    | inl h ↦ rw h (
      m,
      e ∷ rest,
      refl,
      record {
        none_before = (ltb_entry-asym m e h, x.none_before);
        same_entries = λ w. omega (arith, x.same_entries w);
        ranked = λ st v. let u = x.ranked st v.1 in (u.0, (v.0, u.1));
      },
    )
    | inr h ↦ rw h (
      e,
      l,
      refl,
      record {
        none_before = (ltb_entry_irrefl e, NoneBefore-gap m e l h x.none_before);
        same_entries = λ w. refl;
        ranked = λ st v. v;
      },
    )
  ])
])

-- Whether a node comes before `x` in the order of evictions, as a number.
unfoldable pub before : Strategy → TreeNode → TreeNode → ℕ
before st x y = if ltb_entry (entry st y) (entry st x) then 1 else 0

not_before : {b : Bool} → b ≡ false → (if b then 1 else 0) ≡ zero
not_before e = rw e refl

pub heap_sum-before :
    (st : Strategy) (m : Entry) (l : List Entry)
    → m ≡ entry st m.1
    → AreRanked st l
    → NoneBefore m l
    → total (λ e. before st m.1 e.1) l ≡ 0
unfolding total before
heap_sum-before st m [] e v u = refl
heap_sum-before st m (x ∷ l) e v u =
    let here : ltb_entry (entry st x.1) (entry st m.1) ≡ false =
      ap₂ ltb_entry (sym v.0) (sym e) ∙ u.0 in
    omega (arith, heap_sum-before st m l e v.1 u.1, not_before here)
