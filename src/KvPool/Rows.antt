-- ===== src/KvPool/Rows.antt =====
-- Rows that are written and read by lists of indices, and what the pool relies on of the arrays.
use sglang_mlx.Prelude.{
  ℕ, zero, suc, ◌+◌, ◌≤◌, ◌<◌, List, [], ◌∷◌, ◌++◌, ◌≡◌, refl, sym, ◌∙◌, get_elem?, some, ap, ap₂,
  length, take, drop, set, get_or, count, length-set, arith, ◌==◌, false,
}

abbrev pub IsWithin : ℕ → List ℕ → Type 0
IsWithin n idx = (i : ℕ) → n ≤ i → count i idx ≡ 0

-- No index occurs in both lists, and none twice.
abbrev pub AreApart : List ℕ → List ℕ → Type 0
AreApart idx js = (i : ℕ) → count i idx + count i js ≤ 1

module _ {A : Type 0} where
  -- The rows after a write of `vs` at `idx`, one after the other.
  unfoldable pub write : List A → List ℕ → List A → List A
  write rows [] vs = rows
  write rows (i ∷ idx) [] = rows
  write rows (i ∷ idx) (v ∷ vs) = write (set rows i v) idx vs

  unfoldable pub read : A → List A → List ℕ → List A
  read d rows [] = []
  read d rows (i ∷ idx) = get_or rows i d ∷ read d rows idx

  get_or-set :
      (rows : List A) (i j : ℕ) (v d : A)
      → ((i == j) ≡ false → get_or (set rows i v) j d ≡ get_or rows j d)
        × (i < length rows → get_or (set rows i v) i d ≡ v)
  get_or-set [] i j v d = (λ e. refl, λ h. absurd (omega (arith, h)))
  get_or-set (x ∷ rows) zero zero v d = (λ e. absurd (ground arith), λ h. refl)
  get_or-set (x ∷ rows) zero (suc j) v d = (λ e. refl, λ h. refl)
  get_or-set (x ∷ rows) (suc i) zero v d =
      (λ e. refl, λ h. (get_or-set rows i zero v d).1 (omega (arith, h)))
  get_or-set (x ∷ rows) (suc i) (suc j) v d =
      let ih = get_or-set rows i j v d in (λ e. ih.0 (ground arith), λ h. ih.1 (omega (arith, h)))

  pub length-write :
      (rows : List A) (idx : List ℕ) (vs : List A) → length (write rows idx vs) ≡ length rows
  unfolding write
  length-write rows [] vs = refl
  length-write rows (i ∷ idx) [] = refl
  length-write rows (i ∷ idx) (v ∷ vs) = length-write (set rows i v) idx vs ∙ length-set rows i v

  pub get_or-write :
      (rows : List A) (idx : List ℕ) (vs : List A) (j : ℕ) (d : A)
      → count j idx ≡ 0
      → get_or (write rows idx vs) j d ≡ get_or rows j d
  unfolding write count
  get_or-write rows [] vs j d h = refl
  get_or-write rows (i ∷ idx) [] j d h = refl
  get_or-write rows (i ∷ idx) (v ∷ vs) j d h =
      get_or-write (set rows i v) idx vs j d (ground arith)
      ∙ (get_or-set rows i j v d).0 (ground arith)

  pub read-write_apart :
      (rows : List A) (idx js : List ℕ) (vs : List A) (d : A)
      → AreApart idx js
      → read d (write rows idx vs) js ≡ read d rows js
  unfolding read count
  read-write_apart rows idx [] vs d a = refl
  read-write_apart rows idx (j ∷ js) vs d a =
      ap₂ ◌∷◌ (get_or-write rows idx vs j d (ground (arith, a j)))
        (read-write_apart rows idx js vs d (λ i. omega (arith, a i)))

  pub read-write :
      (rows : List A) (idx : List ℕ) (vs : List A) (d : A)
      → AreApart idx []
      → IsWithin (length rows) idx
      → length idx ≡ length vs
      → read d (write rows idx vs) idx ≡ vs
  unfolding read write count
  read-write rows [] [] d a w e = refl
  read-write rows [] (v ∷ vs) d a w e = absurd (omega (arith, e))
  read-write rows (i ∷ idx) [] d a w e = absurd (omega (arith, e))
  read-write rows (i ∷ idx) (v ∷ vs) d a w e =
      ap₂ ◌∷◌
        (get_or-write (set rows i v) idx vs i d (ground (arith, a i))
          ∙ (get_or-set rows i i v d).1 (ground (arith, w i)))
        (read-write (set rows i v) idx vs d (λ j. omega (arith, a j))
          (λ j q. omega (arith, w j (omega (arith, q, length-set rows i v)))) (omega (arith, e)))

  pub read-append :
      (d : A) (rows : List A) (idx js : List ℕ)
      → read d rows (idx ++ js) ≡ read d rows idx ++ read d rows js
  unfolding read
  read-append d rows [] js = refl
  read-append d rows (i ∷ idx) js = ap (◌∷◌ (get_or rows i d)) (read-append d rows idx js)

take-nil : {A : Type 0} (n : ℕ) → take {A = A} n [] ≡ []
take-nil zero = refl
take-nil (suc n) = refl

-- An entry that is there is within bounds.
pub get_elem?-bound :
    {A : Type 0} (xs : List A) (i : ℕ) (x : A) → get_elem? xs i ≡ some x → i < length xs
get_elem?-bound [] i x e = absurd (ground arith)
get_elem?-bound (y ∷ xs) zero x e = omega arith
get_elem?-bound (y ∷ xs) (suc i) x e = omega (arith, get_elem?-bound xs i x e)

pub take-grow :
    {A : Type 0} (k n : ℕ) (xs : List A) → take (k + n) xs ≡ take k xs ++ take n (drop k xs)
take-grow zero n xs = ap (λ k. take k xs) (omega arith)
take-grow (suc k) n [] = take-nil (suc k + n) ∙ sym (take-nil n)
take-grow (suc k) n (x ∷ xs) =
    let e : suc k + n ≡ suc (k + n) = omega arith in
    ap (λ j. take j (x ∷ xs)) e ∙ ap (◌∷◌ x) (take-grow k n xs)
