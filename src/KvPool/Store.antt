-- ===== src/KvPool/Store.antt =====
-- What `update_and_fetch` promises of the tokens in the pool.
use sglang_mlx.Prelude.{
  map, length-append, ℕ, zero, suc, ◌+◌, ◌≤◌, List, [], ◌∷◌, ◌++◌, ◌≡◌, refl, ◌∙◌, sym, ap, ap₂,
  length, take, drop, set, some, get_elem?, count, count-append, count-take-drop, arith,
  length-take, length-drop, append_assoc, ok, get_elem?-set_self, get_elem?-set_ne, ◌≢◌,
}
use sglang_mlx.KvPool.{
  Mlx, MhaTokenPool, PooledKvCache, store, fetch, all_indices, update_and_fetch, nth, nth,
}
use sglang_mlx.KvPool.Rows.{
  IsWithin, AreApart, write, read, length-write, read-write_apart, read-write, read-append,
  take-grow, get_elem?-bound,
}

length-map : {A B : Type 0} (f : A → B) (l : List A) → length (map f l) ≡ length l
length-map f [] = refl
length-map f (x ∷ l) = omega (arith, length-map f l)

-- What the code relies on of the calls on arrays. The rows of an array are its entries along the
-- first axis. Reads and writes by a list of indices are described where the list is not empty and
-- its indices are in range, and a write where no index is there twice; what is written takes the
-- type of the buffer.
pub record ArrayLaws (m : Mlx) : Type 1 where
  pub Row : Type 0
  pub pad : Row
  pub rows : m.Array → List Row
  pub dtype : m.Array → m.Dtype
  pub cast : m.Dtype → Row → Row
  pub rows-gather :
      (a : m.Array) (idx : List ℕ)
      → 1 ≤ length idx
      → IsWithin (length (rows a)) idx
      → rows (m.gather a idx) ≡ read pad (rows a) idx
  pub rows-scatter :
      (a b : m.Array) (idx : List ℕ)
      → 1 ≤ length idx
      → AreApart idx []
      → IsWithin (length (rows a)) idx
      → length idx ≡ length (rows b)
      → rows (m.scatter a idx b) ≡ write (rows a) idx (map (cast (dtype a)) (rows b))
  pub transpose-transpose : (a : m.Array) → m.transpose (m.transpose a) ≡ a
  pub first-expand_dims : (a : m.Array) → m.first (m.expand_dims a) ≡ a
  pub tokens-rows : (a : m.Array) → m.tokens a ≡ length (rows (m.transpose (m.first a)))

module _ (m : Mlx) (laws : ArrayLaws m) where
  -- The tokens of an array in the format of the attention layers.
  abbrev pub token_rows : m.Array → List laws.Row
  token_rows a = laws.rows (m.transpose (m.first a))

  -- The tokens of a buffer in some slots.
  abbrev pub in_slots : m.Array → List ℕ → List laws.Row
  in_slots a idx = read laws.pad (laws.rows a) idx

  -- The tokens of an array as a buffer holds them.
  abbrev pub stored_rows : m.Array → m.Array → List laws.Row
  stored_rows a x = map (laws.cast (laws.dtype a)) (token_rows x)

  length-stored_rows : (a x : m.Array) → length (stored_rows a x) ≡ length (token_rows x)
  length-stored_rows a x = length-map (laws.cast (laws.dtype a)) (token_rows x)

  gathered :
      (a : m.Array) (idx : List ℕ)
      → 1 ≤ length idx
      → IsWithin (length (laws.rows a)) idx
      → token_rows (m.expand_dims (m.transpose (m.gather a idx))) ≡ in_slots a idx
  gathered a idx some_index w =
      ap (λ x. laws.rows (m.transpose x)) (laws.first-expand_dims _)
      ∙ ap laws.rows (laws.transpose-transpose _)
      ∙ laws.rows-gather a idx some_index w

  -- After a write of the tokens of `x`, the slots `old` hold what they held and the written ones
  -- hold the tokens of `x`.
  scattered :
      (a x : m.Array) (old new : List ℕ)
      → AreApart new old
      → AreApart new []
      → IsWithin (length (laws.rows a)) new
      → length new ≡ length (token_rows x)
      → 1 ≤ length new
      → in_slots (m.scatter a new (m.transpose (m.first x))) (old ++ new)
        ≡ in_slots a old ++ stored_rows a x
  scattered a x old new apart once w e some_index =
      let r = write (laws.rows a) new (stored_rows a x) in
      ap (λ q. read laws.pad q (old ++ new)) (laws.rows-scatter a _ new some_index once w e)
      ∙ read-append laws.pad r old new
      ∙ ap₂ ◌++◌ (read-write_apart (laws.rows a) new old (stored_rows a x) laws.pad apart) (
          read-write (laws.rows a) new (stored_rows a x) laws.pad once w
            (e ∙ sym (length-stored_rows a x)))

  -- The slots that the next tokens go to.
  abbrev pub next_slots : PooledKvCache → m.Array → List ℕ
  next_slots c keys = take (m.tokens keys) (drop c.store_offset c.new_indices)

  all_indices-next :
      (c : PooledKvCache) (n : ℕ)
      → all_indices (record c { store_offset = c.store_offset + n })
        ≡ all_indices c ++ take n (drop c.store_offset c.new_indices)
  unfolding all_indices
  all_indices-next c n =
      ap (λ l. c.prefix_indices ++ l) (take-grow c.store_offset n c.new_indices)
      ∙ sym (
          append_assoc c.prefix_indices (take c.store_offset c.new_indices)
            (take n (drop c.store_offset c.new_indices)))

  next_slots-parts :
      (c : PooledKvCache) (n i : ℕ)
      → count i (take n (drop c.store_offset c.new_indices)) + count i (all_indices c)
        ≤ count i c.prefix_indices + count i c.new_indices
  unfolding all_indices
  next_slots-parts c n i = omega (
    arith,
    count-append i c.prefix_indices (take c.store_offset c.new_indices),
    count-take-drop i c.store_offset c.new_indices,
    count-take-drop i n (drop c.store_offset c.new_indices),
  )

  length-next_slots :
      (c : PooledKvCache) (n : ℕ)
      → c.store_offset + n ≤ length c.new_indices
      → length (take n (drop c.store_offset c.new_indices)) ≡ n
  length-next_slots c n h = omega (
    arith,
    length-take n (drop c.store_offset c.new_indices),
    length-drop c.store_offset c.new_indices,
  )

  -- One buffer: what is fetched after the store.
  refetched :
      (a x : m.Array) (c : PooledKvCache) (n : ℕ)
      → AreApart c.prefix_indices c.new_indices
      → IsWithin (length (laws.rows a)) (c.prefix_indices ++ c.new_indices)
      → c.store_offset + n ≤ length c.new_indices
      → m.tokens x ≡ n
      → 1 ≤ n
      → let new = take n (drop c.store_offset c.new_indices) in
        let after = m.scatter a new (m.transpose (m.first x)) in
        let all = all_indices (record c { store_offset = c.store_offset + n }) in
        token_rows (m.expand_dims (m.transpose (m.gather after all)))
        ≡ in_slots a (all_indices c) ++ stored_rows a x
  refetched a x c n apart within room e some_token =
      let new = take n (drop c.store_offset c.new_indices) in
      let after = m.scatter a new (m.transpose (m.first x)) in
      let all = all_indices (record c { store_offset = c.store_offset + n }) in
      let old = all_indices c in
      let full : length new ≡ length (token_rows x) =
        length-next_slots c n room ∙ sym e ∙ laws.tokens-rows x in
      let once : AreApart new [] =
        λ i. unfold count in omega (arith, next_slots-parts c n i, apart i) in
      let inside : IsWithin (length (laws.rows a)) new = λ i q. omega (
        arith,
        next_slots-parts c n i,
        within i q,
        count-append i c.prefix_indices c.new_indices,
      ) in
      let some_slot : 1 ≤ length new = omega (arith, length-next_slots c n room, some_token) in
      let size : length (laws.rows after) ≡ length (laws.rows a) =
        ap length (laws.rows-scatter a _ new some_slot once inside full)
        ∙ length-write (laws.rows a) new (stored_rows a x) in
      gathered after all
        (omega (arith, ap length (all_indices-next c n), length-append old new, some_slot))
        (λ i q. omega (
          arith,
          ap (count i) (all_indices-next c n),
          count-append i old new,
          next_slots-parts c n i,
          count-append i c.prefix_indices c.new_indices,
          within i (omega (arith, q, size)),
        ))
      ∙ ap (in_slots after) (all_indices-next c n)
      ∙ scattered a x old new (λ i. omega (arith, next_slots-parts c n i, apart i)) once inside full
          some_slot

  nth-get : {A : Type 0} (xs : List A) (i : ℕ) (x : A) → get_elem? xs i ≡ some x → nth xs i ≡ ok x
  nth-get [] i x e = absurd (ground arith)
  nth-get (y ∷ xs) zero x e = ground arith
  nth-get (y ∷ xs) (suc i) x e = nth-get xs i x e

  store-ok :
      (p : MhaTokenPool m) (l : ℕ) (idx : List ℕ) (keys values kb vb : m.Array)
      → nth p.k_buffer l ≡ ok kb
      → nth p.v_buffer l ≡ ok vb
      → store m p l idx keys values
        ≡ ok (record p {
          k_buffer = set p.k_buffer l (m.scatter kb idx (m.transpose (m.first keys)));
          v_buffer = set p.v_buffer l (m.scatter vb idx (m.transpose (m.first values)));
        })
  unfolding store
  store-ok p l idx keys values kb vb ek ev = rw (ek, ev) refl

  fetch-ok :
      (p : MhaTokenPool m) (l : ℕ) (idx : List ℕ) (kb vb : m.Array)
      → nth p.k_buffer l ≡ ok kb
      → nth p.v_buffer l ≡ ok vb
      → fetch m p l idx
        ≡ ok (
          m.expand_dims (m.transpose (m.gather kb idx)),
          m.expand_dims (m.transpose (m.gather vb idx)),
        )
  unfolding fetch
  fetch-ok p l idx kb vb ek ev = rw (ek, ev) refl

  -- A call with keys and values for the same number of tokens, at least one, and with room for them,
  -- on a cache whose slots are distinct and in the two buffers of its layer, succeeds: each array
  -- that it returns holds the tokens that the buffer had in the slots of the prefix and of the
  -- earlier tokens, and behind them the tokens of the call, in the type of the buffer, and the cache
  -- counts these as stored. The buffers of other layers are as before.
  pub update_and_fetch_lem :
      (p : MhaTokenPool m) (c : PooledKvCache) (keys values kb vb : m.Array)
      → get_elem? p.k_buffer c.layer_idx ≡ some kb
      → get_elem? p.v_buffer c.layer_idx ≡ some vb
      → AreApart c.prefix_indices c.new_indices
      → IsWithin (length (laws.rows kb)) (c.prefix_indices ++ c.new_indices)
      → IsWithin (length (laws.rows vb)) (c.prefix_indices ++ c.new_indices)
      → c.store_offset + m.tokens keys ≤ length c.new_indices
      → m.tokens values ≡ m.tokens keys
      → 1 ≤ m.tokens keys
      → (k : m.Array) × (v : m.Array) × (d : PooledKvCache) × (q : MhaTokenPool m)
        × (update_and_fetch m p c keys values ≡ ok ((k, v), (d, q)))
        × (token_rows k ≡ in_slots kb (all_indices c) ++ stored_rows kb keys)
        × (token_rows v ≡ in_slots vb (all_indices c) ++ stored_rows vb values)
        × (all_indices d ≡ all_indices c ++ next_slots c keys)
        × ((j : ℕ)
            → c.layer_idx ≢ j
            → (get_elem? q.k_buffer j ≡ get_elem? p.k_buffer j)
              × (get_elem? q.v_buffer j ≡ get_elem? p.v_buffer j))
  unfolding update_and_fetch
  update_and_fetch_lem p c keys values kb vb ek ev apart wk wv room same some_token =
      let l = c.layer_idx in
      let n = m.tokens keys in
      let new = next_slots c keys in
      let k' = m.scatter kb new (m.transpose (m.first keys)) in
      let v' = m.scatter vb new (m.transpose (m.first values)) in
      let q = record p { k_buffer = set p.k_buffer l k'; v_buffer = set p.v_buffer l v' } in
      let d = record c { store_offset = c.store_offset + n } in
      (
        m.expand_dims (m.transpose (m.gather k' (all_indices d))),
        m.expand_dims (m.transpose (m.gather v' (all_indices d))),
        d,
        q,
        rw
            (
              store-ok p l new keys values kb vb (nth-get p.k_buffer l kb ek)
                  (nth-get p.v_buffer l vb ev),
              fetch-ok q l (all_indices d) k' v'
                  (nth-get q.k_buffer l k'
                    (get_elem?-set_self p.k_buffer l k' (get_elem?-bound p.k_buffer l kb ek)))
                  (nth-get q.v_buffer l v'
                    (get_elem?-set_self p.v_buffer l v' (get_elem?-bound p.v_buffer l vb ev))),
            )
            refl,
        refetched kb keys c n apart wk room refl some_token,
        refetched vb values c n apart wv room same some_token,
        all_indices-next c n,
        λ j other. (get_elem?-set_ne p.k_buffer k' other, get_elem?-set_ne p.v_buffer v' other),
      )
