-- ===== src/ModelRunner/Generates.antt =====
-- Any number of calls of `generate`, and what their locks leave.
use sglang_mlx.Prelude.{
  ℕ, zero, suc, ◌≤◌, Option, some, List, [], ◌∷◌, ◌≡◌, refl, sym, ◌∙◌, ap, Bool-cases, inl, inr,
  ◌⊎◌, Result, ok, raise, pos, subst,
}
use sglang_mlx.KvPool.{Mlx}
use sglang_mlx.Radix.Tree.{Supply, nil, contains}
use sglang_mlx.Radix.Cache.{RadixCache, protected_size}
use sglang_mlx.Radix.Evict.{evict}
use sglang_mlx.Radix.Locks.Clients.{Lock}
use sglang_mlx.Radix.Locks.Sizes.{guarded-none, idle-evict, IsHeld-sizes}
use sglang_mlx.ModelRunner.State.{RequestState, Network, ForwardResult, ModelRunner, new_runner}
use sglang_mlx.ModelRunner.Prefill.{forward_prefill}
use sglang_mlx.ModelRunner.Decode.{forward_decode}
use sglang_mlx.ModelRunner.Generate.{
  Generated, put_token, continue, generate_loop, finished, generate_from, generate,
}
use sglang_mlx.ModelRunner.PlanLaws.{HasSlots}
use sglang_mlx.ModelRunner.PrefillLaws.{PrefillLem, forward_prefill_lem}
use sglang_mlx.ModelRunner.DecodeLaws.{DecodeLem, forward_decode_lem}
use sglang_mlx.ModelRunner.Guarded.{
  lock_of, Guards, ready, PrefillGuards, forward_prefill-Guards, DecodeGuards,
  forward_decode-Guards, finish_request-Guards,
}
use sglang_mlx.ModelRunner.Turns.{Begins, new_runner-IsGuarding}

-- The lock of the request, and those of the others, in the loop of `generate`.
abbrev LoopGuards : (m : Mlx) → Lock → List Lock → Generated m → Type 0
LoopGuards m x l (raise e, (s, r)) = Guards r.radix_cache (x ∷ l)
LoopGuards m x l (ok tokens, (s, r)) = Guards r.radix_cache (x ∷ l) × (lock_of s ≡ x)

put_token-Guards :
    (m : Mlx) (x : Lock) (l : List Lock) (token : ℕ) (rest : Generated m)
    → LoopGuards m x l rest
    → LoopGuards m x l (put_token m token rest)
put_token-Guards m x l token (raise e, after) v = v
put_token-Guards m x l token (ok tokens, after) v = v

-- A request in the loop.
abbrev IsLocked : (m : Mlx) → Lock → List Lock → RequestState → ModelRunner m → Type 0
IsLocked m x l s r = HasSlots s × (lock_of s ≡ x) × Guards r.radix_cache (x ∷ l)

continue-Guards :
    (m : Mlx) (x : Lock) (l : List Lock) (s : RequestState) (token : ℕ) (r : ModelRunner m)
    (next : RequestState → m.Array → ModelRunner m → Generated m)
    (result : Result (ForwardResult m) × (RequestState × ModelRunner m))
    → ((s' : RequestState) (logits : m.Array) (after : ModelRunner m)
        → IsLocked m x l s' after
        → LoopGuards m x l (next s' logits after))
    → lock_of s ≡ x
    → DecodeLem m r s token result
    → DecodeGuards m (x ∷ l) s result
    → LoopGuards m x l (continue m next result)
continue-Guards m x l s token r next (raise e, (s', after)) goes same d (g, kept) = g
continue-Guards m x l s token r next (ok f, (s', after)) goes same d (g, kept) =
    goes s' f.logits after (d.slots, kept ∙ same, g)

loop-Guards :
    (m : Mlx) (n : Network m) (sampler : m.Array → ℕ) (stop : List ℕ) (rounds : ℕ) (x : Lock)
    (l : List Lock) (s : RequestState) (logits : m.Array) (r : ModelRunner m)
    → IsLocked m x l s r
    → LoopGuards m x l (generate_loop m n sampler stop rounds s logits r)
unfolding generate_loop
loop-Guards m n sampler stop zero x l s logits r (h, same, g) = (g, same)
loop-Guards m n sampler stop (suc rounds) x l s logits r (h, same, g) =
    let token = sampler logits in
    let next = loop-Guards m n sampler stop rounds x l in
    elim (Bool-cases (contains token stop)) [
      | inl e ↦ rw e (g, same)
      | inr e ↦ rw e (
          put_token-Guards m x l token _ (
            continue-Guards m x l s token r _ (forward_decode m n r s token)
              (λ s' out after. next s' out after) same
              (forward_decode_lem m n r s token (ready r.radix_cache (x ∷ l) g) h)
              (forward_decode-Guards m n r s token (x ∷ l) h g)))
    ]

-- What a call of `generate` leaves of the locks of others: an exception may leave one more.
abbrev pub GenerateGuards : (m : Mlx) → List Lock → Result (List ℕ) × ModelRunner m → Type 0
GenerateGuards m l (raise e, after) =
    Guards after.radix_cache l ⊎ ((x : Lock) × Guards after.radix_cache (x ∷ l))
GenerateGuards m l (ok tokens, after) = Guards after.radix_cache l

finished-Guards :
    (m : Mlx) (x : Lock) (l : List Lock) (result : Generated m)
    → LoopGuards m x l result
    → GenerateGuards m l (finished m result)
finished-Guards m x l (raise e, (s, r)) v = inr (x, v)
finished-Guards m x l (ok tokens, (s, r)) (g, same) =
    finish_request-Guards m r [] l s (subst (λ y. Guards r.radix_cache (y ∷ l)) (sym same) g)

from-Guards :
    (m : Mlx) (n : Network m) (sampler : m.Array → ℕ) (stop : List ℕ) (max_tokens : ℕ)
    (r0 : ModelRunner m) (prompt : List ℕ) (l : List Lock)
    (result : Result (RequestState × ForwardResult m) × ModelRunner m)
    → PrefillLem m r0 prompt result
    → PrefillGuards m l result
    → GenerateGuards m l (generate_from m n sampler stop max_tokens result)
from-Guards m n sampler stop max_tokens r0 prompt l (raise e, r) p g = inl g
from-Guards m n sampler stop max_tokens r0 prompt l (ok (s, f), r) p g =
    finished-Guards m (lock_of s) l _
      (loop-Guards m n sampler stop max_tokens (lock_of s) l s f.logits r (p.slots, refl, g))

generate-Guards :
    (m : Mlx) (n : Network m) (r : ModelRunner m) (request_id : ℕ) (prompt : List ℕ)
    (max_tokens : ℕ) (sampler : Option (m.Array → ℕ)) (stop : Option (List ℕ)) (l : List Lock)
    → Guards r.radix_cache l
    → GenerateGuards m l (generate m n r request_id prompt max_tokens sampler stop)
unfolding generate
generate-Guards m n r request_id prompt max_tokens sampler stop l v =
    from-Guards m n _ _ max_tokens r prompt l (forward_prefill m n r request_id prompt)
      (forward_prefill_lem m n r request_id prompt (ready r.radix_cache l v))
      (forward_prefill-Guards m n r request_id prompt l v)

-- Calls of `generate`, each of which returned its tokens.
pub data Generates (m : Mlx) (n : Network m) (r : ModelRunner m) : ModelRunner m → Type 0 where
  none_yet : Generates m n r r
  again :
      {x : ModelRunner m} (after : ModelRunner m) (request_id : ℕ) (prompt : List ℕ)
      (max_tokens : ℕ) (sampler : Option (m.Array → ℕ)) (stop : Option (List ℕ))
      (generated : List ℕ)
      → Generates m n r x
      → generate m n x request_id prompt max_tokens sampler stop ≡ (ok generated, after)
      → Generates m n r after

Generates-Guards :
    (m : Mlx) (n : Network m) (r x : ModelRunner m)
    → Generates m n r x
    → Guards r.radix_cache []
    → Guards x.radix_cache []
Generates-Guards m n r _ none_yet v = v
Generates-Guards m n r _ (again {x} after request_id prompt max_tokens sampler stop generated g e)
      v =
    subst (GenerateGuards m []) e (
      generate-Guards m n x request_id prompt max_tokens sampler stop []
        (Generates-Guards m n r x g v))

-- From a new runner, after any number of calls of `generate` that returned: nothing is protected,
-- and an eviction evicts as many tokens as asked for, or leaves no node below the root.
pub Generates-evict :
    (m : Mlx) (n : Network m) (num_layers n_kv_heads head_dim pool_size : ℕ) (dtype : m.Dtype)
    (s : Supply) (r after : ModelRunner m) (num_tokens k : ℕ) (d : RadixCache)
    → new_runner m num_layers n_kv_heads head_dim pool_size dtype s ≡ ok r
    → Generates m n r after
    → evict after.radix_cache num_tokens ≡ some (k, d)
    → (protected_size after.radix_cache ≡ pos 0) × ((num_tokens ≤ k) ⊎ (d.children ≡ nil))
Generates-evict m n num_layers n_kv_heads head_dim pool_size dtype s r after num_tokens k d e runs
      ran =
    let start =
      subst (Begins m) e
        (new_runner-IsGuarding m num_layers n_kv_heads head_dim pool_size dtype s) in
    let v = Generates-Guards m n r after runs start.served in
    let c = after.radix_cache in
    (
      (IsHeld-sizes [] c v.held).0 ∙ ap pos (guarded-none c.children),
      idle-evict c d num_tokens k v.held ran,
    )
