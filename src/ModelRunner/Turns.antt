-- ===== src/ModelRunner/Turns.antt =====
-- Any interleaving of prefills, decodes, ends of requests and evictions from the runner's cache.
use mathlib.Core.List.{map-append}
use sglang_mlx.Prelude.{
  ℕ, List, [], ◌∷◌, ◌++◌, ◌≡◌, refl, sym, ◌∙◌, ap, map, some, Result, ok, raise, subst, Bool-cases,
  inl, inr, leb,
}
use sglang_mlx.Allocator.{TokenPoolAllocator, new_allocator}
use sglang_mlx.Radix.Policy.{choose_strategy, same}
use sglang_mlx.ModelRunner.Pool.{before_reset}
use sglang_mlx.KvPool.{Mlx}
use sglang_mlx.Radix.Tree.{Supply}
use sglang_mlx.Radix.Evict.{evict}
use sglang_mlx.Radix.Cache.{RadixCache, reset, new_cache}
use sglang_mlx.Radix.Locks.Clients
use sglang_mlx.Radix.Locks.Clients.{Lock, nodes}
use sglang_mlx.Radix.Locks.Served.{Step-AreServed}
use sglang_mlx.Radix.Locks.History.{reset-AreServed}
use sglang_mlx.ModelRunner.State.{RequestState, Network, ModelRunner, new_runner}
use sglang_mlx.ModelRunner.Decode.{finish_request}
use sglang_mlx.ModelRunner.PlanLaws.{HasSlots}
use sglang_mlx.ModelRunner.PrefillLaws.{PrefillLem, forward_prefill_lem}
use sglang_mlx.ModelRunner.DecodeLaws.{DecodeLem, forward_decode_lem}
use sglang_mlx.ModelRunner.Interleaved.{
  Serving, Step, prefills, prefill_raises, decodes, decode_raises, finishes,
}
use sglang_mlx.ModelRunner.Guarded.{
  allocator-Guards, lock_of, Guards, ready, PrefillGuards, forward_prefill-Guards, DecodeGuards,
  forward_decode-Guards, finish_request-Guards,
}

module _ (m : Mlx) (may : List RequestState → Type 0) where
  -- A call of a client, or an eviction from the cache, which has the allocator of the runner.
  -- Evictions come only where the requests in progress are as `may` says.
  pub data Turn (n : Network m) : Serving m → Serving m → Type 0 where
    calls : {w x : Serving m} → Step m n w x → Turn n w x
    evicts :
        (r : ModelRunner m) (l : List RequestState) (num_tokens k : ℕ) (d : RadixCache)
        (a : TokenPoolAllocator)
        → may l
        → evict r.radix_cache num_tokens ≡ some (k, d)
        → d.allocator ≡ some a
        → Turn n
            (record { runner = r; requests = l })
            (record { runner = record r { radix_cache = d; allocator = a }; requests = l })

  pub data Turns (n : Network m) (w : Serving m) : Serving m → Type 0 where
    here : Turns n w w
    next : {x y : Serving m} → Turns n w x → Turn n x y → Turns n w y

abbrev pub locks_of : List RequestState → List Lock
locks_of l = map lock_of l

abbrev HaveSlots : List RequestState → Type 0
HaveSlots [] = Unit
HaveSlots (s ∷ l) = HasSlots s × HaveSlots l

-- Each request has a slot for each of its tokens, and its lock guards its prompt.
pub record IsGuarding (m : Mlx) (w : Serving m) : Type 0 where
  pub slotted : HaveSlots w.requests
  pub served : Guards w.runner.radix_cache (locks_of w.requests)

HaveSlots-at :
    (before behind : List RequestState) (s : RequestState)
    → HaveSlots (before ++ (s ∷ behind))
    → HasSlots s
HaveSlots-at [] behind s h = h.0
HaveSlots-at (x ∷ before) behind s h = HaveSlots-at before behind s h.1

HaveSlots-put :
    (before behind : List RequestState) (s s' : RequestState)
    → HasSlots s'
    → HaveSlots (before ++ (s ∷ behind))
    → HaveSlots (before ++ (s' ∷ behind))
HaveSlots-put [] behind s s' v h = (v, h.1)
HaveSlots-put (x ∷ before) behind s s' v h = (h.0, HaveSlots-put before behind s s' v h.1)

HaveSlots-remove :
    (before behind : List RequestState) (s : RequestState)
    → HaveSlots (before ++ (s ∷ behind))
    → HaveSlots (before ++ behind)
HaveSlots-remove [] behind s h = h.1
HaveSlots-remove (x ∷ before) behind s h = (h.0, HaveSlots-remove before behind s h.1)

locks_of-put :
    (before behind : List RequestState) (s s' : RequestState)
    → lock_of s' ≡ lock_of s
    → locks_of (before ++ (s' ∷ behind)) ≡ locks_of (before ++ (s ∷ behind))
locks_of-put before behind s s' e =
    map-append lock_of before (s' ∷ behind)
    ∙ ap (λ x. locks_of before ++ (x ∷ locks_of behind)) e
    ∙ sym (map-append lock_of before (s ∷ behind))

decoded-IsGuarding :
    (m : Mlx) (r after : ModelRunner m) (before behind : List RequestState) (s s' : RequestState)
    → HasSlots s'
    → Guards after.radix_cache (locks_of (before ++ (s ∷ behind))) × (lock_of s' ≡ lock_of s)
    → IsGuarding m (record { runner = r; requests = before ++ (s ∷ behind) })
    → IsGuarding m (record { runner = after; requests = before ++ (s' ∷ behind) })
decoded-IsGuarding m r after before behind s s' h (g, same) v = record {
  slotted = HaveSlots-put before behind s s' h v.slotted;
  served = subst (Guards after.radix_cache) (sym (locks_of-put before behind s s' same)) g;
}

Step-IsGuarding :
    (m : Mlx) (n : Network m) (w x : Serving m) → Step m n w x → IsGuarding m w → IsGuarding m x
Step-IsGuarding m n _ _ (prefills r after l request_id prompt s f e) v =
    let p =
      subst (PrefillLem m r prompt) e
        (forward_prefill_lem m n r request_id prompt (ready r.radix_cache (locks_of l) v.served)) in
    record {
      slotted = (p.slots, v.slotted);
      served =
          subst (PrefillGuards m (locks_of l)) e
            (forward_prefill-Guards m n r request_id prompt (locks_of l) v.served);
    }
Step-IsGuarding m n _ _ (prefill_raises r after l request_id prompt x e) v = record {
  slotted = v.slotted;
  served =
      subst (PrefillGuards m (locks_of l)) e
        (forward_prefill-Guards m n r request_id prompt (locks_of l) v.served);
}
Step-IsGuarding m n _ _ (decodes r after before behind token s s' f e) v =
    let h = HaveSlots-at before behind s v.slotted in
    let l = locks_of (before ++ (s ∷ behind)) in
    let d =
      subst (DecodeLem m r s token) e
        (forward_decode_lem m n r s token (ready r.radix_cache l v.served) h) in
    decoded-IsGuarding m r after before behind s s' d.slots
      (subst (DecodeGuards m l s) e (forward_decode-Guards m n r s token l h v.served)) v
Step-IsGuarding m n _ _ (decode_raises r after before behind token s s' x e) v =
    let h = HaveSlots-at before behind s v.slotted in
    let l = locks_of (before ++ (s ∷ behind)) in
    let d =
      subst (DecodeLem m r s token) e
        (forward_decode_lem m n r s token (ready r.radix_cache l v.served) h) in
    decoded-IsGuarding m r after before behind s s' d.1
      (subst (DecodeGuards m l s) e (forward_decode-Guards m n r s token l h v.served)) v
Step-IsGuarding m n _ _ (finishes r before behind s) v = record {
  slotted = HaveSlots-remove before behind s v.slotted;
  served =
      subst (Guards (finish_request m r s).radix_cache) (sym (map-append lock_of before behind)) (
        finish_request-Guards m r (locks_of before) (locks_of behind) s
          (subst (Guards r.radix_cache) (map-append lock_of before (s ∷ behind)) v.served));
}

pub Turn-IsGuarding :
    (m : Mlx) (may : List RequestState → Type 0) (n : Network m) (w x : Serving m)
    → Turn m may n w x
    → IsGuarding m w
    → IsGuarding m x
Turn-IsGuarding m may n w x (calls s) v = Step-IsGuarding m n w x s v
Turn-IsGuarding m may n _ _ (evicts r l num_tokens k d a allowed e shared) v = record {
  slotted = v.slotted;
  served = Step-AreServed _ _ (Clients.evicts r.radix_cache d (locks_of l) num_tokens k e) v.served;
}

Turns-IsGuarding :
    (m : Mlx) (may : List RequestState → Type 0) (n : Network m) (w x : Serving m)
    → Turns m may n w x
    → IsGuarding m w
    → IsGuarding m x
Turns-IsGuarding m may n w _ here v = v
Turns-IsGuarding m may n w _ (next {x} {y} r s) v =
    Turn-IsGuarding m may n x y s (Turns-IsGuarding m may n w x r v)

abbrev pub Begins : (m : Mlx) → Result (ModelRunner m) → Type 0
Begins m (raise e) = Unit
Begins m (ok r) = IsGuarding m (record { runner = r; requests = [] })

pub new_runner-IsGuarding :
    (m : Mlx) (num_layers n_kv_heads head_dim pool_size : ℕ) (dtype : m.Dtype) (s : Supply)
    → Begins m (new_runner m num_layers n_kv_heads head_dim pool_size dtype s)
unfolding new_runner new_allocator new_cache choose_strategy same
new_runner-IsGuarding m num_layers n_kv_heads head_dim pool_size dtype s =
    elim (Bool-cases (leb pool_size 0)) [
      | inl e ↦ rw e tt
      | inr e ↦ rw e (record {
        slotted = tt;
        served =
            allocator-Guards (reset (before_reset s)) _ [] (reset-AreServed (before_reset s) refl);
      })
    ]

pub after_turns :
    (m : Mlx) (may : List RequestState → Type 0) (n : Network m)
    (num_layers n_kv_heads head_dim pool_size : ℕ) (dtype : m.Dtype) (s : Supply)
    (r : ModelRunner m) (w : Serving m)
    → new_runner m num_layers n_kv_heads head_dim pool_size dtype s ≡ ok r
    → Turns m may n (record { runner = r; requests = [] }) w
    → IsGuarding m w
after_turns m may n num_layers n_kv_heads head_dim pool_size dtype s r w e turns =
    Turns-IsGuarding m may n (record { runner = r; requests = [] }) w turns
      (subst (Begins m) e
        (new_runner-IsGuarding m num_layers n_kv_heads head_dim pool_size dtype s))
