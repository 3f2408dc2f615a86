-- ===== src/ModelRunner/Guarded.antt =====
-- Requests in progress against evictions from the runner's cache: what the lock of a request keeps.
use sglang_mlx.Prelude.{
  ℕ, ◌&&◌, some, List, [], ◌∷◌, ◌++◌, ◌≡◌, refl, sym, ◌∙◌, arith, length, take, drop, take-length,
  take-front, Result, ok, raise, pos, subst, Bool-cases, inl, inr, ltb, leb, length-append,
}
use sglang_mlx.Allocator.{TokenPoolAllocator, alloc}
use sglang_mlx.Allocator.Slots.{alloc_lem}
use sglang_mlx.KvPool.{Mlx, MhaTokenPool, PooledKvCache}
use sglang_mlx.Radix.Cache.{
  RadixCache, match_prefix, insert, inc_lock_ref, dec_lock_ref, set_allocator,
}
use sglang_mlx.Radix.Refine.{cached, match_prefix-cached, cached-match_prefix}
use sglang_mlx.Radix.Locks.Clients.{Lock, matches, stores}
use sglang_mlx.Radix.Locks.Served.{
  AllOwn, AreServed, Step-AreServed, took, takes-AreServed, releases-AreServed,
}
use sglang_mlx.ModelRunner.State.{
  RequestState, Network, ForwardResult, ModelRunner, with_allocator, seq_len, total_cached_len,
}
use sglang_mlx.ModelRunner.Prefill.{
  Plan, plan_allocated, plan_prefill, finish_prefill, prefill_ran, prefill_planned, forward_prefill,
  locked_cache,
}
use sglang_mlx.ModelRunner.Decode.{finish_decode, decode_ran, forward_decode, finish_request}
use sglang_mlx.ModelRunner.Ready.{IsReady, set_allocator-IsReady, locked_cache-same}
use sglang_mlx.ModelRunner.PlanLaws.{HasSlots, IsPlan, Planned, plan_prefill_lem}
use sglang_mlx.ModelRunner.PrefillLaws.{insert-stored}

-- The lock of a request, with the slots of its prompt.
abbrev pub lock_of : RequestState → Lock
lock_of s = record {
  node = s.radix_node;
  key = s.prompt_tokens;
  slots = take (length s.prompt_tokens) s.all_slot_indices;
}

abbrev pub Guards : RadixCache → List Lock → Type 0
Guards c l = AreServed (record { cache = c; locks = l })

pub ready : (c : RadixCache) (l : List Lock) → Guards c l → IsReady c
ready c l v = record { kept = v.held.kept; enabled = v.held.enabled }

AllOwn-allocator :
    (c : RadixCache) (a : TokenPoolAllocator) (l : List Lock)
    → AllOwn c l
    → AllOwn (set_allocator c a) l
unfolding set_allocator
AllOwn-allocator c a [] o = tt
AllOwn-allocator c a (x ∷ l) (o, os) =
    (record { place = o.place; slots = o.slots }, AllOwn-allocator c a l os)

pub allocator-Guards :
    (c : RadixCache) (a : TokenPoolAllocator) (l : List Lock)
    → Guards c l
    → Guards (set_allocator c a) l
allocator-Guards c a l v =
    let w = set_allocator-IsReady c a (ready c l v) in
    record {
      held = record {
        kept = w.kept;
        enabled = w.enabled;
        counted = unfold set_allocator in v.held.counted;
        old = unfold set_allocator in v.held.old;
      };
      owned = AllOwn-allocator c a l v.owned;
    }

take-whole : (n : ℕ) (l : List ℕ) → length l ≡ n → take n l ≡ l
take-whole n l e = rw (← e) (take-length l)

-- A lock at the end of a whole match.
took-whole :
    (c : RadixCache) (l : List Lock) (q value : List ℕ)
    → (match_prefix c q).0.device_indices ≡ value
    → length value ≡ length q
    → let (found, d) = match_prefix c q in
      took c l q ≡ record {
        cache = locked_cache d (inc_lock_ref d found.last_node);
        locks = record { node = found.last_node; key = q; slots = take (length q) value } ∷ l;
      }
took-whole c l q value e paired =
    let (found, d) = match_prefix c q in
    rw
      (
        e,
        paired,
        take-length q,
        take-whole (length q) value paired,
        locked_cache-same d (inc_lock_ref d found.last_node),
      )
      refl

finish_prefill-Guards :
    (m : Mlx) (r : ModelRunner m) (c : RadixCache) (request_id : ℕ) (prompt rest : List ℕ)
    (plan : Plan) (kv_caches : List PooledKvCache) (logits : m.Array) (l : List Lock)
    → IsPlan c prompt plan rest
    → ((q : List ℕ) → cached r.radix_cache q ≡ cached c q)
    → Guards r.radix_cache l
    → let ((s, f), after) = finish_prefill m r request_id prompt plan kv_caches logits in
      Guards after.radix_cache (lock_of s ∷ l)
unfolding finish_prefill
finish_prefill-Guards m r c request_id prompt rest plan kv_caches logits l p same v =
    let value = plan.prefix_indices ++ plan.new_slot_indices in
    let d =
      (insert r.radix_cache (record { key = prompt; value = some value; priority = pos 0 })).1 in
    let inserted : Guards d l =
      Step-AreServed _ _ (stores r.radix_cache l prompt value (pos 0) p.paired) v in
    let found =
      match_prefix-cached d prompt (inserted.held.kept.leaves 0).shape inserted.held.enabled
      ∙ insert-stored m r c prompt rest plan (ready r.radix_cache l v) p same in
    subst AreServed (took-whole d l prompt value found p.paired)
      (takes-AreServed d l prompt inserted)

-- What a call of `forward_prefill` leaves of the locks.
abbrev pub PrefillGuards :
    (m : Mlx) → List Lock → Result (RequestState × ForwardResult m) × ModelRunner m → Type 0
PrefillGuards m l (raise e, after) = Guards after.radix_cache l
PrefillGuards m l (ok (s, f), after) = Guards after.radix_cache (lock_of s ∷ l)

prefill_ran-Guards :
    (m : Mlx) (n : Network m) (r : ModelRunner m) (c : RadixCache) (request_id : ℕ)
    (prompt rest : List ℕ) (plan : Plan)
    (result : Result n.Logits × (List PooledKvCache × MhaTokenPool m)) (l : List Lock)
    → IsPlan c prompt plan rest
    → ((q : List ℕ) → cached r.radix_cache q ≡ cached c q)
    → Guards r.radix_cache l
    → PrefillGuards m l (prefill_ran m n r request_id prompt plan result)
prefill_ran-Guards m n r c request_id prompt rest plan (raise e, (kv_caches, pool)) l p same v = v
prefill_ran-Guards m n r c request_id prompt rest plan (ok logits, (kv_caches, pool)) l p same v =
    finish_prefill-Guards m (record r { pool = pool }) c request_id prompt rest plan kv_caches
      (n.last_logits logits) l p same v

prefill_planned-Guards :
    (m : Mlx) (n : Network m) (r : ModelRunner m) (request_id : ℕ) (prompt : List ℕ)
    (planned : Result Plan × ModelRunner m) (l : List Lock)
    → Planned m r r.radix_cache prompt planned
    → Guards planned.1.radix_cache l
    → PrefillGuards m l (prefill_planned m n request_id prompt planned)
prefill_planned-Guards m n r request_id prompt (raise e, after) l p v = v
prefill_planned-Guards m n r request_id prompt (ok plan, after) l (rest, w, p, kept, _, _) v =
    prefill_ran-Guards m n after r.radix_cache request_id prompt rest plan _ l p kept v

plan_allocated-Guards :
    (m : Mlx) (r : ModelRunner m) (prompt prefix : List ℕ)
    (result : Result (List ℕ × TokenPoolAllocator)) (l : List Lock)
    → Guards r.radix_cache l
    → Guards (plan_allocated m r prompt prefix result).1.radix_cache l
plan_allocated-Guards m r prompt prefix (raise e) l v = v
plan_allocated-Guards m r prompt prefix (ok (slots, a)) l v = allocator-Guards r.radix_cache a l v

plan_prefill-Guards :
    (m : Mlx) (r : ModelRunner m) (prompt prefix : List ℕ) (l : List Lock)
    → Guards r.radix_cache l
    → Guards (plan_prefill m r prompt prefix).1.radix_cache l
unfolding plan_prefill
plan_prefill-Guards m r prompt prefix l v =
    elim (Bool-cases (leb (length prompt) (length prefix) && ltb 0 (length prefix))) [
      | inl hit ↦ rw hit v
      | inr miss ↦ rw miss (
          plan_allocated-Guards m r prompt prefix
            (alloc r.allocator (length (drop (length prefix) prompt))) l v)
    ]

pub forward_prefill-Guards :
    (m : Mlx) (n : Network m) (r : ModelRunner m) (request_id : ℕ) (prompt : List ℕ) (l : List Lock)
    → Guards r.radix_cache l
    → PrefillGuards m l (forward_prefill m n r request_id prompt)
unfolding forward_prefill
forward_prefill-Guards m n r request_id prompt l v =
    let (found, c) = match_prefix r.radix_cache prompt in
    let r1 : ModelRunner m = record r { radix_cache = c } in
    let matched : Guards c l = Step-AreServed _ _ (matches r.radix_cache l prompt) v in
    let w = ready c l matched in
    let answer =
      match_prefix-cached r.radix_cache prompt (v.held.kept.leaves 0).shape v.held.enabled
      ∙ sym ((cached-match_prefix r.radix_cache prompt (v.held.kept.leaves 0).shape).1 prompt) in
    prefill_planned-Guards m n r1 request_id prompt (plan_prefill m r1 prompt found.device_indices)
      l (rw answer (plan_prefill_lem m r1 prompt w))
      (plan_prefill-Guards m r1 prompt found.device_indices l matched)

-- A decode that returned appends to the slots, behind those of the prompt.
lock_of-append :
    (s : RequestState) (slots : List ℕ)
    → HasSlots s
    → take (length s.prompt_tokens) (s.all_slot_indices ++ slots)
      ≡ take (length s.prompt_tokens) s.all_slot_indices
unfolding seq_len total_cached_len
lock_of-append s slots h =
    take-front (length s.prompt_tokens) s.all_slot_indices slots (omega (arith, h))

-- What a call of `forward_decode` leaves of the locks.
abbrev pub DecodeGuards :
    (m : Mlx)
    → List Lock
    → RequestState
    → Result (ForwardResult m) × (RequestState × ModelRunner m)
    → Type 0
DecodeGuards m l s (_, (s', after)) = Guards after.radix_cache l × (lock_of s' ≡ lock_of s)

decode_ran-Guards :
    (m : Mlx) (n : Network m) (r : ModelRunner m) (s : RequestState) (token : ℕ) (slots : List ℕ)
    (result : Result n.Logits × (List PooledKvCache × MhaTokenPool m)) (l : List Lock)
    → HasSlots s
    → length slots ≡ 1
    → Guards r.radix_cache l
    → DecodeGuards m l s (decode_ran m n r s token slots result)
unfolding finish_decode seq_len total_cached_len
decode_ran-Guards m n r s token slots (raise e, (kv_caches, pool)) l h one v = (v, refl)
decode_ran-Guards m n r s token slots (ok logits, (kv_caches, pool)) l h one v =
    let key = s.prompt_tokens ++ (s.output_tokens ++ (token ∷ [])) in
    let value = s.all_slot_indices ++ slots in
    let paired : length value ≡ length key = omega (
      arith,
      length-append s.all_slot_indices slots,
      length-append s.prompt_tokens (s.output_tokens ++ (token ∷ [])),
      length-append s.output_tokens (token ∷ []),
      one,
      h,
    ) in
    (
      Step-AreServed _ _ (stores r.radix_cache l key value (pos 0) paired) v,
      rw (lock_of-append s slots h) refl,
    )

pub forward_decode-Guards :
    (m : Mlx) (n : Network m) (r : ModelRunner m) (s : RequestState) (token : ℕ) (l : List Lock)
    → HasSlots s
    → Guards r.radix_cache l
    → DecodeGuards m l s (forward_decode m n r s token)
unfolding forward_decode
forward_decode-Guards m n r s token l h v = elim (alloc_lem r.allocator 1) [
  | inl (slots, b, e, _, size, _, _) ↦ rw e (
      decode_ran-Guards m n (with_allocator m r b) s token slots _ l h size
        (allocator-Guards r.radix_cache b l v))
  | inr (e, few) ↦ rw e (v, refl)
]

pub finish_request-Guards :
    (m : Mlx) (r : ModelRunner m) (before behind : List Lock) (s : RequestState)
    → Guards r.radix_cache (before ++ (lock_of s ∷ behind))
    → Guards (finish_request m r s).radix_cache (before ++ behind)
unfolding finish_request
finish_request-Guards m r before behind s v =
    rw (locked_cache-same r.radix_cache (dec_lock_ref r.radix_cache s.radix_node))
      (releases-AreServed r.radix_cache before behind (lock_of s) v)
