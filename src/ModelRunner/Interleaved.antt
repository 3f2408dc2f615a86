-- ===== src/ModelRunner/Interleaved.antt =====
-- Any interleaving of prefills, decodes and ends of requests.
use sglang_mlx.Prelude.{
  ℕ, List, [], ◌∷◌, ◌++◌, ◌≡◌, ap, arith, length, Error, ok, raise, length-append,
}
use sglang_mlx.KvPool.{Mlx}
use sglang_mlx.Radix.Cache.{RadixCache}
use sglang_mlx.Radix.Refine.{cached}
use sglang_mlx.Radix.InsertPrefix.{length-cached_children-le}
use sglang_mlx.Radix.Evict.View.{IsPrefix}
use sglang_mlx.ModelRunner.State.{RequestState, Network, ForwardResult, ModelRunner, seq_len}
use sglang_mlx.ModelRunner.Prefill.{forward_prefill}
use sglang_mlx.ModelRunner.Decode.{forward_decode, finish_request}
use sglang_mlx.ModelRunner.Ready.{IsReady}
use sglang_mlx.ModelRunner.PlanLaws.{HasSlots}
use sglang_mlx.ModelRunner.Slots.{IsWhole}

module _ (m : Mlx) where
  -- The runner, with the requests in progress.
  pub record Serving : Type 0 where
    pub runner : ModelRunner m
    pub requests : List RequestState

  -- One call of a client. After an exception of `forward_decode` the request is still there.
  pub data Step (n : Network m) : Serving → Serving → Type 0 where
    prefills :
        (r after : ModelRunner m) (l : List RequestState) (request_id : ℕ) (prompt : List ℕ)
        (s : RequestState) (f : ForwardResult m)
        → forward_prefill m n r request_id prompt ≡ (ok (s, f), after)
        → Step n (record { runner = r; requests = l }) (record { runner = after; requests = s ∷ l })
    prefill_raises :
        (r after : ModelRunner m) (l : List RequestState) (request_id : ℕ) (prompt : List ℕ)
        (e : Error)
        → forward_prefill m n r request_id prompt ≡ (raise e, after)
        → Step n (record { runner = r; requests = l }) (record { runner = after; requests = l })
    decodes :
        (r after : ModelRunner m) (before behind : List RequestState) (token : ℕ)
        (s s' : RequestState) (f : ForwardResult m)
        → forward_decode m n r s token ≡ (ok f, (s', after))
        → Step n
            (record { runner = r; requests = before ++ (s ∷ behind) })
            (record { runner = after; requests = before ++ (s' ∷ behind) })
    decode_raises :
        (r after : ModelRunner m) (before behind : List RequestState) (token : ℕ)
        (s s' : RequestState) (e : Error)
        → forward_decode m n r s token ≡ (raise e, (s', after))
        → Step n
            (record { runner = r; requests = before ++ (s ∷ behind) })
            (record { runner = after; requests = before ++ (s' ∷ behind) })
    finishes :
        (r : ModelRunner m) (before behind : List RequestState) (s : RequestState)
        → Step n
            (record { runner = r; requests = before ++ (s ∷ behind) })
            (record { runner = finish_request m r s; requests = before ++ behind })

  pub data Reaches (n : Network m) : Serving → Serving → Type 0 where
    done : (w : Serving) → Reaches n w w
    more : (w x y : Serving) → Step n w x → Reaches n x y → Reaches n w y

-- A request with a slot for each of its tokens, all of which are cached.
abbrev pub IsHeld : RadixCache → RequestState → Type 0
IsHeld c s = HasSlots s × IsWhole s c

abbrev pub AreHeld : RadixCache → List RequestState → Type 0
AreHeld c [] = Unit
AreHeld c (s ∷ l) = IsHeld c s × AreHeld c l

-- What the cache answers to a request's tokens stays whole while answers only grow.
IsHeld-grows :
    (c d : RadixCache) (s : RequestState)
    → IsReady d
    → ((q : List ℕ) → IsPrefix (cached c q) (cached d q))
    → IsHeld c s
    → IsHeld d s
unfolding seq_len
IsHeld-grows c d s v grows (h, whole) =
    let q = s.prompt_tokens ++ s.output_tokens in
    let (rest, e) = grows q in
    (
      h,
      omega (
        arith,
        whole,
        ap length e,
        length-append (cached c q) rest,
        length-append s.prompt_tokens s.output_tokens,
        length-cached_children-le d.children q (v.kept.leaves 0).shape,
      ),
    )

pub AreHeld-grows :
    (c d : RadixCache) (l : List RequestState)
    → IsReady d
    → ((q : List ℕ) → IsPrefix (cached c q) (cached d q))
    → AreHeld c l
    → AreHeld d l
AreHeld-grows c d [] v grows h = tt
AreHeld-grows c d (s ∷ l) v grows (h, hs) =
    (IsHeld-grows c d s v grows h, AreHeld-grows c d l v grows hs)

pub AreHeld-at :
    (c : RadixCache) (before behind : List RequestState) (s : RequestState)
    → AreHeld c (before ++ (s ∷ behind))
    → IsHeld c s
AreHeld-at c [] behind s h = h.0
AreHeld-at c (x ∷ before) behind s h = AreHeld-at c before behind s h.1

pub AreHeld-put :
    (c : RadixCache) (before behind : List RequestState) (s s' : RequestState)
    → IsHeld c s'
    → AreHeld c (before ++ (s ∷ behind))
    → AreHeld c (before ++ (s' ∷ behind))
AreHeld-put c [] behind s s' v h = (v, h.1)
AreHeld-put c (x ∷ before) behind s s' v h = (h.0, AreHeld-put c before behind s s' v h.1)

pub AreHeld-remove :
    (c : RadixCache) (before behind : List RequestState) (s : RequestState)
    → AreHeld c (before ++ (s ∷ behind))
    → AreHeld c (before ++ behind)
AreHeld-remove c [] behind s h = h.1
AreHeld-remove c (x ∷ before) behind s h = (h.0, AreHeld-remove c before behind s h.1)
