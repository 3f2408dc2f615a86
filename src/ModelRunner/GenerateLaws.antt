-- ===== src/ModelRunner/GenerateLaws.antt =====
-- What `generate` returns, and the cache after it.
use mathlib.Core.Option
use sglang_mlx.Prelude.{
  ℕ, zero, suc, ◌+◌, ◌≤◌, true, false, Option, List, [], ◌∷◌, ◌++◌, ◌≡◌, refl, sym, ◌∙◌, ap, ap₂,
  arith, length, length-append, if◌then◌else◌, Bool-cases, inl, inr, Result, ok, raise, append-nil,
  append_assoc, ◌⊎◌,
}
use sglang_mlx.KvPool.{Mlx}
use sglang_mlx.Radix.Tree.{contains}
use sglang_mlx.Radix.Cache.{RadixCache}
use sglang_mlx.Radix.Refine.{cached}
use sglang_mlx.Radix.Evict.View.{IsPrefix, IsPrefix-trans}
use sglang_mlx.ModelRunner.State.{
  RequestState, Network, ForwardResult, ModelRunner, seq_len, total_cached_len,
}
use sglang_mlx.ModelRunner.Generate.{
  Generated, put_token, continue, generate_loop, finished, generate_from, generate,
}
use sglang_mlx.ModelRunner.Ready.{IsReady}
use sglang_mlx.ModelRunner.PlanLaws.{HasSlots}
use sglang_mlx.ModelRunner.PrefillLaws.{PrefillLem, forward_prefill_lem}
use sglang_mlx.ModelRunner.DecodeLaws.{Decoded, DecodeLem, forward_decode_lem, finish_request_lem}

-- The tokens of a call: `rounds` of them, or fewer with a stop token as the last one.
abbrev pub IsRun : List ℕ → ℕ → List ℕ → Type 0
IsRun stop zero tokens = tokens ≡ []
IsRun stop (suc rounds) [] = ⊥
IsRun stop (suc rounds) (t ∷ tokens) =
    ((contains t stop ≡ true) × (tokens ≡ []))
    ⊎ ((contains t stop ≡ false) × IsRun stop rounds tokens)

-- The tokens before the first stop token.
unfoldable pub unstopped : List ℕ → List ℕ → List ℕ
unstopped stop [] = []
unstopped stop (t ∷ tokens) = if contains t stop then [] else t ∷ unstopped stop tokens

-- A request that holds the prompt and the tokens so far, all of which are cached.
pub record IsServed (prompt done : List ℕ) (s : RequestState) (c0 c : RadixCache) : Type 0 where
  pub ready : IsReady c
  pub slots : HasSlots s
  pub same_prompt : s.prompt_tokens ≡ prompt
  pub same_output : s.output_tokens ≡ done
  pub whole : length (cached c (prompt ++ done)) ≡ length prompt + length done
  pub grows : (q : List ℕ) → IsPrefix (cached c0 q) (cached c q)

LoopLem : (m : Mlx) → List ℕ → List ℕ → List ℕ → ℕ → RadixCache → Generated m → Type 0
LoopLem m stop prompt done rounds c0 (raise e, (s, r)) = IsReady r.radix_cache
LoopLem m stop prompt done rounds c0 (ok tokens, (s, r)) =
    IsRun stop rounds tokens × IsServed prompt (done ++ unstopped stop tokens) s c0 r.radix_cache

pub decoded_lem :
    (m : Mlx) (r : ModelRunner m) (s s' : RequestState) (c0 c : RadixCache) (prompt done : List ℕ)
    (token : ℕ)
    → IsServed prompt done s c0 r.radix_cache
    → Decoded s token s' r.radix_cache c
    → IsServed prompt (done ++ (token ∷ [])) s' c0 c
unfolding seq_len
decoded_lem m r s s' c0 c prompt done token v d =
    let prompts = d.same_prompt ∙ v.same_prompt in
    let outputs = d.one_token ∙ ap (λ l. l ++ (token ∷ [])) v.same_output in
    record {
      ready = d.ready;
      slots = d.slots;
      same_prompt = prompts;
      same_output = outputs;
      whole = rw (← outputs, ← prompts) d.whole;
      grows = λ q. IsPrefix-trans _ _ _ (v.grows q) (d.grows q);
    }

-- A token that does not stop, before those of the rest of the loop.
put_token_lem :
    (m : Mlx) (stop prompt done : List ℕ) (rounds token : ℕ) (c0 : RadixCache) (rest : Generated m)
    → contains token stop ≡ false
    → LoopLem m stop prompt (done ++ (token ∷ [])) rounds c0 rest
    → LoopLem m stop prompt done (suc rounds) c0 (put_token m token rest)
unfolding LoopLem unstopped
put_token_lem m stop prompt done rounds token c0 (raise e, (s, r)) go v = v
put_token_lem m stop prompt done rounds token c0 (ok tokens, (s, r)) go (run, v) =
    (inr (go, run), rw (go, ← append_assoc done (token ∷ []) (unstopped stop tokens)) v)

continue_lem :
    (m : Mlx) (stop prompt done : List ℕ) (rounds : ℕ) (s : RequestState) (token : ℕ)
    (c0 : RadixCache) (r : ModelRunner m)
    (next : RequestState → m.Array → ModelRunner m → Generated m)
    (result : Result (ForwardResult m) × (RequestState × ModelRunner m))
    → ((s' : RequestState) (logits : m.Array) (after : ModelRunner m)
        → IsServed prompt (done ++ (token ∷ [])) s' c0 after.radix_cache
        → LoopLem m stop prompt (done ++ (token ∷ [])) rounds c0 (next s' logits after))
    → IsServed prompt done s c0 r.radix_cache
    → DecodeLem m r s token result
    → LoopLem m stop prompt (done ++ (token ∷ [])) rounds c0 (continue m next result)
unfolding LoopLem
continue_lem m stop prompt done rounds s token c0 r next (raise e, (s', after)) ok_next v d = d.0
continue_lem m stop prompt done rounds s token c0 r next (ok f, (s', after)) ok_next v d =
    ok_next s' f.logits after (decoded_lem m r s s' c0 after.radix_cache prompt done token v d)

loop_lem :
    (m : Mlx) (n : Network m) (sampler : m.Array → ℕ) (stop prompt done : List ℕ) (rounds : ℕ)
    (s : RequestState) (logits : m.Array) (c0 : RadixCache) (r : ModelRunner m)
    → IsServed prompt done s c0 r.radix_cache
    → LoopLem m stop prompt done rounds c0 (generate_loop m n sampler stop rounds s logits r)
unfolding generate_loop LoopLem unstopped
loop_lem m n sampler stop prompt done zero s logits c0 r v = (refl, rw (append-nil done) v)
loop_lem m n sampler stop prompt done (suc rounds) s logits c0 r v =
    let token = sampler logits in
    let next = loop_lem m n sampler stop prompt (done ++ (token ∷ [])) rounds in
    elim (Bool-cases (contains token stop)) [
      | inl e ↦ rw e (inl (e, refl), rw (e, append-nil done) v)
      | inr e ↦ rw e (
          put_token_lem m stop prompt done rounds token c0 _ e (
            continue_lem m stop prompt done rounds s token c0 r _ _
              (λ s' l after. next s' l c0 after) v
              (forward_decode_lem m n r s token v.ready v.slots)))
    ]

-- The tokens of a call and the cache after it.
pub record IsServing (stop prompt : List ℕ) (max_tokens : ℕ) (tokens : List ℕ) (c0 c : RadixCache)
    : Type 0 where
  pub ready : IsReady c
  pub run : IsRun stop max_tokens tokens
  pub whole : let all = prompt ++ unstopped stop tokens in length (cached c all) ≡ length all
  pub grows : (q : List ℕ) → IsPrefix (cached c0 q) (cached c q)

abbrev pub GenerateLem :
    (m : Mlx) → ModelRunner m → List ℕ → List ℕ → ℕ → Result (List ℕ) × ModelRunner m → Type 0
GenerateLem m r stop prompt max_tokens (raise e, after) = IsReady after.radix_cache
GenerateLem m r stop prompt max_tokens (ok tokens, after) =
    IsServing stop prompt max_tokens tokens r.radix_cache after.radix_cache

finished_lem :
    (m : Mlx) (r : ModelRunner m) (stop prompt : List ℕ) (max_tokens : ℕ) (result : Generated m)
    → LoopLem m stop prompt [] max_tokens r.radix_cache result
    → GenerateLem m r stop prompt max_tokens (finished m result)
unfolding LoopLem
finished_lem m r stop prompt max_tokens (raise e, (s, after)) v = v
finished_lem m r stop prompt max_tokens (ok tokens, (s, after)) (run, v) =
    let (ready, same) = finish_request_lem m after s v.ready in
    record {
      ready = ready;
      run = run;
      whole =
          ap length (same (prompt ++ unstopped stop tokens))
          ∙ v.whole
          ∙ sym (length-append prompt (unstopped stop tokens));
      grows = λ q. rw (same q) (v.grows q);
    }

generate_from_lem :
    (m : Mlx) (n : Network m) (r : ModelRunner m) (sampler : m.Array → ℕ) (stop prompt : List ℕ)
    (max_tokens : ℕ) (result : Result (RequestState × ForwardResult m) × ModelRunner m)
    → PrefillLem m r prompt result
    → GenerateLem m r stop prompt max_tokens (generate_from m n sampler stop max_tokens result)
unfolding seq_len total_cached_len
generate_from_lem m n r sampler stop prompt max_tokens (raise e, after) v = v.0
generate_from_lem m n r sampler stop prompt max_tokens (ok (s, f), after) v =
    finished_lem m r stop prompt max_tokens _ (
      loop_lem m n sampler stop prompt [] max_tokens s f.logits r.radix_cache after (record {
        ready = v.ready;
        slots = v.slots;
        same_prompt = v.same_prompt;
        same_output = v.no_output;
        whole =
            ap (λ l. length (cached after.radix_cache l)) (append-nil prompt)
            ∙ ap length v.found
            ∙ v.slots
            ∙ ap₂ (λ p o. length p + length o) v.same_prompt v.no_output;
        grows = v.grows;
      }))

-- On a runner whose cache is in order, whatever the network and the sampler do: `generate` leaves
-- the cache in order. When it returns, it returns `max_tokens` tokens, or fewer that end with the
-- first stop token; the cache has an answer for the prompt with all tokens before a stop token, and
-- every answer of the cache is the one before or goes on behind it.
pub generate_lem :
    (m : Mlx) (n : Network m) (r : ModelRunner m) (request_id : ℕ) (prompt : List ℕ)
    (max_tokens : ℕ) (sampler : Option (m.Array → ℕ)) (stop_tokens : Option (List ℕ))
    → IsReady r.radix_cache
    → GenerateLem m r
        (Option.get_or stop_tokens [])
        prompt
        max_tokens
        (generate m n r request_id prompt max_tokens sampler stop_tokens)
unfolding generate
generate_lem m n r request_id prompt max_tokens sampler stop_tokens v =
    generate_from_lem m n r (Option.get_or sampler n.argmax) (Option.get_or stop_tokens []) prompt
      max_tokens _ (forward_prefill_lem m n r request_id prompt v)

-- A run has at most `rounds` tokens.
pub IsRun-length :
    (stop : List ℕ) (rounds : ℕ) (tokens : List ℕ)
    → IsRun stop rounds tokens
    → length tokens ≤ rounds
IsRun-length stop zero tokens e = rw e (omega arith)
IsRun-length stop (suc rounds) [] v = absurd v
IsRun-length stop (suc rounds) (t ∷ tokens) (inl (e, last)) = rw last (omega arith)
IsRun-length stop (suc rounds) (t ∷ tokens) (inr (e, v)) =
    omega (arith, IsRun-length stop rounds tokens v)
