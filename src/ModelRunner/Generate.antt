-- ===== src/ModelRunner/Generate.antt =====
-- `generate` of `ModelRunner`.
use sglang_mlx.Prelude.{ℕ, zero, suc, Option, List, [], ◌∷◌, if◌then◌else◌, Result, ok, raise}
use mathlib.Core.Option
use sglang_mlx.KvPool.{Mlx}
use sglang_mlx.Radix.Tree.{contains}
use sglang_mlx.ModelRunner.State.{RequestState, Network, ForwardResult, ModelRunner}
use sglang_mlx.ModelRunner.Prefill.{forward_prefill}
use sglang_mlx.ModelRunner.Decode.{forward_decode, finish_request}

-- What the loop of `generate` leaves: the tokens, or an exception, with the state and the runner.
abbrev pub Generated : Mlx → Type 0
Generated m = Result (List ℕ) × (RequestState × ModelRunner m)

abbrev pub put_token : (m : Mlx) → ℕ → Generated m → Generated m
put_token m token (raise e, after) = (raise e, after)
put_token m token (ok tokens, after) = (ok (token ∷ tokens), after)

abbrev pub continue :
    (m : Mlx)
    → (RequestState → m.Array → ModelRunner m → Generated m)
    → Result (ForwardResult m) × (RequestState × ModelRunner m)
    → Generated m
continue m next (raise e, after) = (raise e, after)
continue m next (ok result, (state, r)) = next state result.logits r

-- The loop of `generate`: `rounds` tokens are left to generate.
unfoldable pub generate_loop :
    (m : Mlx) (n : Network m)
    → (m.Array → ℕ)
    → List ℕ
    → ℕ
    → RequestState
    → m.Array
    → ModelRunner m
    → Generated m
generate_loop m n sampler stop_tokens zero state logits r = (ok [], (state, r))
generate_loop m n sampler stop_tokens (suc rounds) state logits r =
    let token = sampler logits in
    let next =
      continue m (generate_loop m n sampler stop_tokens rounds)
        (forward_decode m n r state token) in
    if contains token stop_tokens then (ok (token ∷ []), (state, r)) else put_token m token next

abbrev pub finished : (m : Mlx) → Generated m → Result (List ℕ) × ModelRunner m
finished m (raise e, (state, r)) = (raise e, r)
finished m (ok tokens, (state, r)) = (ok tokens, finish_request m r state)

abbrev pub generate_from :
    (m : Mlx) (n : Network m)
    → (m.Array → ℕ)
    → List ℕ
    → ℕ
    → Result (RequestState × ForwardResult m) × ModelRunner m
    → Result (List ℕ) × ModelRunner m
generate_from m n sampler stop_tokens max_tokens (raise e, r) = (raise e, r)
generate_from m n sampler stop_tokens max_tokens (ok (state, result), r) =
    finished m (generate_loop m n sampler stop_tokens max_tokens state result.logits r)

-- `generate`, for the id that `uuid4` drew.
unfoldable pub generate :
    (m : Mlx) (n : Network m)
    → ModelRunner m
    → ℕ
    → List ℕ
    → ℕ
    → Option (m.Array → ℕ)
    → Option (List ℕ)
    → Result (List ℕ) × ModelRunner m
unfolding forward_prefill generate_loop finish_request
generate m n r request_id prompt max_tokens sampler stop_tokens =
    generate_from m n (Option.get_or sampler n.argmax) (Option.get_or stop_tokens []) max_tokens
      (forward_prefill m n r request_id prompt)
