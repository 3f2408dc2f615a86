-- ===== src/ModelConfig/Sizes.antt =====
-- The sizes that `_extract_model_config` fills in.
use Prim.Native.Nat.{◌/◌, ◌*◌}
use native.Mathlib.Nat.{mul-div_cancel}
use sglang_mlx.Prelude.{ℕ, zero, suc, ◌<◌, Option, none, some, ◌≡◌, refl, ap, arith, ◌∙◌}
use sglang_mlx.ModelConfig.{
  Attributes, hidden_size, num_attention_heads, head_dim, num_key_value_heads, Model, get, entries,
  extract_model_config, head_dim_or,
}

div-same : (d h : ℕ) → suc d * suc h / suc h ≡ suc d
div-same d h = mul-div_cancel (suc d) {n = suc h} (omega arith)

head_dim_or-quotient :
    (n h : ℕ) → 0 < n → head_dim_or none (some n) (some (suc h)) ≡ some (n / suc h)
unfolding head_dim_or
head_dim_or-quotient zero h p = absurd (omega (arith, p))
head_dim_or-quotient (suc n) h p = refl

-- Where the attributes give `h > 0` heads and a hidden size of `d * h > 0`, but no head size and no
-- number of key-value heads, the configuration has heads of size `d`, and each head has its own
-- keys and values.
pub extract_model_config-sizes :
    (model : Model) (config_dict : Option Attributes) (d h : ℕ)
    → let read = get model.args (entries config_dict) in
      let config = extract_model_config model config_dict in
      read num_attention_heads ≡ some (suc h)
      → read hidden_size ≡ some (suc d * suc h)
      → read head_dim ≡ none
      → read num_key_value_heads ≡ none
      → (config.head_dim ≡ some (suc d)) × (config.n_kv_heads ≡ some (suc h))
unfolding extract_model_config
extract_model_config-sizes model config_dict d h eh es ed ek = (
  rw (ed, es, eh) (head_dim_or-quotient (suc d * suc h) h (grind arith) ∙ ap some (div-same d h)),
  rw (ek, eh) refl,
)
