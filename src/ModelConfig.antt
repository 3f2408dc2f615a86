-- ===== src/ModelConfig.antt =====
-- `ModelConfig` and `_extract_model_config` of sglang_mlx/model_runner.py.
use Prim.Native.Nat.{◌/◌}
use sglang_mlx.Prelude.{ℕ, zero, suc, Option, none, some}
pub mod Sizes
pub mod Samples

-- The names that the code reads.
pub data Attribute : Type 0 where
  num_hidden_layers num_attention_heads hidden_size head_dim num_key_value_heads vocab_size
        sliding_window :
      Attribute

-- Attributes by name: `none` where there is none of the name. An attribute may hold `None`.
abbrev pub Attributes : Type 0
Attributes = Attribute → Option (Option ℕ)

-- A model of mlx-lm, as far as the code reads it: `len(model.layers)` and `model.args`.
pub record Model : Type 0 where
  pub layers : Option ℕ
  pub args : Option Attributes

pub record ModelConfig : Type 0 where
  pub num_layers : Option ℕ
  pub n_kv_heads : Option ℕ
  pub head_dim : Option ℕ
  pub vocab_size : Option ℕ
  pub hidden_size : Option ℕ
  pub num_attention_heads : Option ℕ
  pub sliding_window : Option ℕ

-- `config_dict.get(name)`.
abbrev pub value_or_none : Option (Option ℕ) → Option ℕ
value_or_none none = none
value_or_none (some v) = v

-- `_get` for a name that `args` may have.
abbrev pub attribute_or : Option (Option ℕ) → Option (Option ℕ) → Option ℕ
attribute_or (some v) fallback = v
attribute_or none fallback = value_or_none fallback

-- `_get(name)`.
unfoldable pub get : Option Attributes → Attributes → Attribute → Option ℕ
get none config_dict name = value_or_none (config_dict name)
get (some args) config_dict name = attribute_or (args name) (config_dict name)

-- `a or b`: `None` and 0 count as false.
abbrev pub or_else : Option ℕ → Option ℕ → Option ℕ
or_else none b = b
or_else (some zero) b = b
or_else (some (suc n)) b = some (suc n)

-- `head_dim`, or `hidden_size // num_attention_heads` where it is `None` and both are there.
unfoldable pub head_dim_or : Option ℕ → Option ℕ → Option ℕ → Option ℕ
head_dim_or (some d) hidden heads = some d
head_dim_or none none heads = none
head_dim_or none (some zero) heads = none
head_dim_or none (some (suc n)) none = none
head_dim_or none (some (suc n)) (some zero) = none
head_dim_or none (some (suc n)) (some (suc h)) = some (suc n / suc h)

abbrev pub layers_or : Option ℕ → Option ℕ → Option ℕ
layers_or none other = other
layers_or (some n) other = some n

abbrev pub entries : Option Attributes → Attributes
entries none = λ name. none
entries (some d) = d

-- `_extract_model_config`; without `config_dict` the dictionary has no entries.
unfoldable pub extract_model_config : Model → Option Attributes → ModelConfig
unfolding get head_dim_or
extract_model_config model config_dict =
    let get_ = get model.args (entries config_dict) in
    let heads = get_ num_attention_heads in
    let hidden = get_ hidden_size in
    record {
      num_layers = layers_or model.layers (get_ num_hidden_layers);
      n_kv_heads = or_else (get_ num_key_value_heads) heads;
      head_dim = head_dim_or (get_ head_dim) hidden heads;
      vocab_size = get_ vocab_size;
      hidden_size = hidden;
      num_attention_heads = heads;
      sliding_window = get_ sliding_window;
    }
