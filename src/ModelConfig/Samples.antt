-- ===== src/ModelConfig/Samples.antt =====
-- Configurations of small models, and the theorem on one of them.
use sglang_mlx.Prelude.{none, some, ◌≡◌, refl}
use sglang_mlx.ModelConfig.{
  Attributes, num_hidden_layers, num_attention_heads, hidden_size, head_dim, num_key_value_heads,
  vocab_size, sliding_window, Model, get, extract_model_config,
}

-- Four heads for a hidden size of twelve.
abbrev attributes : Attributes
attributes num_hidden_layers = some (some 7)
attributes num_attention_heads = some (some 4)
attributes hidden_size = some (some 12)
attributes head_dim = none
attributes num_key_value_heads = none
attributes vocab_size = some (some 100)
attributes sliding_window = some none

abbrev pub model : Model
model = record { layers = some 2; args = some attributes }

-- The layers of the model count, and not the entry of that name.
two_layers : (extract_model_config model none).num_layers ≡ some 2
unfolding extract_model_config
two_layers = refl

-- An entry of `config_dict` fills in what the model has not.
from_config :
    (extract_model_config (record { layers = none; args = none }) (some attributes)).num_layers
    ≡ some 7
unfolding extract_model_config get
from_config = refl
