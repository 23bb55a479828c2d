-- ===== src/Tests/Configuration.antt =====
-- Small configurations.
use Prim.Native.String.{String}
use onnxruntime_genai_privat.Base.{
  ◌≡◌, ◌≢◌, ◌↔◌, refl, true, false, some, List, [], ◌∷◌, inl, inr, ℕ,
}
use onnxruntime_genai_privat.Base.Int.{ℤ, pos, pos_part}
use onnxruntime_genai_privat.Config.Data
use onnxruntime_genai_privat.Config.Data.{Model, Search, Config}
use onnxruntime_genai_privat.Config.Elements.{provider_options, one_member_only, Reading}
use onnxruntime_genai_privat.Config.Tree.Providers.{
  on_provider, read_strings, with_provider, second_provider_refused,
}
use onnxruntime_genai_privat.Config.Tree.EndTokens.{read_array, read_array-cases}
use onnxruntime_genai_privat.Config.Loaded.{settle}
use onnxruntime_genai_privat.Config.Names.{
  add_mapping, get_graph_name, get_graph_name-add_mapping, add_mapping-refused,
}

abbrev given : Config ℕ
given = record {
  model = record Data.model { context_length = pos 2048 };
  search = Data.search pos_part;
  nominal_names_to_graph_names = [];
}

abbrev settled : Config ℕ
settled = record given { search = record given.search { max_length = pos 2048 } }

given_settles : settle given ≡ some settled
unfolding settle
given_settles = refl

abbrev named : List (String × String)
named = ("input_ids", "ids") ∷ []

mask_added : add_mapping named "attention_mask" "mask" ≡ inr (("attention_mask", "mask") ∷ named)
unfolding add_mapping
mask_added = refl

get_graph_name-add_mapping_example :
    (get_graph_name (("attention_mask", "mask") ∷ named) "attention_mask" ≡ ("mask", true))
    × ((other : String)
        → other ≢ "attention_mask"
        → get_graph_name (("attention_mask", "mask") ∷ named) other ≡ get_graph_name named other)
get_graph_name-add_mapping_example =
    get_graph_name-add_mapping named (("attention_mask", "mask") ∷ named) "attention_mask" "mask"
      mask_added

abbrev ids : String
ids = "ids"

add_mapping-refused_example :
    (add_mapping named "input_ids" "tokens" ≡ inl ids)
    ↔ ((get_graph_name named "input_ids" ≡ (ids, true)) × (ids ≢ "tokens"))
add_mapping-refused_example = add_mapping-refused named "input_ids" "tokens" ids

abbrev reading : Reading ℕ
reading = record { config = given; has_options = false }

abbrev cuda_options : List (String × String)
cuda_options = ("enable_cuda_graph", "1") ∷ ("device_id", "0") ∷ []

second_provider_refused_example :
    (t : Reading ℕ) × (on_provider "" "cuda" reading ≡ inr (provider_options, t))
    × (read_strings cuda_options t ≡ inr (with_provider "cuda" cuda_options reading))
    × (on_provider "" "dml" (with_provider "cuda" cuda_options reading) ≡ inl one_member_only)
second_provider_refused_example = second_provider_refused reading "" "cuda" "dml" cuda_options refl

read_array-cases_example :
    (read_array [] Data.model ≡ Data.model)
    × ((x : ℤ) → read_array (x ∷ []) Data.model ≡ record Data.model { eos_token_id = x })
    × ((x y : ℤ) (xs : List ℤ)
        → read_array (x ∷ y ∷ xs) Data.model
          ≡ record Data.model { eos_token_id = x; eos_token_ids = x ∷ y ∷ xs })
read_array-cases_example = read_array-cases Data.model refl
