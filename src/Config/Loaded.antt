-- ===== src/Config/Loaded.antt =====
-- The constructor of `Config` behind the parser, and `IsCudaGraphEnabled` (src/config.cpp).
use Prim.Native.String.{String}
use text.Mathlib.Text.{◌==◌}
use onnxruntime_genai_privat.Base.{
  Bool, true, false, Option, none, some, List, [], ◌∷◌, if◌then◌else◌,
}
use onnxruntime_genai_privat.Base.Int.{pos, beq_ℤ}
use onnxruntime_genai_privat.Config.Data.{ProviderOptions, Config}

-- The checks of the constructor: `none` where it throws for a context length of 0.
unfoldable pub settle {ℓ} : {F : Type ℓ} → Config F → Option (Config F)
settle c =
    if beq_ℤ c.model.context_length (pos 0)
    then none
    else if beq_ℤ c.search.max_length (pos 0)
    then some (record c { search = record c.search { max_length = c.model.context_length } })
    else some c

-- The loop over the options of a "cuda" provider: the first "enable_cuda_graph" decides.
unfoldable pub cuda_graph_option : List (String × String) → Option Bool
cuda_graph_option [] = none
cuda_graph_option ((key, value) ∷ rest) =
    let later = cuda_graph_option rest in
    if key == "enable_cuda_graph" then some (value == "1") else later

-- `IsCudaGraphEnabled`, on the providers of the session options.
unfoldable pub is_cuda_graph_enabled : List ProviderOptions → Bool
unfolding cuda_graph_option
is_cuda_graph_enabled [] = false
is_cuda_graph_enabled (o ∷ rest) =
    let later = is_cuda_graph_enabled rest in
    if o.name == "cuda"
    then elim (cuda_graph_option o.options) [ some enabled ↦ enabled | none ↦ later ]
    else if o.name == "dml"
    then true
    else later
