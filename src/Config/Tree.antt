-- ===== src/Config/Tree.antt =====
-- The elements that other elements contain, their numbers and their ends (src/config.cpp).
pub mod Providers
pub mod EndTokens
use Prim.Native.String.{String}
use text.Mathlib.Text.{◌==◌}
use onnxruntime_genai_privat.Base.{
  Bool, true, false, Option, none, some, List, [], ◌∷◌, ◌++◌, if◌then◌else◌, ◌⊎◌, inl, inr,
}
use onnxruntime_genai_privat.Base.Int.{ℤ}
use onnxruntime_genai_privat.Config.Data.{ProviderOptions, Config}
use onnxruntime_genai_privat.Config.Handlers
use onnxruntime_genai_privat.Config.Search
use onnxruntime_genai_privat.Config.Elements.{
  Element, root_object, root, model, search, encoder_decoder_init, decoder, session_options,
  provider_options_array, provider_options_object, provider_options, inputs, outputs, eos_array,
  vision, vision_inputs, vision_outputs, embedding, embedding_inputs, embedding_outputs, Fault,
  unknown_value, one_member_only, Reading, with_model, change,
}

-- `Root_Element::OnObject`.
unfoldable pub root_on_object : String → Option Element
root_on_object name =
    if name == "model" then some model else if name == "search" then some search else none

-- `Model_Element::OnObject`.
unfoldable pub model_on_object : String → Option Element
model_on_object name =
    if name == "encoder_decoder_init"
    then some encoder_decoder_init
    else if name == "decoder"
    then some decoder
    else if name == "vision"
    then some vision
    else if name == "embedding"
    then some embedding
    else none

-- `Decoder_Element::OnObject`.
unfoldable pub decoder_on_object : String → Option Element
decoder_on_object name =
    if name == "session_options"
    then some session_options
    else if name == "inputs"
    then some inputs
    else if name == "outputs"
    then some outputs
    else none

-- `Vision_Element::OnObject`.
unfoldable pub vision_on_object : String → Option Element
vision_on_object name =
    if name == "inputs"
    then some vision_inputs
    else if name == "outputs"
    then some vision_outputs
    else none

-- `Embedding_Element::OnObject`.
unfoldable pub embedding_on_object : String → Option Element
embedding_on_object name =
    if name == "inputs"
    then some embedding_inputs
    else if name == "outputs"
    then some embedding_outputs
    else none

-- The element that a class yields, or its `unknown_value_error`.
abbrev pub found {κ} : {A : Type κ} → Option Element → A → Fault ⊎ (Element × A)
found none r = inl unknown_value
found (some element) r = inr (element, r)

module _ {ℓ} {F : Type ℓ} where
  -- The options for one more provider.
  unfoldable pub add_provider : String → Reading F → Reading F
  add_provider name r =
      let m = r.config.model in
      let d = m.decoder in
      let s = d.session_options in
      record {
        has_options = true;
        config = record r.config {
          model = record m {
            decoder = record d {
              session_options = record s {
                provider_options = s.provider_options ++ record { name = name; options = [] } ∷ [];
              };
            };
          };
        };
      }

  -- `ProviderOptionsObject_Element::OnObject`.
  unfoldable pub provider_on_object : String → Reading F → Fault ⊎ (Element × Reading F)
  unfolding add_provider
  provider_on_object name r =
      if r.has_options then inl one_member_only else inr (provider_options, add_provider name r)

  -- `OnObject` of every element; those that do not override it throw.
  unfoldable pub on_object : Element → String → Reading F → Fault ⊎ (Element × Reading F)
  unfolding root_on_object model_on_object decoder_on_object vision_on_object embedding_on_object
      provider_on_object
  on_object root_object name r = inr (root, r)
  on_object root name r = found (root_on_object name) r
  on_object model name r = found (model_on_object name) r
  on_object decoder name r = found (decoder_on_object name) r
  on_object vision name r = found (vision_on_object name) r
  on_object embedding name r = found (embedding_on_object name) r
  on_object provider_options_array name r = inr (provider_options_object, r)
  on_object provider_options_object name r = provider_on_object name r
  on_object _ name r = inl unknown_value

  -- `OnComplete`, which only the array of end tokens overrides.
  unfoldable pub on_complete : Element → Bool → Reading F → Reading F
  unfolding Handlers.eos_array_on_complete
  on_complete eos_array empty r = record r {
    config = record r.config { model = Handlers.eos_array_on_complete r.config.model };
  }
  on_complete _ empty r = r

  -- `OnNumber`.
  module _ {D : Type 0} (to_int : D → ℤ) (to_float : D → F) where
    unfoldable pub on_number : Element → String → D → Reading F → Fault ⊎ Reading F
    unfolding Handlers.model_on_number Handlers.decoder_on_number Handlers.session_options_on_number
        Handlers.eos_array_on_number Search.search_on_number
    on_number element name value r =
        let m = r.config.model in
        let d = m.decoder in
        elim element [
          | root ↦ inr r
          | model ↦ with_model r (Handlers.model_on_number to_int name value m)
          | decoder ↦ with_model r (
              change (Handlers.decoder_on_number to_int name value d)
                (λ x. record m { decoder = x }))
          | session_options ↦ with_model r (
              change (Handlers.session_options_on_number to_int name value d.session_options)
                (λ x. record m { decoder = record d { session_options = x } }))
          | eos_array ↦ with_model r (some (Handlers.eos_array_on_number (to_int value) m))
          | search ↦ elim (Search.search_on_number to_int to_float name value r.config.search) [
            | none ↦ inl unknown_value
            | some x ↦ inr (record r { config = record r.config { search = x } })
          ]
          | _ ↦ inl unknown_value
        ]
