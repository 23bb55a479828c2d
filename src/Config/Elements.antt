-- ===== src/Config/Elements.antt =====
-- The tree of `JSON::Element` objects of src/config.cpp that fills a configuration.
use Prim.Native.String.{String}
use text.Mathlib.Text.{◌==◌}
use onnxruntime_genai_privat.Base.{
  Bool, Option, none, some, List, [], ◌∷◌, ◌++◌, if◌then◌else◌, ◌⊎◌, inl, inr,
}
use onnxruntime_genai_privat.Config.Data.{ProviderOptions, Model, Config}
use onnxruntime_genai_privat.Config.Handlers
use onnxruntime_genai_privat.Config.Search

-- The element objects. Each fills a fixed part of the configuration.
pub data Element : Type 0 where
  root_object : Element
  root : Element
  model : Element
  search : Element
  encoder_decoder_init : Element
  decoder : Element
  session_options : Element
  provider_options_array : Element
  provider_options_object : Element
  provider_options : Element
  inputs : Element
  outputs : Element
  eos_array : Element
  vision : Element
  vision_inputs : Element
  vision_outputs : Element
  embedding : Element
  embedding_inputs : Element
  embedding_outputs : Element

-- The exceptions: `unknown_value_error`, and that of `ProviderOptionsObject_Element`.
pub data Fault : Type 0 where
  unknown_value : Fault
  one_member_only : Fault

-- The configuration while it is read; `has_options` says whether the only
-- `ProviderOptionsObject_Element` has its `options_element_`.
pub record Reading {ℓ} (F : Type ℓ) : Type ℓ where
  pub config : Config F
  pub has_options : Bool

-- `v_.options.emplace_back(name, value)` on the options that were added last.
unfoldable pub add_option : String → String → List ProviderOptions → List ProviderOptions
add_option name value [] = []
add_option name value (o ∷ []) = record o { options = o.options ++ (name, value) ∷ [] } ∷ []
add_option name value (o ∷ p ∷ rest) = o ∷ add_option name value (p ∷ rest)

-- A part of the model, changed by its handler.
abbrev pub change {κ} : {A : Type κ} → Option A → (A → Model) → Option Model
change none put = none
change (some a) put = some (put a)

-- Whether `SessionOptions_Element::OnArray` yields its array of providers.
unfoldable pub session_options_on_array : String → Bool
session_options_on_array name = name == "provider_options"

-- Whether `Model_Element::OnArray` yields its array of end tokens.
unfoldable pub model_on_array : String → Bool
model_on_array name = name == "eos_token_id"

module _ {ℓ} {F : Type ℓ} where
  abbrev pub with_model : Reading F → Option Model → Fault ⊎ Reading F
  with_model r none = inl unknown_value
  with_model r (some m) = inr (record r { config = record r.config { model = m } })

  -- `OnString`; the elements that do not override it throw.
  unfoldable pub on_string : Element → String → String → Reading F → Fault ⊎ Reading F
  unfolding Handlers.model_on_string Handlers.encoder_decoder_init_on_string
      Handlers.decoder_on_string Handlers.session_options_on_string Handlers.inputs_on_string
      Handlers.outputs_on_string Handlers.vision_on_string Handlers.vision_inputs_on_string
      Handlers.vision_outputs_on_string Handlers.embedding_on_string
      Handlers.embedding_inputs_on_string Handlers.embedding_outputs_on_string add_option
  on_string element name value r =
      let m = r.config.model in
      let d = m.decoder in
      let s = d.session_options in
      elim element [
        | root ↦ inr r
        | model ↦ with_model r (Handlers.model_on_string name value m)
        | encoder_decoder_init ↦ with_model r (Handlers.encoder_decoder_init_on_string name value m)
        | decoder ↦
            with_model r
              (change (Handlers.decoder_on_string name value d) (λ x. record m { decoder = x }))
        | session_options ↦ with_model r (
            change (Handlers.session_options_on_string name value s)
              (λ x. record m { decoder = record d { session_options = x } }))
        | provider_options ↦ with_model r (
            some (record m {
              decoder = record d {
                session_options = record s {
                  provider_options = add_option name value s.provider_options;
                };
              };
            }))
        | inputs ↦ with_model r (
            change (Handlers.inputs_on_string name value d.inputs)
              (λ x. record m { decoder = record d { inputs = x } }))
        | outputs ↦ with_model r (
            change (Handlers.outputs_on_string name value d.outputs)
              (λ x. record m { decoder = record d { outputs = x } }))
        | vision ↦
            with_model r (
              change (Handlers.vision_on_string name value m.vision) (λ x. record m { vision = x }))
        | vision_inputs ↦ with_model r (
            change (Handlers.vision_inputs_on_string name value m.vision.inputs)
              (λ x. record m { vision = record m.vision { inputs = x } }))
        | vision_outputs ↦ with_model r (
            change (Handlers.vision_outputs_on_string name value m.vision.outputs)
              (λ x. record m { vision = record m.vision { outputs = x } }))
        | embedding ↦ with_model r (
            change (Handlers.embedding_on_string name value m.embedding)
              (λ x. record m { embedding = x }))
        | embedding_inputs ↦ with_model r (
            change (Handlers.embedding_inputs_on_string name value m.embedding.inputs)
              (λ x. record m { embedding = record m.embedding { inputs = x } }))
        | embedding_outputs ↦ with_model r (
            change (Handlers.embedding_outputs_on_string name value m.embedding.outputs)
              (λ x. record m { embedding = record m.embedding { outputs = x } }))
        | root_object ↦ inl unknown_value
        | search ↦ inl unknown_value
        | provider_options_array ↦ inl unknown_value
        | provider_options_object ↦ inl unknown_value
        | eos_array ↦ inl unknown_value
      ]

  -- `OnBool`.
  unfoldable pub on_bool : Element → String → Bool → Reading F → Fault ⊎ Reading F
  unfolding Handlers.session_options_on_bool Search.search_on_bool
  on_bool element name value r =
      let m = r.config.model in
      let d = m.decoder in
      elim element [
        | session_options ↦ with_model r (
            change (Handlers.session_options_on_bool name value d.session_options)
              (λ x. record m { decoder = record d { session_options = x } }))
        | search ↦ elim (Search.search_on_bool name value r.config.search) [
          | none ↦ inl unknown_value
          | some x ↦ inr (record r { config = record r.config { search = x } })
        ]
        | _ ↦ inl unknown_value
      ]

  -- `OnArray`.
  unfoldable pub on_array : Element → String → Reading F → Fault ⊎ (Element × Reading F)
  unfolding session_options_on_array model_on_array
  on_array session_options name r =
      if session_options_on_array name then inr (provider_options_array, r) else inl unknown_value
  on_array model name r = if model_on_array name then inr (eos_array, r) else inl unknown_value
  on_array _ name r = inl unknown_value
