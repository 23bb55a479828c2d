-- ===== src/Config/Tree/Providers.antt =====
-- The "provider_options" of a configuration file: an array whose elements are objects of one member,
-- read by src/config.cpp.
use Prim.Native.String.{String}
use onnxruntime_genai_privat.Base.{
  ◌≡◌, ◌∙◌, ap, refl, true, false, ◌⊎◌, inl, inr, List, [], ◌∷◌, ◌++◌,
}
use onnxruntime_genai_privat.Config.Data.{ProviderOptions}
use onnxruntime_genai_privat.Config.Elements.{
  Element, provider_options_array, provider_options, Fault, one_member_only, Reading, on_string,
  add_option,
}
use mathlib.Core.List.{append-nil, append_assoc}
use onnxruntime_genai_privat.Config.Tree.{add_provider, provider_on_object, on_object}

-- What the parser does with one provider: the object of the array, and its member.
pub on_provider : {F : Type 0} → String → String → Reading F → Fault ⊎ (Element × Reading F)
unfolding on_object
on_provider outer name r = elim (on_object provider_options_array outer r) [
  | inl e ↦ inl e
  | inr (element, now) ↦ on_object element name now
]

-- The strings in the object of a provider, one after the other.
pub read_strings : {F : Type 0} → List (String × String) → Reading F → Fault ⊎ Reading F
unfolding on_string
read_strings [] r = inr r
read_strings ((key, value) ∷ rest) r = elim (on_string provider_options key value r) [
  | inl e ↦ inl e
  | inr now ↦ read_strings rest now
]

-- A configuration with one more provider, which has these options.
abbrev pub with_provider : {F : Type 0} → String → List (String × String) → Reading F → Reading F
with_provider name options r =
    let m = r.config.model in
    let d = m.decoder in
    let s = d.session_options in
    record {
      has_options = true;
      config = record r.config {
        model = record m {
          decoder = record d {
            session_options = record s {
              provider_options =
                  s.provider_options ++ record { name = name; options = options } ∷ [];
            };
          };
        };
      };
    }

add_option-last :
    (key value : String) (before : List ProviderOptions) (o : ProviderOptions)
    → add_option key value (before ++ o ∷ [])
      ≡ before ++ record o { options = o.options ++ (key, value) ∷ [] } ∷ []
unfolding add_option
add_option-last key value [] o = refl
add_option-last key value (p ∷ []) o = refl
add_option-last key value (p ∷ q ∷ rest) o =
    ap (λ (l : List ProviderOptions). p ∷ l) (add_option-last key value (q ∷ rest) o)

on_string-with_provider :
    {F : Type 0} (name key value : String) (options : List (String × String)) (r : Reading F)
    → on_string provider_options key value (with_provider name options r)
      ≡ inr (with_provider name (options ++ (key, value) ∷ []) r)
unfolding on_string
on_string-with_provider name key value options r =
    rw
      (add_option-last key value r.config.model.decoder.session_options.provider_options
        (record { name = name; options = options }))
      refl

read_strings-with_provider :
    {F : Type 0} (name : String) (more options : List (String × String)) (r : Reading F)
    → read_strings more (with_provider name options r)
      ≡ inr (with_provider name (options ++ more) r)
unfolding read_strings
read_strings-with_provider name [] options r = rw (append-nil options) refl
read_strings-with_provider name ((key, value) ∷ more) options r =
    ap (λ (x : Fault ⊎ Reading _). elim x [ inl e ↦ inl e | inr now ↦ read_strings more now ])
      (on_string-with_provider name key value options r)
    ∙ (read_strings-with_provider name more (options ++ (key, value) ∷ []) r
        ∙ rw (append_assoc options ((key, value) ∷ []) more) refl)

-- The first provider of a file is accepted, whatever it is called, and is added with the strings of
-- its object, in order; the next one is refused, also as an object of its own in the array.
pub second_provider_refused :
    {F : Type 0} (r : Reading F) (outer first second : String) (options : List (String × String))
    → r.has_options ≡ false
    → (t : Reading F) × (on_provider outer first r ≡ inr (provider_options, t))
      × (read_strings options t ≡ inr (with_provider first options r))
      × (on_provider outer second (with_provider first options r) ≡ inl one_member_only)
unfolding on_provider on_object provider_on_object add_provider
second_provider_refused r outer first second options new =
    (add_provider first r, rw new refl, read_strings-with_provider first options [] r, refl)
