-- ===== src/Config/Names.antt =====
-- `Config::AddMapping` and `Config::GetGraphName` of src/config.cpp, on the map of names as an
-- association list.
use Prim.Native.String.{String}
use text.Mathlib.Text.{◌==◌}
use text.Mathlib.TextEquality.{eq_iff}
use text.Mathlib.TextPositions.{eq_refl}
use onnxruntime_genai_privat.Base.{
  ◌≡◌, ◌≢◌, refl, ◌∙◌, ap, Bool, true, false, Option, none, some, List, [], ◌∷◌, if◌then◌else◌, ◌⊎◌,
  inl, inr, arith, Bool-cases, Option-cases, ◌↔◌,
}

-- `find`.
unfoldable pub find : String → List (String × String) → Option String
find key [] = none
find key ((k, v) ∷ rest) = let later = find key rest in if key == k then some v else later

-- `AddMapping`: `emplace` keeps an entry that is there, and another graph name for it is refused, with
-- the one that stands.
unfoldable pub add_mapping :
    List (String × String) → String → String → String ⊎ List (String × String)
unfolding find
add_mapping names nominal graph = elim (find nominal names) [
  | none ↦ inr ((nominal, graph) ∷ names)
  | some there ↦ if there == graph then inr names else inl there
]

-- `GetGraphName`.
unfoldable pub get_graph_name : List (String × String) → String → String × Bool
unfolding find
get_graph_name names nominal = elim (find nominal names) [
  | none ↦ (nominal, false)
  | some there ↦ (there, true)
]

differs : (s t : String) → s ≢ t → (s == t) ≡ false
differs s t ne = elim (Bool-cases (s == t)) [ inl e ↦ absurd (ne ((eq_iff s t).0 e)) | inr e ↦ e ]

-- The map after a mapping is accepted: with the mapping in front, or the same.
add_mapping-cases :
    (names more : List (String × String)) (nominal graph : String)
    → add_mapping names nominal graph ≡ inr more
    → (more ≡ (nominal, graph) ∷ names) ⊎ ((more ≡ names) × (find nominal names ≡ some graph))
unfolding add_mapping
add_mapping-cases names more nominal graph e = elim (Option-cases (find nominal names)) [
  | inl absent ↦ let added = rw (add_mapping, absent) at e in inl cc
  | inr (there, present) ↦
      let checked = rw (add_mapping, present) at e in
      elim (Bool-cases (there == graph)) [
        | inl same ↦
            let kept = rw same at checked in
            inr (cc, present ∙ ap some ((eq_iff there graph).0 same))
        | inr other ↦ let refused = rw other at checked in absurd cc
      ]
]

get_graph_name-front :
    (names : List (String × String)) (nominal graph key : String)
    → get_graph_name ((nominal, graph) ∷ names) key
      ≡ (if key == nominal then (graph, true) else get_graph_name names key)
unfolding get_graph_name find
get_graph_name-front names nominal graph key = elim (Bool-cases (key == nominal)) [
  | inl e ↦ rw (get_graph_name, find, e) refl
  | inr e ↦ rw (get_graph_name, find, e) refl
]

-- A mapping that is accepted is the one that is found; every other nominal name is found, or not
-- found, as before.
pub get_graph_name-add_mapping :
    (names more : List (String × String)) (nominal graph : String)
    → add_mapping names nominal graph ≡ inr more
    → (get_graph_name more nominal ≡ (graph, true))
      × ((other : String)
          → other ≢ nominal
          → get_graph_name more other ≡ get_graph_name names other)
unfolding get_graph_name
get_graph_name-add_mapping names more nominal graph e =
    elim (add_mapping-cases names more nominal graph e) [
      | inl added ↦ rw added (
        get_graph_name-front names nominal graph nominal ∙ rw (eq_refl nominal) refl,
        λ other ne.
            get_graph_name-front names nominal graph other ∙ rw (differs other nominal ne) refl,
      )
      | inr (kept, found) ↦ rw kept (rw (get_graph_name, found) refl, λ other ne. refl)
    ]

-- A mapping is refused exactly when the nominal name has another graph name.
pub add_mapping-refused :
    (names : List (String × String)) (nominal graph there : String)
    → (add_mapping names nominal graph ≡ inl there)
      ↔ ((get_graph_name names nominal ≡ (there, true)) × (there ≢ graph))
unfolding add_mapping get_graph_name
add_mapping-refused names nominal graph there = ground (arith, eq_iff there graph)
