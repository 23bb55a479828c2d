-- ===== src/Models/Graphs.antt =====
-- src/models/captured_graph_pool.cpp and .h: the pool of captured graphs, by the key of what they were
-- captured for. The buffers of a graph and the lock are left out. Names are their bytes.
pub mod Unique
use onnxruntime_genai_privat.Base.{
  ℕ, zero, suc, ◌+◌, ◌*◌, ◌%◌, ◌^◌, Bool, true, false, not, ◌&&◌, ◌||◌, Option, none, some, List,
  [], ◌∷◌, ◌++◌, map, ltb, ◌==◌, if◌then◌else◌,
}
use onnxruntime_genai_privat.Std.{sort_by}

pub record InputKey : Type 0 where
  pub name : List ℕ
  pub tensor_type : ℕ
  pub tensor_shape : List ℕ

pub record GraphKey : Type 0 where
  pub max_batch_size : ℕ
  pub max_length : ℕ
  pub num_beams : ℕ
  pub extra_inputs : List InputKey

-- `a.compare(b) < 0`.
pub less_name : List ℕ → List ℕ → Bool
less_name xs [] = false
less_name [] (y ∷ ys) = true
less_name (x ∷ xs) (y ∷ ys) =
    let rest = less_name xs ys in if ltb x y then true else if x == y then rest else false

pub beq_numbers : List ℕ → List ℕ → Bool
beq_numbers [] [] = true
beq_numbers [] (y ∷ ys) = false
beq_numbers (x ∷ xs) [] = false
beq_numbers (x ∷ xs) (y ∷ ys) = (x == y) && beq_numbers xs ys

pub beq_input : InputKey → InputKey → Bool
unfolding beq_numbers
beq_input a b =
    beq_numbers a.name b.name
    && (a.tensor_type == b.tensor_type)
    && beq_numbers a.tensor_shape b.tensor_shape

pub beq_inputs : List InputKey → List InputKey → Bool
unfolding beq_input
beq_inputs [] [] = true
beq_inputs [] (y ∷ ys) = false
beq_inputs (x ∷ xs) [] = false
beq_inputs (x ∷ xs) (y ∷ ys) = beq_input x y && beq_inputs xs ys

pub beq_key : GraphKey → GraphKey → Bool
unfolding beq_inputs
beq_key a b =
    (a.max_batch_size == b.max_batch_size)
    && (a.max_length == b.max_length)
    && (a.num_beams == b.num_beams)
    && beq_inputs a.extra_inputs b.extra_inputs

-- The constructor of a key sorts the inputs by name.
pub make_key : ℕ → ℕ → ℕ → List InputKey → GraphKey
unfolding less_name sort_by
make_key max_batch_size max_length num_beams extra_inputs = record {
  max_batch_size = max_batch_size;
  max_length = max_length;
  num_beams = num_beams;
  extra_inputs = sort_by (λ a b. less_name a.name b.name) extra_inputs;
}

pub record GraphInfo : Type 0 where
  pub index : ℕ
  pub key : GraphKey

-- The graphs of a key that are not in use, and the next id; 0 is reserved.
pub record GraphPool : Type 0 where
  pub captured_graphs : List (GraphKey × List GraphInfo)
  pub current_graph_annotation_id : ℕ

abbrev pub new_pool : GraphPool
new_pool = record { captured_graphs = []; current_graph_annotation_id = 1 }

-- The front of the list of a key; an absent key has an empty list.
pub take_graph :
    GraphKey
    → List (GraphKey × List GraphInfo)
    → Option GraphInfo × List (GraphKey × List GraphInfo)
unfolding beq_key
take_graph key [] = (none, [])
take_graph key ((other, []) ∷ rest) =
    let (taken, left) = take_graph key rest in
    if beq_key key other then (none, (other, []) ∷ rest) else (taken, (other, []) ∷ left)
take_graph key ((other, graph ∷ graphs) ∷ rest) =
    let (taken, left) = take_graph key rest in
    if beq_key key other
    then (some graph, (other, graphs) ∷ rest)
    else (taken, (other, graph ∷ graphs) ∷ left)

pub put_graph : GraphInfo → List (GraphKey × List GraphInfo) → List (GraphKey × List GraphInfo)
unfolding beq_key
put_graph graph [] = (graph.key, graph ∷ []) ∷ []
put_graph graph ((other, graphs) ∷ rest) =
    let later = put_graph graph rest in
    if beq_key graph.key other
    then (other, graphs ++ graph ∷ []) ∷ rest
    else (other, graphs) ∷ later

-- `current_graph_annotation_id_++`: ids are the bits of an `int`.
pub next_id : ℕ → ℕ
next_id id = (id + 1) % 2 ^ 32

-- A graph that was found is taken from the pool; without one a new id is given out.
pub reserve_taken :
    GraphKey
    → GraphPool
    → Option GraphInfo × List (GraphKey × List GraphInfo)
    → Option GraphInfo × GraphPool
unfolding next_id
reserve_taken key pool (some graph, left) = (some graph, record pool { captured_graphs = left })
reserve_taken key pool (none, left) = (
  some (record { index = pool.current_graph_annotation_id; key = key }),
  record {
    captured_graphs = left;
    current_graph_annotation_id = next_id pool.current_graph_annotation_id;
  },
)

-- ReserveCapturedGraph: `allowed` is the first test, on `use_cuda_graph` and the device.
pub reserve_captured_graph : Bool → GraphKey → GraphPool → Option GraphInfo × GraphPool
unfolding reserve_taken
reserve_captured_graph allowed key pool =
    if not allowed
    then (none, pool)
    else reserve_taken key pool (take_graph key pool.captured_graphs)

pub add_captured_graph : GraphInfo → GraphPool → GraphPool
add_captured_graph graph pool = record pool {
  captured_graphs = put_graph graph pool.captured_graphs;
}

-- The bits of `(index_ << 16) | batch_size`: the lower half of the index goes to the upper half of
-- the `int`, and for a batch size below 2^16 the `|` of the source is this sum.
pub generate_unique_annotation_id : GraphInfo → ℕ → ℕ
generate_unique_annotation_id graph batch_size = graph.index * 2 ^ 16 % 2 ^ 32 + batch_size
