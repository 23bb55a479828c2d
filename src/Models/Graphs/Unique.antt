-- ===== src/Models/Graphs/Unique.antt =====
-- Graphs that are reserved at the same time have different annotation ids.
use onnxruntime_genai_privat.Base.{
  ℕ, zero, suc, ◌+◌, ◌^◌, ◌≤◌, ◌<◌, ◌≡◌, ◌≢◌, ap, inl, inr, refl, Bool, true, false, Option, none,
  some, List, [], ◌∷◌, ◌++◌, length, All, All-imp, Bool-cases, ltb, ◌==◌, ==_iff, if◌then◌else◌,
  arith,
}
use onnxruntime_genai_privat.Std.Sorted.{AllPairs}
use onnxruntime_genai_privat.Models.Graphs.{
  GraphKey, GraphInfo, GraphPool, new_pool, beq_key, take_graph, put_graph, next_id, reserve_taken,
  reserve_captured_graph, add_captured_graph, generate_unique_annotation_id,
}

one_if : Bool → ℕ
one_if b = if b then 1 else 0

-- How often an index occurs among graphs, and in the lists of all keys.
count : ℕ → List GraphInfo → ℕ
count i [] = 0
count i (graph ∷ graphs) = one_if (graph.index == i) + count i graphs

count_all : ℕ → List (GraphKey × List GraphInfo) → ℕ
count_all i [] = 0
count_all i ((key, graphs) ∷ rest) = count i graphs + count_all i rest

count-push :
    (i : ℕ) (xs : List GraphInfo) (g : GraphInfo)
    → count i (xs ++ g ∷ []) ≡ count i xs + one_if (g.index == i)
unfolding count
count-push i [] g = omega arith
count-push i (x ∷ xs) g = omega (arith, count-push i xs g)

count_taken : ℕ → Option GraphInfo → ℕ
count_taken i none = 0
count_taken i (some graph) = one_if (graph.index == i)

count_all-take_graph :
    (i : ℕ) (key : GraphKey) (m : List (GraphKey × List GraphInfo))
    → count_all i m ≡ count_taken i (take_graph key m).0 + count_all i (take_graph key m).1
unfolding take_graph count_all count count_taken
count_all-take_graph i key [] = omega arith
count_all-take_graph i key ((other, []) ∷ rest) = elim (Bool-cases (beq_key key other)) [
  | inl e ↦ rw e (omega arith)
  | inr e ↦ rw e (omega (arith, count_all-take_graph i key rest))
]
count_all-take_graph i key ((other, graph ∷ graphs) ∷ rest) =
    elim (Bool-cases (beq_key key other)) [
      | inl e ↦ rw e (omega arith)
      | inr e ↦ rw e (omega (arith, count_all-take_graph i key rest))
    ]

count_all-put_graph :
    (i : ℕ) (graph : GraphInfo) (m : List (GraphKey × List GraphInfo))
    → count_all i (put_graph graph m) ≡ count_all i m + one_if (graph.index == i)
unfolding put_graph count_all count
count_all-put_graph i graph [] = omega arith
count_all-put_graph i graph ((other, graphs) ∷ rest) = elim (Bool-cases (beq_key graph.key other)) [
  | inl e ↦ rw e (omega (arith, count-push i graphs graph))
  | inr e ↦ rw e (omega (arith, count_all-put_graph i graph rest))
]

-- Calls of generators that share a pool: each reserves a graph, or gives back one of those in use.
pub data Call : Type 0 where
  reserved : Bool → GraphKey → Call
  returned : ℕ → Call

pub record Shared : Type 0 where
  pub pool : GraphPool
  pub used : List GraphInfo

pub with_graph : Option GraphInfo → List GraphInfo → List GraphInfo
with_graph none used = used
with_graph (some graph) used = graph ∷ used

-- The graph at a place in the list of those in use, and the others.
pub give_back : ℕ → List GraphInfo → Option GraphInfo × List GraphInfo
give_back place [] = (none, [])
give_back zero (graph ∷ graphs) = (some graph, graphs)
give_back (suc place) (graph ∷ graphs) =
    let (given, kept) = give_back place graphs in (given, graph ∷ kept)

pub added : Option GraphInfo → GraphPool → GraphPool
unfolding add_captured_graph
added none pool = pool
added (some graph) pool = add_captured_graph graph pool

pub call : Call → Shared → Shared
unfolding reserve_captured_graph with_graph give_back added
call (reserved allowed key) s =
    let (graph, pool) = reserve_captured_graph allowed key s.pool in
    record { pool = pool; used = with_graph graph s.used }
call (returned place) s =
    let (graph, kept) = give_back place s.used in record { pool = added graph s.pool; used = kept }

pub calls : List Call → Shared → Shared
unfolding call
calls [] s = s
calls (c ∷ cs) s = calls cs (call c s)

abbrev pub new_shared : Shared
new_shared = record { pool = new_pool; used = [] }

-- Every index below the next one belongs to one graph at most, and no other index to any.
IsUnique : Shared → Type 0
IsUnique s =
    (i : ℕ)
    → count_all i s.pool.captured_graphs + count i s.used
      ≤ one_if (ltb i s.pool.current_graph_annotation_id)

count-with_graph :
    (i : ℕ) (g : Option GraphInfo) (used : List GraphInfo)
    → count i (with_graph g used) ≡ count_taken i g + count i used
unfolding with_graph count count_taken
count-with_graph i none used = omega arith
count-with_graph i (some graph) used = refl

count-give_back :
    (i place : ℕ) (used : List GraphInfo)
    → count i used ≡ count_taken i (give_back place used).0 + count i (give_back place used).1
unfolding give_back count count_taken
count-give_back i place [] = omega arith
count-give_back i zero (graph ∷ graphs) = omega arith
count-give_back i (suc place) (graph ∷ graphs) = omega (arith, count-give_back i place graphs)

count_all-added :
    (i : ℕ) (g : Option GraphInfo) (pool : GraphPool)
    → count_all i (added g pool).captured_graphs
      ≡ count_all i pool.captured_graphs + count_taken i g
unfolding added add_captured_graph count_taken
count_all-added i none pool = omega arith
count_all-added i (some graph) pool = count_all-put_graph i graph pool.captured_graphs

next-added :
    (g : Option GraphInfo) (pool : GraphPool)
    → (added g pool).current_graph_annotation_id ≡ pool.current_graph_annotation_id
unfolding added add_captured_graph
next-added none pool = refl
next-added (some graph) pool = refl

-- Ids do not overflow this early.
next_id_lem : (id : ℕ) → id < 2 ^ 15 → next_id id ≡ id + 1
unfolding next_id
next_id_lem id low = omega arith

in_use_below :
    (x : GraphInfo) (xs : List GraphInfo)
    → ((i : ℕ) → count i (x ∷ xs) ≤ one_if (ltb i (2 ^ 15)))
    → x.index < 2 ^ 15
unfolding count one_if
in_use_below x xs h =
    let own : (x.index == x.index) ≡ true = (==_iff x.index x.index).1 refl in
    let one = rw own at (h x.index) in ground arith

reserve_taken-count :
    (i used : ℕ) (key : GraphKey) (pool : GraphPool)
    (found : Option GraphInfo × List (GraphKey × List GraphInfo))
    → pool.current_graph_annotation_id < 2 ^ 15
    → count_taken i found.0 + count_all i found.1 + used
      ≤ one_if (ltb i pool.current_graph_annotation_id)
    → (count_all i (reserve_taken key pool found).1.captured_graphs
          + (count_taken i (reserve_taken key pool found).0 + used)
        ≤ one_if (ltb i (reserve_taken key pool found).1.current_graph_annotation_id))
      × ((reserve_taken key pool found).1.current_graph_annotation_id
          ≤ pool.current_graph_annotation_id + 1)
unfolding reserve_taken count_taken one_if
reserve_taken-count i used key pool (some graph, left) low h = (omega arith, omega arith)
reserve_taken-count i used key pool (none, left) low h =
    let whole : next_id pool.current_graph_annotation_id ≡ pool.current_graph_annotation_id + 1 =
      next_id_lem pool.current_graph_annotation_id low in
    rw whole (ground arith, omega arith)

-- A call keeps the ids apart, and makes the next id greater by one at most.
call-IsUnique :
    (c : Call) (s : Shared)
    → s.pool.current_graph_annotation_id < 2 ^ 15
    → IsUnique s
    → IsUnique (call c s)
      × ((call c s).pool.current_graph_annotation_id ≤ s.pool.current_graph_annotation_id + 1)
unfolding call IsUnique
call-IsUnique (returned place) s low h = (
  λ i. omega (
    arith,
    h i,
    count-give_back i place s.used,
    count_all-added i (give_back place s.used).0 s.pool,
    ap (λ n. one_if (ltb i n)) (next-added (give_back place s.used).0 s.pool),
  ),
  omega (arith, next-added (give_back place s.used).0 s.pool),
)
call-IsUnique (reserved false key) s low h =
    (λ i. omega (arith, h i, count-with_graph i none s.used), omega arith)
call-IsUnique (reserved true key) s low h =
    (λ i. omega (arith, count-with_graph i reserved_graph.0 s.used, (kept i).0), (kept 0).1)
  where
    reserved_graph : Option GraphInfo × GraphPool
    reserved_graph = reserve_taken key s.pool (take_graph key s.pool.captured_graphs)

    kept :
        (i : ℕ)
        → (count_all i reserved_graph.1.captured_graphs
              + (count_taken i reserved_graph.0 + count i s.used)
            ≤ one_if (ltb i reserved_graph.1.current_graph_annotation_id))
          × (reserved_graph.1.current_graph_annotation_id ≤ s.pool.current_graph_annotation_id + 1)
    kept i =
        reserve_taken-count i (count i s.used) key s.pool (take_graph key s.pool.captured_graphs)
          low (omega (arith, h i, count_all-take_graph i key s.pool.captured_graphs))

calls-IsUnique :
    (cs : List Call) (s : Shared)
    → s.pool.current_graph_annotation_id + length cs ≤ 2 ^ 15
    → IsUnique s
    → IsUnique (calls cs s) × ((calls cs s).pool.current_graph_annotation_id ≤ 2 ^ 15)
unfolding calls
calls-IsUnique [] s few h = (h, omega arith)
calls-IsUnique (c ∷ cs) s few h =
    let (kept, next) = call-IsUnique c s (omega arith) h in
    calls-IsUnique cs (call c s) (omega (arith, next)) kept

-- Two graphs never have one annotation id, with any batch sizes below 2^16.
abbrev pub Apart : GraphInfo → GraphInfo → Type 0
Apart a b =
    (s t : ℕ)
    → s < 2 ^ 16
    → t < 2 ^ 16
    → generate_unique_annotation_id a s ≢ generate_unique_annotation_id b t

Apart-of :
    (a b : GraphInfo) → a.index < 2 ^ 15 → (b.index ≢ a.index) × (b.index < 2 ^ 15) → Apart a b
unfolding generate_unique_annotation_id
Apart-of a b low (ne, low') s t hs ht e = ne (omega arith)

absent :
    (i : ℕ) (xs : List GraphInfo)
    → count i xs ≡ 0
    → ((j : ℕ) → count j xs ≤ one_if (ltb j (2 ^ 15)))
    → All (λ b. (b.index ≢ i) × (b.index < 2 ^ 15)) xs
unfolding count one_if
absent i [] h few = tt
absent i (x ∷ xs) h few =
    ((ground arith, in_use_below x xs few), absent i xs (omega arith) (λ j. omega (arith, few j)))

once-AllPairs :
    (xs : List GraphInfo) → ((i : ℕ) → count i xs ≤ one_if (ltb i (2 ^ 15))) → AllPairs Apart xs
unfolding count one_if
once-AllPairs [] h = tt
once-AllPairs (x ∷ xs) h =
    let own : (x.index == x.index) ≡ true = (==_iff x.index x.index).1 refl in
    let rest : count x.index xs ≡ 0 =
      (let one = rw own at (h x.index) in let low = in_use_below x xs h in ground arith) in
    (
      All-imp xs (λ b apart. Apart-of x b (in_use_below x xs h) apart)
          (absent x.index xs rest (λ j. omega (arith, h j))),
      once-AllPairs xs (λ i. omega (arith, h i)),
    )

-- After fewer than 2^15 calls from a new pool, the graphs in use have different annotation ids,
-- whatever batch sizes below 2^16 they run with.
pub calls-Apart : (cs : List Call) → length cs < 2 ^ 15 → AllPairs Apart (calls cs new_shared).used
unfolding IsUnique count count_all one_if
calls-Apart cs few =
    let (unique, low) = calls-IsUnique cs new_shared (omega arith) (λ _. omega arith) in
    once-AllPairs (calls cs new_shared).used (λ i. below_limit _ _ i _ low (unique i))
  where
    below_limit :
        (a b i n : ℕ) → n ≤ 2 ^ 15 → a + b ≤ one_if (ltb i n) → b ≤ one_if (ltb i (2 ^ 15))
    below_limit a b i n low h = ground arith
