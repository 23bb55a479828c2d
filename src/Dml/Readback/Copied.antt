-- ===== src/Dml/Readback/Copied.antt =====
-- Reading several resources back: each destination gets the bytes of its resource.
use onnxruntime_genai_privat.Base.{
  ℕ, ◌+◌, ◌-◌, ◌^◌, ◌≤◌, ◌<◌, ◌≡◌, inl, inr, refl, ap, ◌∙◌, Bool, true, some, List, [], ◌∷◌, All,
  Bool-cases, ltb→lt, length, get_elem?, take, subspan, write_at, ltb, leb, arith, map, length-take,
  length-write_at, get_elem?-write_at, get_elem?-subspan, get_elem?-take, List-ext,
}
use onnxruntime_genai_privat.Dml.Readback.{
  Source, ReadbackHeap, Device, all_copied, add_uint32, total_size, copy_sources, copy_results,
  ensure_readback_heap, readback_from_gpu,
}
use onnxruntime_genai_privat.Dml.Readback.Growing.{IsReady, ensure_readback_heap-Ensured}

-- The bytes of all sources.
unfoldable pub bytes_of : List Source → ℕ
bytes_of [] = 0
bytes_of (source ∷ sources) = source.size + bytes_of sources

-- Each resource has the bytes that are read of it.
abbrev pub HasBytes : Source → Type 0
HasBytes source = source.size ≤ length source.bytes

unfoldable pub read : Source → List ℕ
read source = take source.size source.bytes

-- No more than `uint32_t` counts.
total_size_lem :
    (sources : List Source) (total : ℕ)
    → total + bytes_of sources < 2 ^ 32
    → total_size total sources ≡ total + bytes_of sources
unfolding total_size bytes_of
total_size_lem [] total h = omega arith
total_size_lem (source ∷ sources) total h =
    let whole : add_uint32 total source.size ≡ total + source.size = omega arith in
    rw whole (omega (arith, total_size_lem sources (total + source.size) (omega arith)))

-- What is copied later stands behind.
get_elem?-copy_sources :
    (sources : List Source) (buffer : List ℕ) (offset j : ℕ)
    → All HasBytes sources
    → offset + bytes_of sources ≤ length buffer
    → offset + bytes_of sources < 2 ^ 32
    → j < offset
    → get_elem? (copy_sources buffer offset sources) j ≡ get_elem? buffer j
unfolding copy_sources bytes_of
get_elem?-copy_sources [] buffer offset j has fits small lt = refl
get_elem?-copy_sources (source ∷ sources) buffer offset j has fits small lt =
    let n = length-take source.size source.bytes in
    let whole : add_uint32 offset source.size ≡ offset + source.size = omega arith in
    let same = length-write_at buffer offset (take source.size source.bytes) in
    let cell =
      get_elem?-write_at buffer offset (take source.size source.bytes) j (omega (arith, n)) in
    rw whole (
      get_elem?-copy_sources sources _ (offset + source.size) j has.1 (omega (arith, same))
        (omega arith) (omega arith)
      ∙ ground (arith, cell))

-- The bytes of one resource in the buffer, behind which the others were copied.
subspan-copy_sources :
    (source : Source) (sources : List Source) (buffer : List ℕ) (offset : ℕ)
    → All HasBytes (source ∷ sources)
    → offset + bytes_of (source ∷ sources) ≤ length buffer
    → offset + bytes_of (source ∷ sources) < 2 ^ 32
    → subspan
        (copy_sources (write_at buffer offset (read source)) (offset + source.size) sources)
        offset
        source.size
      ≡ read source
unfolding bytes_of read
subspan-copy_sources source sources buffer offset has fits small =
    List-ext _ (read source) λ j. cell j
  where
    n : length (read source) ≡ source.size
    n = omega (arith, length-take source.size source.bytes, has.0)

    cell :
        (j : ℕ)
        → get_elem?
            (subspan
              (copy_sources (write_at buffer offset (read source)) (offset + source.size) sources)
              offset
              source.size)
            j
          ≡ get_elem? (read source) j
    cell j =
        let taken =
          get_elem?-subspan
            (copy_sources (write_at buffer offset (read source)) (offset + source.size) sources)
            offset source.size j in
        let shown = get_elem?-take source.size source.bytes j in
        elim (Bool-cases (ltb j source.size)) [
          | inr e ↦ rw (taken, e) (rw (shown, e))
          | inl e ↦
              let lt = ltb→lt j source.size e in
              let kept =
                get_elem?-copy_sources sources (write_at buffer offset (read source))
                  (offset + source.size) (offset + j) has.1
                  (omega (arith, length-write_at buffer offset (read source))) (omega arith)
                  (omega arith) in
              let written =
                get_elem?-write_at buffer offset (read source) (offset + j) (omega (arith, n)) in
              let back : offset + j - offset ≡ j = omega arith in
              let low : leb offset (offset + j) ≡ true = ground arith in
              let high : ltb (offset + j) (offset + length (read source)) ≡ true =
                ground (arith, n) in
              rw (taken, e) (kept ∙ rw (written, low, high, back))
        ]

copy_sources-cons :
    (source : Source) (sources : List Source) (buffer : List ℕ) (offset : ℕ)
    → add_uint32 offset source.size ≡ offset + source.size
    → copy_sources buffer offset (source ∷ sources)
      ≡ copy_sources (write_at buffer offset (read source)) (offset + source.size) sources
unfolding copy_sources read
copy_sources-cons source sources buffer offset whole = rw whole

copy_results-nil : (buffer : List ℕ) (offset : ℕ) → copy_results buffer offset [] ≡ map read []
unfolding copy_results
copy_results-nil buffer offset = refl

copy_results-cons :
    (source : Source) (sources : List Source) (buffer : List ℕ) (offset : ℕ)
    → add_uint32 offset source.size ≡ offset + source.size
    → subspan buffer offset source.size ≡ read source
    → copy_results buffer (offset + source.size) sources ≡ map read sources
    → copy_results buffer offset (source ∷ sources) ≡ map read (source ∷ sources)
unfolding copy_results
copy_results-cons source sources buffer offset whole first rest = rw whole (cc (first, rest))

copy_results-copy_sources :
    (sources : List Source) (buffer : List ℕ) (offset : ℕ)
    → All HasBytes sources
    → offset + bytes_of sources ≤ length buffer
    → offset + bytes_of sources < 2 ^ 32
    → copy_results (copy_sources buffer offset sources) offset sources ≡ map read sources
unfolding bytes_of
copy_results-copy_sources [] buffer offset has fits small = copy_results-nil _ offset
copy_results-copy_sources (source ∷ sources) buffer offset has fits small =
    let whole : add_uint32 offset source.size ≡ offset + source.size = omega arith in
    let room = length-write_at buffer offset (read source) in
    rw (copy_sources-cons source sources buffer offset whole) (
      copy_results-cons source sources _ offset whole
        (subspan-copy_sources source sources buffer offset has fits small)
        (copy_results-copy_sources sources (write_at buffer offset (read source))
          (offset + source.size) has.1 (omega (arith, room)) (omega arith)))

all_copied-true :
    (copies : ℕ → Bool) (i : ℕ) (sources : List Source)
    → ((k : ℕ) → copies k ≡ true)
    → all_copied copies i sources ≡ true
unfolding all_copied
all_copied-true copies i [] all = refl
all_copied-true copies i (source ∷ sources) all =
    rw (all i) (all_copied-true copies (i + 1) sources all)

-- The device refuses nothing, and a buffer of a capacity has so many bytes.
pub record Works (device : Device) : Type 0 where
  pub grants : (bytes : ℕ) → device.grants bytes ≡ true
  pub copies : (i : ℕ) → device.copies i ≡ true
  pub flushes : device.flushes ≡ true
  pub maps : device.maps ≡ true
  pub sized : (bytes : ℕ) → length (device.content bytes) ≡ bytes

-- If the resources have the bytes that are read of them, fewer than 2^32 in all, a buffer that is
-- there has a capacity other than 0, a buffer of a capacity has so many bytes, and the device gives
-- every buffer and neither a copy, nor the flush, nor `Map` fails, ReadbackFromGpu returns and gives
-- each destination the bytes of its resource.
pub readback_from_gpu-results :
    (device : Device) (sources : List Source) (heap : ReadbackHeap)
    → Works device
    → IsReady heap
    → All HasBytes sources
    → bytes_of sources < 2 ^ 32
    → (readback_from_gpu device sources heap).1 ≡ some (map read sources)
unfolding readback_from_gpu
readback_from_gpu-results device [] heap w ready has small = refl
readback_from_gpu-results device (source ∷ sources) heap w ready has small =
    let total = total_size_lem (source ∷ sources) 0 (omega arith) in
    let wanted = total_size 0 (source ∷ sources) in
    let ensured = ensure_readback_heap-Ensured device.grants wanted heap ready in
    let copied = all_copied-true device.copies 0 (source ∷ sources) w.copies in
    elim (Bool-cases (ensure_readback_heap device.grants wanted heap).1) [
      | inl e ↦
          rw (e, copied, w.flushes, w.maps)
            (ap some (
              copy_results-copy_sources (source ∷ sources) _ 0 has
                (let room = (ensured.room e).1 in omega (arith, room, total, w.sized _))
                (omega arith)))
      | inr e ↦ absurd (elim (ensured.refused e) [
        | inl huge ↦ omega (arith, total)
        | inr (bytes, refused) ↦ (let granted = w.grants bytes in cc (granted, refused))
      ])
    ]
