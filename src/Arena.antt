-- ===== src/Arena.antt =====
-- include/arena.h and src/arena.cc: the arena allocator. `malloc` and `free` are parameters on a
-- state of their own. An address is a number below 2^64; the head of each list is the back of the
-- vector. What `free` and the finalizers are called on is returned in the order of the calls.
pub mod Bounds
pub mod Reset
mod Examples
use jitfusion.Common.{
  ℕ, ◌+◌, ◌-◌, ◌%◌, ◌^◌, max, Bool, true, false, Option, none, some, List, [], ◌∷◌, ◌++◌, ltb, ◌==◌,
  if◌then◌else◌,
}

-- `std::size_t` and `uintptr_t` are numbers modulo this.
abbrev pub word : ℕ
word = 2 ^ 64

pub record Chunk : Type 0 where
  pub buf : ℕ
  pub size : ℕ

pub record Arena : Type 0 where
  pub min_chunk_size : ℕ
  pub total_bytes : ℕ
  pub avail_bytes : ℕ
  pub avail_buf : ℕ
  pub chunks : List Chunk
  pub finalizers : List ℕ

-- `Arena(min_chunk_size)`
abbrev pub init : ℕ → Arena
init min_chunk_size = record {
  min_chunk_size = min_chunk_size;
  total_bytes = 0;
  avail_bytes = 0;
  avail_buf = 0;
  chunks = [];
  finalizers = [];
}

-- `(-addr) & mask`: the mask of a power of two keeps the remainder.
unfoldable pub padding : ℕ → ℕ → ℕ
padding alignment addr = (word - addr) % word % alignment

-- The end of `Allocate`: the address, and the arena behind it
unfoldable pub bump : ℕ → ℕ → Arena → ℕ × Arena
bump size alignment a =
    let p : ℕ = padding alignment a.avail_buf in
    (
      (a.avail_buf + p) % word,
      record a {
        avail_buf = (a.avail_buf + (size + p)) % word;
        avail_bytes = (a.avail_bytes + word - (size + p) % word) % word;
      },
    )

-- The arena with a chunk that was got
unfoldable pub add_chunk : ℕ → ℕ → Arena → Arena
add_chunk out size a = record a {
  chunks = record { buf = out; size = size } ∷ a.chunks;
  avail_buf = out;
  avail_bytes = size;
  total_bytes = (a.total_bytes + size) % word;
}

-- The size of a new chunk
abbrev pub chunk_size : ℕ → ℕ → Arena → ℕ
chunk_size size alignment a = max ((size + alignment + word - 1) % word) a.min_chunk_size

-- `Free` and `ReleaseChunks(true)`: the buffers of all chunks but the first, from the oldest on
unfoldable pub released : List Chunk → List ℕ
released [] = []
released (c ∷ []) = []
released (c ∷ d ∷ rest) = released (d ∷ rest) ++ c.buf ∷ []

-- `ReleaseChunks(false)`: the buffers of all chunks, from the oldest on
unfoldable pub buffers : List Chunk → List ℕ
buffers [] = []
buffers (c ∷ rest) = buffers rest ++ c.buf ∷ []

-- `~Arena()`: the objects that are destroyed, and the buffers that are freed
unfoldable pub destroy : Arena → List ℕ × List ℕ
destroy a = (a.finalizers, buffers a.chunks)

-- The first chunk
unfoldable pub first_chunk : Chunk → List Chunk → Chunk
first_chunk c [] = c
first_chunk c (d ∷ rest) = first_chunk d rest

-- `Reset`: the arena, the objects whose finalizers run, and the buffers that are freed
unfoldable pub reset : Arena → Arena × List ℕ × List ℕ
reset a = elim a.chunks [
  | [] ↦ (a, [], [])
  | c ∷ rest ↦
      let first : Chunk = first_chunk c rest in
      (
        record a {
          finalizers = [];
          chunks = first ∷ [];
          avail_buf = first.buf;
          avail_bytes = first.size;
          total_bytes = first.size;
        },
        a.finalizers,
        released (c ∷ rest),
      )
]

module _ {H : Type 0} (malloc : H → ℕ → Option ℕ × H) where
  -- `AllocateChunk`, on the answer of `malloc`
  abbrev pub allocate_chunk : ℕ → Arena → Option ℕ → Option Arena
  allocate_chunk size a none = none
  allocate_chunk size a (some out) = some (add_chunk out size a)

  -- `Allocate` behind `AllocateChunk`
  abbrev pub allocate_in : ℕ → ℕ → Arena → Option Arena → Option ℕ × Arena
  allocate_in size alignment a none = (none, a)
  allocate_in size alignment a (some b) = let (p, c) = bump size alignment b in (some p, c)

  -- `Allocate`; a null pointer is `none`
  unfoldable pub allocate : ℕ → ℕ → Arena → H → (Option ℕ × Arena) × H
  allocate size alignment a h =
      if size == 0
      then ((none, a), h)
      else if ltb a.avail_bytes ((size + padding alignment a.avail_buf) % word)
      then (let n : ℕ = chunk_size size alignment a in
          (allocate_in size alignment a (allocate_chunk n a ((malloc h n).0)), (malloc h n).1))
      else (allocate_in size alignment a (some a), h)

  -- `Create` behind `Allocate`, for an object with a destructor or without one
  abbrev pub register : Bool → Option ℕ × Arena → Option ℕ × Arena
  register has_destructor (none, a) = (none, a)
  register has_destructor (some p, a) =
      (some p, if has_destructor then record a { finalizers = p ∷ a.finalizers } else a)

  -- `Create`, with the size and the alignment of the type
  unfoldable pub create : ℕ → ℕ → Bool → Arena → H → (Option ℕ × Arena) × H
  create size alignment has_destructor a h =
      let r : (Option ℕ × Arena) × H = allocate size alignment a h in
      (register has_destructor r.0, r.1)
