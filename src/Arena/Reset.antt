-- ===== src/Arena/Reset.antt =====
-- What `Arena::Reset` leaves.
use jitfusion.Common.{◌≡◌, refl, ap, ℕ, ◌+◌, ◌<◌, List, [], ◌∷◌, ◌++◌, arith}
use jitfusion.Arena.{word, Chunk, Arena, released, buffers, first_chunk, reset}
use jitfusion.Arena.Bounds.{Wf}

-- The chunks lie in the address space.
abbrev pub AllFit : List Chunk → Type 0
AllFit [] = Unit
AllFit (c ∷ rest) = (c.buf + c.size < word) × AllFit rest

released-buffers :
    (c : Chunk) (rest : List Chunk)
    → (first_chunk c rest).buf ∷ released (c ∷ rest) ≡ buffers (c ∷ rest)
unfolding released first_chunk buffers
released-buffers c [] = refl
released-buffers c (d ∷ rest) = ap (λ bs. bs ++ c.buf ∷ []) (released-buffers d rest)

first_fits :
    (c : Chunk) (rest : List Chunk)
    → AllFit (c ∷ rest)
    → (first_chunk c rest).buf + (first_chunk c rest).size < word
unfolding first_chunk
first_fits c [] (h, fit) = h
first_fits c (d ∷ rest) (h, fit) = first_fits d rest fit

-- What a reset ends with: an arena, the objects destroyed and the buffers freed
abbrev pub Recycled : List ℕ → List Chunk → Arena × List ℕ × List ℕ → Type 0
Recycled finalizers chunks (b, destroyed, freed) =
    Wf b
    × ((c : Chunk) × (b.chunks ≡ c ∷ [])
        × (c.buf ∷ freed ≡ buffers chunks)
        × (b.avail_bytes ≡ b.total_bytes)
        × (b.total_bytes ≡ c.size))
    × (destroyed ≡ finalizers)
    × (b.finalizers ≡ [])

-- On an arena with chunks, `Reset` destroys the registered objects, the newest first, and forgets
-- them. It keeps the first chunk, all of whose bytes are free and make up the total, frees the
-- buffer of each other chunk once, and leaves the arena well-formed.
pub reset-Recycled :
    (a : Arena) (c : Chunk) (rest : List Chunk)
    → a.chunks ≡ c ∷ rest
    → AllFit (c ∷ rest)
    → Recycled a.finalizers (c ∷ rest) (reset a)
unfolding reset
reset-Recycled a c rest e fit = rw e (
  (omega arith, refl, first_fits c rest fit),
  (first_chunk c rest, refl, released-buffers c rest, refl, refl),
  refl,
  refl,
)
