-- ===== src/Arena/Examples.antt =====
-- An arena on which the theorems about src/arena.cc are applied.
use jitfusion.Common.{ℕ, ◌+◌, ◌≡◌, refl, Option, none, some, [], ◌∷◌, ltb, arith, if◌then◌else◌}
use jitfusion.Arena.{word, Chunk, Arena, init, chunk_size, allocate, reset}
use jitfusion.Arena.Bounds.{Outcome, MallocFits, allocate-Outcome}
use jitfusion.Arena.Reset.{Recycled, reset-Recycled}

-- The addresses from `h` on
abbrev malloc : ℕ → ℕ → Option ℕ × ℕ
malloc h n = (if ltb (h + n) word then some h else none, h + n)

malloc-MallocFits : MallocFits malloc
malloc-MallocFits h n p e = ground arith

allocate-Outcome_example :
    Outcome
      ((malloc 100 (chunk_size 10 8 (init 64))).0 ≡ none)
      (init 64)
      10
      8
      ((allocate malloc 10 8 (init 64) 100).0)
allocate-Outcome_example =
    allocate-Outcome malloc 10 8 (init 64) 100 malloc-MallocFits refl (omega arith, refl)
      (omega arith) (omega arith)

abbrev oldest : Chunk
oldest = record { buf = 128; size = 64 }

abbrev newest : Chunk
newest = record { buf = 512; size = 256 }

abbrev used : Arena
used = record {
  min_chunk_size = 64;
  total_bytes = 320;
  avail_bytes = 56;
  avail_buf = 712;
  chunks = newest ∷ oldest ∷ [];
  finalizers = 520 ∷ 136 ∷ [];
}

reset-Recycled_example : Recycled (520 ∷ 136 ∷ []) (newest ∷ oldest ∷ []) (reset used)
reset-Recycled_example =
    reset-Recycled used newest (oldest ∷ []) refl (omega arith, (omega arith, tt))
