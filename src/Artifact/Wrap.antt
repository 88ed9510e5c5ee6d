-- ===== src/Artifact/Wrap.antt =====
-- The bounds check of `ReadBytesView`, whose sum is a `std::size_t`.
use jitfusion.Common.{ℕ, ◌+◌, ◌-◌, ◌%◌, ◌≤◌, ◌<◌, ◌≡◌, ◌↔◌, List, arith, length}
use jitfusion.Common.Result.{ok}
use jitfusion.Artifact.Format.{size_mod}
use jitfusion.Artifact.Read.{read_bytes_view}

-- Where the position and the size do not add up past 2^64, a read succeeds exactly if the bytes
-- are there; its view is then the requested one, and it ends at the next position.
pub read_bytes_view_iff :
    (buf : List ℕ) (pos n : ℕ)
    → pos + n < size_mod
    → (read_bytes_view n buf pos ≡ ok (record { offset = pos; size = n }, pos + n))
      ↔ (pos + n ≤ length buf)
unfolding read_bytes_view
read_bytes_view_iff buf pos n k =
    let wrap : (pos + n) % size_mod ≡ pos + n = omega arith in
    (λ h. ground (arith, wrap), λ h. ground (arith, wrap))

-- A 64-bit size that makes the sum wrap is accepted at every position of every buffer: the view
-- reaches past the end of the buffer, and the reader goes on before the position where it was.
pub read_bytes_view_wraps :
    (buf : List ℕ) (pos n : ℕ)
    → length buf < size_mod
    → pos ≤ length buf
    → n < size_mod
    → size_mod ≤ pos + n
    → (read_bytes_view n buf pos ≡ ok (record { offset = pos; size = n }, pos + n - size_mod))
      × (length buf < pos + n)
      × (pos + n - size_mod < pos)
unfolding read_bytes_view
read_bytes_view_wraps buf pos n small p k w =
    let wrap : (pos + n) % size_mod ≡ pos + n - size_mod = omega arith in
    (ground (arith, wrap), omega arith, omega arith)
