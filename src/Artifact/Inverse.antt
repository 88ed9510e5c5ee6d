-- ===== src/Artifact/Inverse.antt =====
-- What a successful read says of the buffer: the reads of `ArtifactReader`, inverted.
use native.Mathlib.Nat.{add-zero, suc-add}
use jitfusion.Common.{
  ℕ, zero, suc, ◌+◌, ◌*◌, ◌%◌, ◌^◌, ◌≤◌, ◌<◌, ◌≡◌, refl, ap, sym, ◌∙◌, subst, List, [], ◌∷◌, ◌++◌,
  false, arith, if◌then◌else◌, length, take, drop, length-drop, length-take, take-append-drop,
  drop-drop,
}
use jitfusion.Common.Result.{Result, ok, err, >>=-elim}
use jitfusion.Artifact.Format.{Error, truncated_string, size_mod}
use jitfusion.Artifact.Read.{
  View, read_le, remaining, past_end, byte_at, view_bytes, read_u8, read_u32_le, read_u64_le,
  read_len_prefixed_str, read_bytes_view, read_bytes_copy,
}
use jitfusion.Artifact.LittleEndian.{
  AllBytes, le_bytes, le_value, le_bytes-le_value, le_value-lt, read_le-le_value,
}
use jitfusion.Artifact.Encoding.{u32, u64, len_prefixed}

pub AllBytes-drop : (n : ℕ) (xs : List ℕ) → AllBytes xs → AllBytes (drop n xs)
AllBytes-drop zero xs h = h
AllBytes-drop (suc n) [] h = tt
AllBytes-drop (suc n) (x ∷ xs) h = AllBytes-drop n xs h.1

pub AllBytes-take : (n : ℕ) (xs : List ℕ) → AllBytes xs → AllBytes (take n xs)
AllBytes-take zero xs h = tt
AllBytes-take (suc n) [] h = tt
AllBytes-take (suc n) (x ∷ xs) h = (h.0, AllBytes-take n xs h.1)

pub drop_head :
    (buf : List ℕ) (pos : ℕ)
    → pos + 1 ≤ length buf
    → drop pos buf ≡ byte_at buf pos ∷ drop (pos + 1) buf
drop_head [] pos h = absurd (omega arith)
drop_head (b ∷ bs) zero h = refl
drop_head (b ∷ bs) (suc pos) h = rw suc-add (drop_head bs pos (omega arith))

-- From `pos` on, the buffer holds what `enc` puts before its rest at `next`.
abbrev pub Holds : List ℕ → ℕ → ℕ → (List ℕ → List ℕ) → Type 0
Holds buf pos next enc = (next ≤ length buf) × (drop pos buf ≡ enc (drop next buf))

module _ (buf : List ℕ) (small : length buf < 2 ^ 63) (bytes : AllBytes buf) where
  pub in_range :
      (pos n : ℕ) → past_end buf pos n ≡ false → pos + n < size_mod → pos + n ≤ length buf
  in_range pos n h k = let e : (pos + n) % size_mod ≡ pos + n = omega arith in ground (arith, e)

  word_at :
      (n pos : ℕ)
      → pos + n ≤ length buf
      → (drop pos buf ≡ le_bytes n (read_le n 0 buf pos 0) ++ drop (pos + n) buf)
        × (read_le n 0 buf pos 0 < 2 ^ (n * 8))
  word_at n pos h =
      let bs = take n (drop pos buf) in
      let all : AllBytes bs = AllBytes-take n (drop pos buf) (AllBytes-drop pos buf bytes) in
      let len : length bs ≡ n = omega (arith, length-take n (drop pos buf), length-drop pos buf) in
      let split : drop pos buf ≡ bs ++ drop (pos + n) buf =
        sym (take-append-drop n (drop pos buf)) ∙ ap (λ r. bs ++ r) (drop-drop n pos buf) in
      let value : read_le n 0 buf pos 0 ≡ le_value bs =
        subst (λ k. read_le k 0 buf pos 0 ≡ le_value bs) len
          (read_le-le_value bs (drop (pos + n) buf) 0 buf pos 0 (rw add-zero split) all
              (omega arith)
            ∙ omega arith) in
      let back : le_bytes n (le_value bs) ≡ bs =
        subst (λ k. le_bytes k (le_value bs) ≡ bs) len (le_bytes-le_value bs all) in
      (
        rw (value, back) split,
        rw value (subst (λ k. le_value bs < 2 ^ (k * 8)) len (le_value-lt bs all)),
      )

  pub read_u8-Holds :
      (pos b next : ℕ)
      → pos ≤ length buf
      → read_u8 buf pos ≡ ok (b, next)
      → Holds buf pos next (λ r. b ∷ r)
  unfolding read_u8
  read_u8-Holds pos b next p h =
      let fits : past_end buf pos 1 ≡ false = ground arith in
      let room : pos + 1 ≤ length buf = in_range pos 1 fits (omega arith) in
      let wrap : (pos + 1) % size_mod ≡ pos + 1 = omega arith in
      let at : next ≡ pos + 1 = ground arith in
      let val : byte_at buf pos ≡ b = ground arith in
      (rw at room, rw (at, ← val) (drop_head buf pos room))

  pub read_u32_le-Holds :
      (pos v next : ℕ)
      → pos ≤ length buf
      → read_u32_le buf pos ≡ ok (v, next)
      → (v < 2 ^ 32) × Holds buf pos next (λ r. u32 v ++ r)
  unfolding read_u32_le
  read_u32_le-Holds pos v next p h =
      let fits : past_end buf pos 4 ≡ false = ground arith in
      let room : pos + 4 ≤ length buf = in_range pos 4 fits (omega arith) in
      let wrap : (pos + 4) % size_mod ≡ pos + 4 = omega arith in
      let at : next ≡ pos + 4 = ground arith in
      let val : read_le 4 0 buf pos 0 ≡ v = ground arith in
      let word = word_at 4 pos room in (rw val at word.1, (rw at room, rw (at, ← val) word.0))

  pub read_u64_le-Holds :
      (pos v next : ℕ)
      → pos ≤ length buf
      → read_u64_le buf pos ≡ ok (v, next)
      → Holds buf pos next (λ r. u64 v ++ r)
  unfolding read_u64_le
  read_u64_le-Holds pos v next p h =
      let fits : past_end buf pos 8 ≡ false = ground arith in
      let room : pos + 8 ≤ length buf = in_range pos 8 fits (omega arith) in
      let wrap : (pos + 8) % size_mod ≡ pos + 8 = omega arith in
      let at : next ≡ pos + 8 = ground arith in
      let val : read_le 8 0 buf pos 0 ≡ v = ground arith in
      (rw at room, rw (at, ← val) (word_at 8 pos room).0)

  -- `n` bytes taken from the buffer
  taken :
      (pos n : ℕ)
      → pos + n ≤ length buf
      → (length (take n (drop pos buf)) ≡ n)
        × (drop pos buf ≡ take n (drop pos buf) ++ drop (pos + n) buf)
  taken pos n room = (
    omega (arith, length-take n (drop pos buf), length-drop pos buf),
    sym (take-append-drop n (drop pos buf))
        ∙ ap (λ r. take n (drop pos buf) ++ r) (drop-drop n pos buf),
  )

  -- The string behind its length word
  str_after :
      (pos len mid : ℕ) (s : List ℕ) (next : ℕ)
      → (len < 2 ^ 32) × Holds buf pos mid (λ r. u32 len ++ r)
      → ◌≡◌ {A = Result Error (List ℕ × ℕ)}
          (if past_end buf mid len
            then err (truncated_string len (remaining buf mid))
            else ok (take len (drop mid buf), (mid + len) % size_mod))
          (ok (s, next))
      → Holds buf pos next (len_prefixed s)
  str_after pos len mid s next (b, word) h =
      let p = word.0 in
      let fits : past_end buf mid len ≡ false = ground arith in
      let room : mid + len ≤ length buf = in_range mid len fits (omega arith) in
      let wrap : (mid + len) % size_mod ≡ mid + len = omega arith in
      let at : next ≡ mid + len = ground arith in
      let val : take len (drop mid buf) ≡ s = ground arith in
      let (n, split) = taken mid len room in
      (rw at room, word.1 ∙ rw (at, ← val, n) (ap (λ r. u32 len ++ r) split))

  pub read_len_prefixed_str-Holds :
      (pos : ℕ) (s : List ℕ) (next : ℕ)
      → pos ≤ length buf
      → read_len_prefixed_str buf pos ≡ ok (s, next)
      → Holds buf pos next (len_prefixed s)
  unfolding read_len_prefixed_str
  read_len_prefixed_str-Holds pos s next p h =
      >>=-elim (read_u32_le buf pos) _ h
        λ a e rest. str_after pos a.0 a.1 s next (read_u32_le-Holds pos a.0 a.1 p e) rest

  -- A view that does not wrap shows the bytes up to the next position.
  pub read_bytes_view-Holds :
      (n pos : ℕ) (v : View) (next : ℕ)
      → pos ≤ length buf
      → v.offset + v.size < size_mod
      → read_bytes_view n buf pos ≡ ok (v, next)
      → (length (view_bytes buf v) ≡ n) × Holds buf pos next (λ r. view_bytes buf v ++ r)
  unfolding read_bytes_view
  read_bytes_view-Holds n pos v next p k h =
      let fits : past_end buf pos n ≡ false = ground arith in
      let off : v.offset ≡ pos = ground arith in
      let size : v.size ≡ n = ground arith in
      let room : pos + n ≤ length buf = in_range pos n fits (omega arith) in
      let wrap : (pos + n) % size_mod ≡ pos + n = omega arith in
      let at : next ≡ pos + n = ground arith in
      let (len, split) = taken pos n room in
      (rw (off, size) len, (rw at room, rw (at, off, size) split))

  pub read_bytes_copy-Holds :
      (n pos : ℕ) (s : List ℕ) (next : ℕ)
      → pos ≤ length buf
      → n < 2 ^ 32
      → read_bytes_copy n buf pos ≡ ok (s, next)
      → (length s ≡ n) × Holds buf pos next (λ r. s ++ r)
  unfolding read_bytes_copy read_bytes_view
  read_bytes_copy-Holds n pos s next p k h =
      let fits : past_end buf pos n ≡ false = ground arith in
      let room : pos + n ≤ length buf = in_range pos n fits (omega arith) in
      let wrap : (pos + n) % size_mod ≡ pos + n = omega arith in
      let at : next ≡ pos + n = ground arith in
      let val : take n (drop pos buf) ≡ s = ground arith in
      let (len, split) = taken pos n room in (rw val at len, (rw at room, rw (at, ← val) split))
