-- ===== src/Artifact/Cursor.antt =====
-- The reads of `ArtifactReader` at a position from which the buffer holds a known text.
use native.Mathlib.Nat.{add-zero}
use jitfusion.Common.{
  ℕ, suc, ◌+◌, ◌*◌, ◌%◌, ◌^◌, ◌≤◌, ◌<◌, ◌≡◌, refl, ap, sym, ◌∙◌, List, [], ◌∷◌, ◌++◌, true, false,
  arith, ==_refl, le→ltb, length, take, drop, length-append, length-drop, drop-drop, take_append,
  drop_append,
}
use jitfusion.Common.Result.{ok}
use jitfusion.Artifact.Format.{ArtifactExtension, Label, size_mod}
use jitfusion.Artifact.Read.{
  read_le, past_end, view_bytes, read_u8, read_u32_le, read_u64_le, read_len_prefixed_str,
  read_magic, read_bytes_view, read_bytes_copy, read_ret_types, read_extensions, matches_magic,
}
use jitfusion.Artifact.LittleEndian.{
  le_value, le_bytes, le_value-le_bytes, length-le_bytes, AllBytes-le_bytes, read_le-le_value,
  byte_at-drop, drop_next,
}
use jitfusion.Artifact.Encoding.{u32, u64, len_prefixed, extension_records, FitExtensions}

-- From `pos` on, the buffer holds `r`.
abbrev pub At : List ℕ → ℕ → List ℕ → Type 0
At buf pos r = (pos ≤ length buf) × (drop pos buf ≡ r)

module _ (buf : List ℕ) (pos : ℕ) (xs r : List ℕ) (at : At buf pos (xs ++ r)) where
  pub At-fits : pos + length xs ≤ length buf
  At-fits = omega (arith, length-drop pos buf, ap length at.1, length-append xs r, at.0)

  pub At-next : At buf (pos + length xs) r
  At-next =
      (At-fits, sym (drop-drop (length xs) pos buf) ∙ ap (drop (length xs)) at.1 ∙ drop_append xs r)

module _ (buf : List ℕ) (small : length buf < size_mod) where
  -- A sum within the buffer does not wrap.
  fits : (pos n : ℕ) → pos + n ≤ length buf → past_end buf pos n ≡ false
  fits pos n h =
      let e : (pos + n) % size_mod ≡ pos + n = omega arith in rw e (le→ltb (length buf) (pos + n) h)

  no_wrap : (pos n : ℕ) → pos + n ≤ length buf → (pos + n) % size_mod ≡ pos + n
  no_wrap pos n h = omega arith

  pub read_u8-At :
      (pos b : ℕ) (r : List ℕ)
      → At buf pos (b ∷ r)
      → (read_u8 buf pos ≡ ok (b, pos + 1)) × At buf (pos + 1) r
  unfolding read_u8
  read_u8-At pos b r at =
      let h : pos + 1 ≤ length buf = At-fits buf pos (b ∷ []) r at in
      (rw (fits pos 1 h, no_wrap pos 1 h, byte_at-drop buf pos at.1), At-next buf pos (b ∷ []) r at)

  word_value :
      (n pos v : ℕ) (r : List ℕ)
      → v < 2 ^ (n * 8)
      → drop pos buf ≡ le_bytes n v ++ r
      → read_le n 0 buf pos 0 ≡ v
  word_value n pos v r b e =
      let start : drop (pos + 0) buf ≡ le_bytes n v ++ r = rw add-zero e in
      let read : read_le n 0 buf pos 0 ≡ 0 + le_value (le_bytes n v) * 2 ^ (0 * 8) =
        rw length-le_bytes at (
          read_le-le_value (le_bytes n v) r 0 buf pos 0 start (AllBytes-le_bytes n v)
            (omega arith)) in
      omega (arith, read, le_value-le_bytes n v b)

  word_next :
      (n pos v : ℕ) (r : List ℕ)
      → At buf pos (le_bytes n v ++ r)
      → (pos + n ≤ length buf) × At buf (pos + n) r
  word_next n pos v r at =
      let next : At buf (pos + length (le_bytes n v)) r = At-next buf pos (le_bytes n v) r at in
      let next' : At buf (pos + n) r = rw length-le_bytes at next in (next'.0, next')

  pub read_u32_le-At :
      (pos v : ℕ) (r : List ℕ)
      → v < 2 ^ 32
      → At buf pos (u32 v ++ r)
      → (read_u32_le buf pos ≡ ok (v, pos + 4)) × At buf (pos + 4) r
  unfolding read_u32_le
  read_u32_le-At pos v r b at =
      let next = word_next 4 pos v r at in
      (rw (fits pos 4 next.0, no_wrap pos 4 next.0, word_value 4 pos v r b at.1), next.1)

  pub read_u64_le-At :
      (pos v : ℕ) (r : List ℕ)
      → v < 2 ^ 64
      → At buf pos (u64 v ++ r)
      → (read_u64_le buf pos ≡ ok (v, pos + 8)) × At buf (pos + 8) r
  unfolding read_u64_le
  read_u64_le-At pos v r b at =
      let next = word_next 8 pos v r at in
      (rw (fits pos 8 next.0, no_wrap pos 8 next.0, word_value 8 pos v r b at.1), next.1)

  take-At : (pos : ℕ) (xs r : List ℕ) → At buf pos (xs ++ r) → take (length xs) (drop pos buf) ≡ xs
  take-At pos xs r at = rw at.1 (take_append xs r)

  pub read_len_prefixed_str-At :
      (pos : ℕ) (s r : List ℕ)
      → length s < 2 ^ 32
      → At buf pos (len_prefixed s r)
      → (read_len_prefixed_str buf pos ≡ ok (s, pos + 4 + length s)) × At buf (pos + 4 + length s) r
  unfolding read_len_prefixed_str
  read_len_prefixed_str-At pos s r b at =
      let len = read_u32_le-At pos (length s) (s ++ r) b at in
      let h : pos + 4 + length s ≤ length buf = At-fits buf (pos + 4) s r len.1 in
      (
        rw (
          len.0,
          fits (pos + 4) (length s) h,
          no_wrap (pos + 4) (length s) h,
          take-At (pos + 4) s r len.1,
        ),
        At-next buf (pos + 4) s r len.1,
      )

  pub read_bytes_view-At :
      (pos : ℕ) (xs r : List ℕ)
      → At buf pos (xs ++ r)
      → (read_bytes_view (length xs) buf pos
          ≡ ok (record { offset = pos; size = length xs }, pos + length xs))
        × (view_bytes buf (record { offset = pos; size = length xs }) ≡ xs)
        × At buf (pos + length xs) r
  unfolding read_bytes_view
  read_bytes_view-At pos xs r at =
      let h : pos + length xs ≤ length buf = At-fits buf pos xs r at in
      (
        rw (fits pos (length xs) h, no_wrap pos (length xs) h),
        take-At pos xs r at,
        At-next buf pos xs r at,
      )

  pub read_ret_types-At :
      (pos : ℕ) (ts r : List ℕ)
      → At buf pos (ts ++ r)
      → (read_ret_types (length ts) buf pos ≡ ok (ts, pos + length ts)) × At buf (pos + length ts) r
  unfolding read_ret_types
  read_ret_types-At pos [] r at = (rw add-zero, rw add-zero at)
  read_ret_types-At pos (t ∷ ts) r at =
      let first = read_u8-At pos t (ts ++ r) at in
      let rest = read_ret_types-At (pos + 1) ts r first.1 in
      let e : pos + 1 + length ts ≡ pos + suc (length ts) = omega arith in
      (rw (first.0, rest.0, e), rw e at rest.1)

  matches_magic-At :
      (pos : ℕ) (cs r : List ℕ) → drop pos buf ≡ cs ++ r → matches_magic cs buf pos ≡ true
  unfolding matches_magic
  matches_magic-At pos [] r e = refl
  matches_magic-At pos (c ∷ cs) r e =
      rw (byte_at-drop buf pos e, ==_refl c) (matches_magic-At (pos + 1) cs r (drop_next buf pos e))

  pub read_magic-At :
      (pos : ℕ) (cs r : List ℕ) (l : Label)
      → length cs ≡ 4
      → At buf pos (cs ++ r)
      → (read_magic cs l buf pos ≡ ok (pos + 4)) × At buf (pos + 4) r
  unfolding read_magic
  read_magic-At pos cs r l four at =
      let next : At buf (pos + 4) r = rw four at (At-next buf pos cs r at) in
      (rw (fits pos 4 next.0, matches_magic-At pos cs r at.1, no_wrap pos 4 next.0), next)

  -- The records of the extension area, up to what follows them
  pub read_extensions-At :
      (pos : ℕ) (es : List ArtifactExtension) (r : List ℕ)
      → FitExtensions es
      → At buf pos (extension_records es r)
      → (pos' : ℕ) × (read_extensions (length es) buf pos ≡ ok (es, pos')) × At buf pos' r
  unfolding read_extensions read_bytes_copy
  read_extensions-At pos [] r f at = (pos, refl, at)
  read_extensions-At pos (e ∷ es) r f at =
      let tail = e.payload ++ extension_records es r in
      let tag = read_u32_le-At pos e.tag (u32 (length e.payload) ++ tail) f.0 at in
      let plen = read_u32_le-At (pos + 4) (length e.payload) tail f.1 tag.1 in
      let body = read_bytes_view-At (pos + 4 + 4) e.payload (extension_records es r) plen.1 in
      let rest = read_extensions-At (pos + 4 + 4 + length e.payload) es r f.2 body.2 in
      (rest.0, rw (tag.0, plen.0, body.0, body.1, rest.1), rest.2)
