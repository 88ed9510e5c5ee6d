-- ===== src/Artifact/Read.antt =====
-- `ArtifactReader` and `DeserializeArtifact` of src/compiled_artifact.cc. A reader is the buffer
-- and the position `pos`; a read returns its value and the next position. Positions are
-- `std::size_t`, so sums wrap.
use Prim.Native.Nat.{bit_or}
use jitfusion.Common.{
  ℕ, zero, suc, ◌+◌, ◌-◌, ◌*◌, ◌%◌, ◌^◌, List, [], ◌∷◌, Bool, true, false, ◌&&◌, not, ◌==◌, ltb,
  length, take, drop, get_or, if◌then◌else◌,
}
use jitfusion.Common.Result.{Result, ok, err, ◌>>=◌, ◌>>◌, guard}
use jitfusion.Artifact.Format.{
  ArtifactMode, single, batch, FpMathMode, strict, fast, ArtifactExtension, ArtifactHeader,
  artifact_magic, artifact_footer_magic, artifact_format_version, Label, header, footer, Error,
  eof_u8, eof_u32, eof_u64, truncated_string, truncated_blob, eof_magic, wrong_magic,
  unsupported_version, unknown_mode, unknown_fp_math_mode, no_entries, single_mode_entries,
  trailing_bytes, size_mod,
}

-- `pos_ + n > buf_.size()`
abbrev pub past_end : List ℕ → ℕ → ℕ → Bool
past_end buf pos n = ltb (length buf) ((pos + n) % size_mod)

-- `buf_[i]`; the value past the end is never used after a passed check
abbrev pub byte_at : List ℕ → ℕ → ℕ
byte_at buf i = get_or buf i 0

-- `buf_.size() - pos_`, as a `std::size_t`
abbrev pub remaining : List ℕ → ℕ → ℕ
remaining buf pos = (length buf + size_mod - pos) % size_mod

-- `ReadU8`
unfoldable pub read_u8 : List ℕ → ℕ → Result Error (ℕ × ℕ)
read_u8 buf pos =
    if past_end buf pos 1 then err (eof_u8 pos) else ok (byte_at buf pos, (pos + 1) % size_mod)

-- The loop of `ReadU32LE` and `ReadU64LE` with `n` rounds left, at `i`
unfoldable pub read_le : ℕ → ℕ → List ℕ → ℕ → ℕ → ℕ
read_le zero i buf pos v = v
read_le (suc n) i buf pos v =
    read_le n (i + 1) buf pos (bit_or v (byte_at buf (pos + i) * 2 ^ (i * 8)))

-- `ReadU32LE`
unfoldable pub read_u32_le : List ℕ → ℕ → Result Error (ℕ × ℕ)
read_u32_le buf pos =
    if past_end buf pos 4
    then err (eof_u32 pos)
    else ok (read_le 4 0 buf pos 0, (pos + 4) % size_mod)

-- `ReadU64LE`
unfoldable pub read_u64_le : List ℕ → ℕ → Result Error (ℕ × ℕ)
read_u64_le buf pos =
    if past_end buf pos 8
    then err (eof_u64 pos)
    else ok (read_le 8 0 buf pos 0, (pos + 8) % size_mod)

-- `ReadLenPrefixedStr`
unfoldable pub read_len_prefixed_str : List ℕ → ℕ → Result Error (List ℕ × ℕ)
read_len_prefixed_str buf pos = do
  (len, pos) ← read_u32_le buf pos
  if past_end buf pos len
      then err (truncated_string len (remaining buf pos))
      else ok (take len (drop pos buf), (pos + len) % size_mod)

-- The loop of `ReadMagic`
unfoldable pub matches_magic : List ℕ → List ℕ → ℕ → Bool
matches_magic [] buf pos = true
matches_magic (c ∷ cs) buf pos = byte_at buf pos == c && matches_magic cs buf (pos + 1)

-- `ReadMagic`; the next position
unfoldable pub read_magic : List ℕ → Label → List ℕ → ℕ → Result Error ℕ
unfolding matches_magic
read_magic expected label buf pos =
    if past_end buf pos 4
    then err (eof_magic label)
    else if matches_magic expected buf pos
    then ok ((pos + 4) % size_mod)
    else err (wrong_magic label)

-- A `std::string_view` into the buffer
pub record View : Type 0 where
  pub offset : ℕ
  pub size : ℕ

-- `ReadBytesView`
unfoldable pub read_bytes_view : ℕ → List ℕ → ℕ → Result Error (View × ℕ)
read_bytes_view n buf pos =
    if past_end buf pos n
    then err (truncated_blob n (remaining buf pos))
    else ok (record { offset = pos; size = n }, (pos + n) % size_mod)

-- The bytes that a view shows. Reading past the end of the buffer is undefined in the source, and
-- stops at the end here.
abbrev pub view_bytes : List ℕ → View → List ℕ
view_bytes buf v = take v.size (drop v.offset buf)

-- `ReadBytesCopy`
unfoldable pub read_bytes_copy : ℕ → List ℕ → ℕ → Result Error (List ℕ × ℕ)
read_bytes_copy n buf pos = do (v, pos) ← read_bytes_view n buf pos; ok (view_bytes buf v, pos)

-- The tests of the mode byte and of the `fp_math_mode` byte, with the casts behind them
abbrev pub mode_of : ℕ → Result Error ArtifactMode
mode_of b = if b == 0 then ok single else if b == 1 then ok batch else err (unknown_mode b)

abbrev pub fp_math_mode_of : ℕ → Result Error FpMathMode
fp_math_mode_of b =
    if b == 0 then ok strict else if b == 1 then ok fast else err (unknown_fp_math_mode b)

abbrev pub is_single_mode : ArtifactMode → Bool
is_single_mode single = true
is_single_mode batch = false

-- The loop over the return types, with `n` rounds left
unfoldable pub read_ret_types : ℕ → List ℕ → ℕ → Result Error (List ℕ × ℕ)
read_ret_types zero buf pos = ok ([], pos)
read_ret_types (suc n) buf pos = do
  (t, pos) ← read_u8 buf pos
  (ts, pos) ← read_ret_types n buf pos
  ok (t ∷ ts, pos)

-- The loop over the extensions, with `n` rounds left
unfoldable pub read_extensions : ℕ → List ℕ → ℕ → Result Error (List ArtifactExtension × ℕ)
read_extensions zero buf pos = ok ([], pos)
read_extensions (suc n) buf pos = do
  (tag, pos) ← read_u32_le buf pos
  (plen, pos) ← read_u32_le buf pos
  (payload, pos) ← read_bytes_copy plen buf pos
  (es, pos) ← read_extensions n buf pos
  ok (record { tag = tag; payload = payload } ∷ es, pos)

-- `DeserializeArtifact`: the header and the view of the object bytes
unfoldable pub deserialize_artifact : List ℕ → Result Error (ArtifactHeader × View)
deserialize_artifact blob = do
  pos ← read_magic artifact_magic header blob 0
  (version, pos) ← read_u32_le blob pos
  guard (version == artifact_format_version) (unsupported_version version)
  (llvm_version, pos) ← read_len_prefixed_str blob pos
  (target_triple, pos) ← read_len_prefixed_str blob pos
  (cpu_name, pos) ← read_len_prefixed_str blob pos
  (mode_byte, pos) ← read_u8 blob pos
  mode ← mode_of mode_byte
  (fp_byte, pos) ← read_u8 blob pos
  fp_math_mode ← fp_math_mode_of fp_byte
  (num_entries, pos) ← read_u32_le blob pos
  guard (not (num_entries == 0)) no_entries
  guard (not (is_single_mode mode && not (num_entries == 1))) (single_mode_entries num_entries)
  (ret_types, pos) ← read_ret_types num_entries blob pos
  (obj_size, pos) ← read_u64_le blob pos
  (object, pos) ← read_bytes_view obj_size blob pos
  (ext_count, pos) ← read_u32_le blob pos
  (extensions, pos) ← read_extensions ext_count blob pos
  pos ← read_magic artifact_footer_magic footer blob pos
  guard (remaining blob pos == 0) (trailing_bytes (remaining blob pos))
  ok (
    record {
      llvm_version = llvm_version;
      target_triple = target_triple;
      cpu_name = cpu_name;
      mode = mode;
      fp_math_mode = fp_math_mode;
      per_entry_ret_types = ret_types;
      extensions = extensions;
    },
    object,
  )
