-- ===== src/Artifact/Write.antt =====
-- The serialiser of src/compiled_artifact.cc. `out` is the string that a call appends to, and the
-- checks for a null `out` have no counterpart.
use jitfusion.Common.{
  ℕ, zero, suc, ◌+◌, ◌*◌, ◌/◌, ◌%◌, ◌^◌, List, [], ◌∷◌, ◌++◌, Bool, true, false, ◌&&◌, not, ◌==◌,
  length, take, if◌then◌else◌,
}
use jitfusion.Common.Result.{Result, ok, err}
use jitfusion.Artifact.Format.{
  ArtifactMode, single, batch, ArtifactExtension, ArtifactHeader, artifact_magic,
  artifact_footer_magic, artifact_format_version, mode_byte, fp_byte, Error, no_entries_to_write,
  single_mode_entries_to_write,
}

-- `AppendU8`
unfoldable pub append_u8 : List ℕ → ℕ → List ℕ
append_u8 out v = out ++ (v % 256) ∷ []

-- The loop of `AppendU32LE` and `AppendU64LE` with `n` rounds left, at `i`
unfoldable pub append_le : ℕ → ℕ → List ℕ → ℕ → List ℕ
append_le zero i out v = out
append_le (suc n) i out v = append_le n (i + 1) (out ++ (v / 2 ^ (i * 8) % 256) ∷ []) v

-- `AppendU32LE`; the argument is cast to `std::uint32_t` by the callers
unfoldable pub append_u32_le : List ℕ → ℕ → List ℕ
append_u32_le out v = append_le 4 0 out (v % 2 ^ 32)

-- `AppendU64LE`
unfoldable pub append_u64_le : List ℕ → ℕ → List ℕ
append_u64_le out v = append_le 8 0 out (v % 2 ^ 64)

-- `AppendLenPrefixedStr`
unfoldable pub append_len_prefixed_str : List ℕ → List ℕ → List ℕ
append_len_prefixed_str out s = append_u32_le out (length s) ++ s

-- The loop over `per_entry_ret_types`
unfoldable pub append_ret_types : List ℕ → List ℕ → List ℕ
append_ret_types out [] = out
append_ret_types out (t ∷ ts) = append_ret_types (append_u8 out t) ts

-- The loop over `extensions`
unfoldable pub append_extensions : List ℕ → List ArtifactExtension → List ℕ
append_extensions out [] = out
append_extensions out (e ∷ es) =
    append_extensions (append_u32_le (append_u32_le out e.tag) (length e.payload) ++ e.payload) es

is_single : ArtifactMode → Bool
is_single single = true
is_single batch = false

-- The body of `SerializeArtifact` behind its checks
unfoldable pub write_artifact : ArtifactHeader → List ℕ → List ℕ → List ℕ
write_artifact h object_bytes out =
    let out = out ++ artifact_magic in
    let out = append_u32_le out artifact_format_version in
    let out = append_len_prefixed_str out h.llvm_version in
    let out = append_len_prefixed_str out h.target_triple in
    let out = append_len_prefixed_str out h.cpu_name in
    let out = append_u8 out (mode_byte h.mode) in
    let out = append_u8 out (fp_byte h.fp_math_mode) in
    let num_entries = length h.per_entry_ret_types % 2 ^ 32 in
    let out = append_u32_le out num_entries in
    let out = append_ret_types out (take num_entries h.per_entry_ret_types) in
    let out = append_u64_le out (length object_bytes) ++ object_bytes in
    let out = append_u32_le out (length h.extensions) in
    let out = append_extensions out h.extensions in out ++ artifact_footer_magic

-- `SerializeArtifact`
unfoldable pub serialize_artifact : ArtifactHeader → List ℕ → List ℕ → Result Error (List ℕ)
unfolding is_single write_artifact
serialize_artifact h object_bytes out =
    let n = length h.per_entry_ret_types in
    if n == 0
    then err no_entries_to_write
    else if is_single h.mode && not (n == 1)
    then err (single_mode_entries_to_write n)
    else ok (write_artifact h object_bytes out)
