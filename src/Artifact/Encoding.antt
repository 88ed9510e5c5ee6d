-- ===== src/Artifact/Encoding.antt =====
-- The layout that src/compiled_artifact.h documents, and the serialiser against it.
use mathlib.Core.List.{append_assoc, append-nil}
use jitfusion.Common.{
  ℕ, ◌*◌, ◌/◌, ◌%◌, ◌^◌, ◌<◌, ◌≡◌, refl, ap, sym, ◌∙◌, List, [], ◌∷◌, ◌++◌, arith, length, take,
}
use jitfusion.Common.Result.{ok}
use jitfusion.Artifact.Format.{
  ArtifactMode, single, batch, FpMathMode, strict, fast, ArtifactExtension, ArtifactHeader,
  artifact_magic, artifact_footer_magic, artifact_format_version, mode_byte, fp_byte,
}
use jitfusion.Artifact.Write.{
  append_u8, append_u32_le, append_u64_le, append_len_prefixed_str, append_ret_types,
  append_extensions, write_artifact, serialize_artifact,
}
use jitfusion.Artifact.LittleEndian.{AllBytes, le_bytes, append_le-le_bytes}

abbrev pub u32 : ℕ → List ℕ
u32 v = le_bytes 4 v

abbrev pub u64 : ℕ → List ℕ
u64 v = le_bytes 8 v

-- `len-prefixed utf8 str`, before what follows it
abbrev pub len_prefixed : List ℕ → List ℕ → List ℕ
len_prefixed s rest = u32 (length s) ++ (s ++ rest)

-- The records of the extension area, before what follows them
abbrev pub extension_records : List ArtifactExtension → List ℕ → List ℕ
extension_records [] rest = rest
extension_records (e ∷ es) rest =
    u32 e.tag ++ (u32 (length e.payload) ++ (e.payload ++ extension_records es rest))

-- The layout, field by field
unfoldable pub layout : ArtifactHeader → List ℕ → List ℕ
layout h object_bytes =
    artifact_magic
    ++ (u32 artifact_format_version
        ++ len_prefixed h.llvm_version (
            len_prefixed h.target_triple (
              len_prefixed h.cpu_name (
                mode_byte h.mode
                ∷ fp_byte h.fp_math_mode
                ∷ (u32 (length h.per_entry_ret_types)
                    ++ (h.per_entry_ret_types
                        ++ (u64 (length object_bytes)
                            ++ (object_bytes
                                ++ (u32 (length h.extensions)
                                    ++ extension_records h.extensions artifact_footer_magic)))))))))

abbrev pub FitExtensions : List ArtifactExtension → Type 0
FitExtensions [] = Unit {0}
FitExtensions (e ∷ es) = (e.tag < 2 ^ 32) × (length e.payload < 2 ^ 32) × FitExtensions es

-- The lengths fit the words that hold them, and a return type is a byte.
pub record Fits (h : ArtifactHeader) (object_bytes : List ℕ) : Type 0 where
  pub llvm_version : length h.llvm_version < 2 ^ 32
  pub target_triple : length h.target_triple < 2 ^ 32
  pub cpu_name : length h.cpu_name < 2 ^ 32
  pub entries : length h.per_entry_ret_types < 2 ^ 32
  pub ret_types : AllBytes h.per_entry_ret_types
  pub object_size : length object_bytes < 2 ^ 64
  pub extension_count : length h.extensions < 2 ^ 32
  pub extension_sizes : FitExtensions h.extensions

-- What `SerializeArtifact` asks of the number of entries
abbrev pub EntriesOk : ArtifactMode → ℕ → Type 0
EntriesOk single n = n ≡ 1
EntriesOk batch n = 0 < n

append_u32_le-u32 : (out : List ℕ) (v : ℕ) → v < 2 ^ 32 → append_u32_le out v ≡ out ++ u32 v
unfolding append_u32_le
append_u32_le-u32 out v h =
    let e : v % 2 ^ 32 / 2 ^ (0 * 8) ≡ v = omega arith in
    append_le-le_bytes 4 0 out (v % 2 ^ 32) ∙ ap (λ w. out ++ u32 w) e

append_u64_le-u64 : (out : List ℕ) (v : ℕ) → v < 2 ^ 64 → append_u64_le out v ≡ out ++ u64 v
unfolding append_u64_le
append_u64_le-u64 out v h =
    let e : v % 2 ^ 64 / 2 ^ (0 * 8) ≡ v = omega arith in
    append_le-le_bytes 8 0 out (v % 2 ^ 64) ∙ ap (λ w. out ++ u64 w) e

append_u8-byte : (out : List ℕ) (v : ℕ) → v < 256 → append_u8 out v ≡ out ++ v ∷ []
unfolding append_u8
append_u8-byte out v h = let e : v % 256 ≡ v = omega arith in rw e

append_str-len_prefixed :
    (out s : List ℕ)
    → length s < 2 ^ 32
    → append_len_prefixed_str out s ≡ out ++ (u32 (length s) ++ s)
unfolding append_len_prefixed_str
append_str-len_prefixed out s h = rw (append_u32_le-u32 out (length s) h) (simp append_assoc)

append_ret_types-append : (out ts : List ℕ) → AllBytes ts → append_ret_types out ts ≡ out ++ ts
unfolding append_ret_types
append_ret_types-append out [] h = sym (append-nil out)
append_ret_types-append out (t ∷ ts) h =
    rw (append_u8-byte out t h.0)
      (append_ret_types-append (out ++ t ∷ []) ts h.1 ∙ append_assoc out (t ∷ []) ts)

append_extensions-records :
    (out : List ℕ) (es : List ArtifactExtension) (rest : List ℕ)
    → FitExtensions es
    → append_extensions out es ++ rest ≡ out ++ extension_records es rest
unfolding append_extensions
append_extensions-records out [] rest h = refl
append_extensions-records out (e ∷ es) rest h =
    rw
      (append_u32_le-u32 out e.tag h.0, append_u32_le-u32 (out ++ u32 e.tag) (length e.payload) h.1)
      (append_extensions-records ((out ++ u32 e.tag) ++ u32 (length e.payload) ++ e.payload) es rest
          h.2
        ∙ simp append_assoc)

mode_byte-lt : (m : ArtifactMode) → mode_byte m < 256
mode_byte-lt single = omega arith
mode_byte-lt batch = omega arith

fp_byte-lt : (m : FpMathMode) → fp_byte m < 256
fp_byte-lt strict = omega arith
fp_byte-lt fast = omega arith

take_all : (ts : List ℕ) → take (length ts) ts ≡ ts
take_all [] = refl
take_all (t ∷ ts) = ap (λ us. t ∷ us) (take_all ts)

write_artifact-layout :
    (h : ArtifactHeader) (object_bytes out : List ℕ)
    → Fits h object_bytes
    → write_artifact h object_bytes out ≡ out ++ layout h object_bytes
unfolding write_artifact layout
write_artifact-layout h object_bytes out f =
    let n : length h.per_entry_ret_types % 2 ^ 32 ≡ length h.per_entry_ret_types =
      omega (arith, f.entries) in
    let version : artifact_format_version < 2 ^ 32 = omega arith in
    simp (
      n,
      take_all,
      append_u32_le-u32,
      append_u64_le-u64,
      append_str-len_prefixed,
      append_u8-byte,
      append_ret_types-append,
      append_extensions-records,
      append_assoc,
      version,
      f.llvm_version,
      f.target_triple,
      f.cpu_name,
      f.entries,
      f.ret_types,
      f.object_size,
      f.extension_count,
      f.extension_sizes,
      mode_byte-lt h.mode,
      fp_byte-lt h.fp_math_mode,
    )

-- With lengths that fit, and one entry in single mode or at least one in batch mode, serialising
-- appends exactly the documented layout to `out`.
pub serialize_artifact-layout :
    (h : ArtifactHeader) (object_bytes out : List ℕ)
    → Fits h object_bytes
    → EntriesOk h.mode (length h.per_entry_ret_types)
    → serialize_artifact h object_bytes out ≡ ok (out ++ layout h object_bytes)
unfolding serialize_artifact
serialize_artifact-layout h object_bytes out f n =
    ground (arith, write_artifact-layout h object_bytes out f)
