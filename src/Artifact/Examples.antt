-- ===== src/Artifact/Examples.antt =====
-- Artifacts at concrete bytes.
use jitfusion.Common.{ℕ, ◌≡◌, refl, ◌↔◌, ◌≤◌, ◌<◌, true, false, List, [], ◌∷◌, arith, length}
use jitfusion.Common.Result.{ok}
use jitfusion.Artifact.Format.{ArtifactHeader, batch, strict}
use jitfusion.Artifact.Read.{
  View, view_bytes, read_magic, read_u32_le, read_le, read_len_prefixed_str, read_u8,
  read_ret_types, read_u64_le, read_bytes_view, read_extensions, read_bytes_copy,
  deserialize_artifact,
}
use jitfusion.Artifact.Write.{
  serialize_artifact, append_extensions, append_u32_le, append_le, append_u64_le, append_ret_types,
  append_u8, append_len_prefixed_str,
}
use jitfusion.Artifact.LittleEndian.{le_bytes}
use jitfusion.Artifact.Encoding.{layout, Fits, serialize_artifact-layout}
use jitfusion.Artifact.Roundtrip.{deserialize-serialize}
use jitfusion.Artifact.Canonical.{deserialize-canonical}
use jitfusion.Artifact.Host.{
  LoadCompiledOptions, check_host_compatibility, Compatible, check_host_compatibility_iff,
}
use jitfusion.Artifact.Wrap.{read_bytes_view_iff, read_bytes_view_wraps}

abbrev sample : ArtifactHeader
sample = record {
  llvm_version = b'1' ∷ b'9' ∷ [];
  target_triple = b'x' ∷ [];
  cpu_name = [];
  mode = batch;
  fp_math_mode = strict;
  per_entry_ret_types = 5 ∷ 11 ∷ [];
  extensions = record { tag = 7; payload = 1 ∷ 2 ∷ [] } ∷ [];
}

abbrev object : List ℕ
object = 127 ∷ 69 ∷ 0 ∷ []

sample-Fits : Fits sample object
sample-Fits = omega arith

abbrev sample_view : View
sample_view = record { offset = 39; size = 3 }

serialize_sample : serialize_artifact sample object (0 ∷ []) ≡ ok (0 ∷ layout sample object)
unfolding serialize_artifact layout le_bytes append_extensions append_u32_le append_le append_u64_le
    append_ret_types append_u8 append_len_prefixed_str
serialize_sample = refl

deserialize_sample : deserialize_artifact (layout sample object) ≡ ok (sample, sample_view)
unfolding deserialize_artifact layout le_bytes read_magic read_u32_le read_le read_len_prefixed_str
    read_u8 read_ret_types read_u64_le read_bytes_view read_extensions read_bytes_copy
deserialize_sample = refl

serialize_artifact-layout_example :
    serialize_artifact sample object (0 ∷ []) ≡ ok (0 ∷ layout sample object)
serialize_artifact-layout_example =
    serialize_artifact-layout sample object (0 ∷ []) sample-Fits (omega arith)

deserialize-serialize_example :
    (blob : List ℕ) × (serialize_artifact sample object [] ≡ ok blob)
    × (v : View) × (deserialize_artifact blob ≡ ok (sample, v))
    × (view_bytes blob v ≡ object)
unfolding layout le_bytes
deserialize-serialize_example =
    deserialize-serialize sample object sample-Fits (omega arith) (omega arith)

deserialize-canonical_example : layout sample object ≡ layout sample object
unfolding layout le_bytes
deserialize-canonical_example =
    deserialize-canonical (layout sample object) sample sample_view (omega arith) (omega arith)
      (omega arith) deserialize_sample

abbrev any_host : LoadCompiledOptions
any_host = record { check_llvm_version = true; check_target_triple = false; check_cpu_name = false }

check_host_compatibility_iff_example :
    (check_host_compatibility sample any_host (b'1' ∷ b'9' ∷ []) [] [] batch ≡ ok tt)
    ↔ Compatible sample any_host (b'1' ∷ b'9' ∷ []) [] [] batch
check_host_compatibility_iff_example =
    check_host_compatibility_iff sample any_host (b'1' ∷ b'9' ∷ []) [] [] batch

read_bytes_view_iff_example :
    (read_bytes_view 2 object 1 ≡ ok (record { offset = 1; size = 2 }, 3)) ↔ (3 ≤ length object)
read_bytes_view_iff_example = read_bytes_view_iff object 1 2 (omega arith)

-- A size of 2^64 - 1 at position 2 of three bytes
read_bytes_view_wraps_example :
    (read_bytes_view 0xffff_ffff_ffff_ffff object 2
      ≡ ok (record { offset = 2; size = 0xffff_ffff_ffff_ffff }, 1))
    × (3 < 0x1_0000_0000_0000_0001)
    × (1 < 2)
read_bytes_view_wraps_example =
    read_bytes_view_wraps object 2 0xffff_ffff_ffff_ffff (omega arith) (omega arith) (omega arith)
      (omega arith)
