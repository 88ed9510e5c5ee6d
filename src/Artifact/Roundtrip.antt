-- ===== src/Artifact/Roundtrip.antt =====
-- `DeserializeArtifact` reads back what `SerializeArtifact` writes.
use jitfusion.Common.{
  ℕ, ◌<◌, ◌≡◌, refl, ap, List, [], ◌∷◌, ◌++◌, not, ◌&&◌, arith, ◌==◌, length, length-drop,
}
use jitfusion.Common.Result.{ok, guard}
use jitfusion.Artifact.Format.{
  ArtifactMode, single, batch, FpMathMode, strict, fast, ArtifactHeader, Error, header, footer,
  no_entries, single_mode_entries, artifact_magic, artifact_footer_magic, artifact_format_version,
  mode_byte, fp_byte, size_mod,
}
use jitfusion.Artifact.Read.{
  View, view_bytes, remaining, mode_of, fp_math_mode_of, is_single_mode, deserialize_artifact,
}
use jitfusion.Artifact.Write.{serialize_artifact}
use jitfusion.Artifact.Encoding.{
  u32, u64, len_prefixed, extension_records, layout, Fits, EntriesOk, serialize_artifact-layout,
}
use jitfusion.Artifact.Cursor.{
  At, read_u8-At, read_u32_le-At, read_u64_le-At, read_len_prefixed_str-At, read_bytes_view-At,
  read_ret_types-At, read_magic-At, read_extensions-At,
}

mode_of-mode_byte : (m : ArtifactMode) → mode_of (mode_byte m) ≡ ok m
mode_of-mode_byte single = refl
mode_of-mode_byte batch = refl

fp_math_mode_of-fp_byte : (m : FpMathMode) → fp_math_mode_of (fp_byte m) ≡ ok m
fp_math_mode_of-fp_byte strict = refl
fp_math_mode_of-fp_byte fast = refl

some_entry :
    (m : ArtifactMode) (n : ℕ) → EntriesOk m n → guard {E = Error} (not (n == 0)) no_entries ≡ ok tt
some_entry single n h = ground arith
some_entry batch n h = ground arith

entries_of_mode :
    (m : ArtifactMode) (n : ℕ)
    → EntriesOk m n
    → guard (not (is_single_mode m && not (n == 1))) (single_mode_entries n) ≡ ok tt
entries_of_mode single n h = ground arith
entries_of_mode batch n h = refl

nothing_left :
    (buf : List ℕ) (pos : ℕ) → length buf < size_mod → At buf pos [] → remaining buf pos ≡ 0
nothing_left buf pos small at = omega (arith, length-drop pos buf, ap length at.1, at.0)

-- The parts of the layout, each with all that follows it
module _ (h : ArtifactHeader) (object_bytes : List ℕ) where
  abbrev extension_area : List ℕ
  extension_area = u32 (length h.extensions) ++ extension_records h.extensions artifact_footer_magic

  abbrev object_area : List ℕ
  object_area = u64 (length object_bytes) ++ (object_bytes ++ extension_area)

  abbrev entry_area : List ℕ
  entry_area = u32 (length h.per_entry_ret_types) ++ (h.per_entry_ret_types ++ object_area)

  abbrev mode_area : List ℕ
  mode_area = mode_byte h.mode ∷ fp_byte h.fp_math_mode ∷ entry_area

  abbrev cpu_area : List ℕ
  cpu_area = len_prefixed h.cpu_name mode_area

  abbrev triple_area : List ℕ
  triple_area = len_prefixed h.target_triple cpu_area

  abbrev name_area : List ℕ
  name_area = len_prefixed h.llvm_version triple_area

  deserialize_artifact-layout :
      Fits h object_bytes
      → EntriesOk h.mode (length h.per_entry_ret_types)
      → length (layout h object_bytes) < size_mod
      → (v : View) × (deserialize_artifact (layout h object_bytes) ≡ ok (h, v))
        × (view_bytes (layout h object_bytes) v ≡ object_bytes)
  unfolding deserialize_artifact
  deserialize_artifact-layout f n small =
      let buf = layout h object_bytes in
      let types = h.per_entry_ret_types in
      let start : At buf 0 (artifact_magic ++ (u32 artifact_format_version ++ name_area)) =
        unfold layout in (omega arith, refl) in
      let magic = read_magic-At buf small 0 artifact_magic _ header refl start in
      let version =
        read_u32_le-At buf small 4 artifact_format_version name_area (omega arith) magic.1 in
      let llvm =
        read_len_prefixed_str-At buf small 8 h.llvm_version triple_area f.llvm_version version.1 in
      let triple =
        read_len_prefixed_str-At buf small _ h.target_triple cpu_area f.target_triple llvm.1 in
      let cpu = read_len_prefixed_str-At buf small _ h.cpu_name mode_area f.cpu_name triple.1 in
      let mode = read_u8-At buf small _ (mode_byte h.mode) _ cpu.1 in
      let fp = read_u8-At buf small _ (fp_byte h.fp_math_mode) entry_area mode.1 in
      let entries = read_u32_le-At buf small _ (length types) _ f.entries fp.1 in
      let rets = read_ret_types-At buf small _ types object_area entries.1 in
      let size = read_u64_le-At buf small _ (length object_bytes) _ f.object_size rets.1 in
      let object = read_bytes_view-At buf small _ object_bytes extension_area size.1 in
      let count = read_u32_le-At buf small _ (length h.extensions) _ f.extension_count object.2 in
      let exts =
        read_extensions-At buf small _ h.extensions artifact_footer_magic f.extension_sizes
          count.1 in
      let footer_at : At buf exts.0 (artifact_footer_magic ++ []) = exts.2 in
      let foot = read_magic-At buf small exts.0 artifact_footer_magic [] footer refl footer_at in
      let left = nothing_left buf _ small foot.1 in
      (
        _,
        rw (
          magic.0,
          version.0,
          llvm.0,
          triple.0,
          cpu.0,
          mode.0,
          mode_of-mode_byte h.mode,
          fp.0,
          fp_math_mode_of-fp_byte h.fp_math_mode,
          entries.0,
          some_entry h.mode (length types) n,
          entries_of_mode h.mode (length types) n,
          rets.0,
          size.0,
          object.0,
          count.0,
          exts.1,
          foot.0,
          left,
        ),
        object.1,
      )

-- A header and object bytes whose lengths fit their words, with one entry in single mode or at
-- least one in batch mode, are serialised into an empty string without an error. If the blob is
-- shorter than 2^64 bytes, deserialising it gives the same header, the unknown extensions
-- included, and a view that shows the object bytes.
pub deserialize-serialize :
    (h : ArtifactHeader) (object_bytes : List ℕ)
    → Fits h object_bytes
    → EntriesOk h.mode (length h.per_entry_ret_types)
    → length (layout h object_bytes) < size_mod
    → (blob : List ℕ) × (serialize_artifact h object_bytes [] ≡ ok blob)
      × (v : View) × (deserialize_artifact blob ≡ ok (h, v))
      × (view_bytes blob v ≡ object_bytes)
deserialize-serialize h object_bytes f n small =
    let back = deserialize_artifact-layout h object_bytes f n small in
    (layout h object_bytes, serialize_artifact-layout h object_bytes [] f n, back.0, back.1, back.2)
