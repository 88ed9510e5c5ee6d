-- ===== src/Artifact/Format.antt =====
-- The header of an artifact, the magic numbers and the errors (src/compiled_artifact.h).
-- A byte is a number below 256 and a `std::string` is its list of bytes. An error has the
-- numbers that its message shows, and the message's text is left out.
use jitfusion.Common.{ℕ, List, [], ◌∷◌, ◌^◌}

-- `ArtifactMode`
pub data ArtifactMode : Type 0 where
  single batch : ArtifactMode

-- `FPMathMode` (include/exec_options.h)
pub data FpMathMode : Type 0 where
  strict fast : FpMathMode

pub record ArtifactExtension : Type 0 where
  pub tag : ℕ
  pub payload : List ℕ

-- `ValueType` has the underlying type `uint8_t`, and a reader casts any byte to it: a return
-- type is a byte here.
pub record ArtifactHeader : Type 0 where
  pub llvm_version : List ℕ
  pub target_triple : List ℕ
  pub cpu_name : List ℕ
  pub mode : ArtifactMode
  pub fp_math_mode : FpMathMode
  pub per_entry_ret_types : List ℕ
  pub extensions : List ArtifactExtension

abbrev pub artifact_magic : List ℕ
artifact_magic = b'J' ∷ b'F' ∷ b'C' ∷ b'A' ∷ []

abbrev pub artifact_footer_magic : List ℕ
artifact_footer_magic = b'J' ∷ b'F' ∷ b'C' ∷ b'E' ∷ []

abbrev pub artifact_format_version : ℕ
artifact_format_version = 2

-- `static_cast<std::uint8_t>` of the two enumerations
abbrev pub mode_byte : ArtifactMode → ℕ
mode_byte single = 0
mode_byte batch = 1

abbrev pub fp_byte : FpMathMode → ℕ
fp_byte strict = 0
fp_byte fast = 1

pub data Label : Type 0 where
  header footer : Label

-- `Status::InvalidArgument`, a constructor for each message
pub data Error : Type 0 where
  no_entries_to_write : Error
  single_mode_entries_to_write : ℕ → Error
  eof_u8 eof_u32 eof_u64 : ℕ → Error
  truncated_string truncated_blob : ℕ → ℕ → Error
  eof_magic wrong_magic : Label → Error
  unsupported_version : ℕ → Error
  unknown_mode unknown_fp_math_mode : ℕ → Error
  no_entries : Error
  single_mode_entries : ℕ → Error
  trailing_bytes : ℕ → Error
  llvm_version_mismatch target_triple_mismatch cpu_mismatch : Error
  mode_mismatch : ArtifactMode → Error

-- `std::size_t` arithmetic
abbrev pub size_mod : ℕ
size_mod = 2 ^ 64
