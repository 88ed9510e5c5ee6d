-- ===== src/Artifact/Host.antt =====
-- `CheckHostCompatibility` of src/compiled_artifact.cc and `LoadCompiledOptions` of
-- include/exec_options.h.
use jitfusion.Common.{ℕ, ◌≡◌, refl, ◌↔◌, Bool, true, false, not, ◌&&◌, List, [], ◌∷◌, arith, ◌==◌}
use jitfusion.Common.Result.{Result, ok, ◌>>◌, guard}
use jitfusion.Artifact.Format.{
  ArtifactMode, single, batch, ArtifactHeader, Error, llvm_version_mismatch, target_triple_mismatch,
  cpu_mismatch, mode_mismatch,
}

pub record LoadCompiledOptions : Type 0 where
  pub check_llvm_version : Bool
  pub check_target_triple : Bool
  pub check_cpu_name : Bool

-- `==` on strings
abbrev pub bytes_eq : List ℕ → List ℕ → Bool
bytes_eq [] [] = true
bytes_eq (a ∷ as') (b ∷ bs) = (a == b) && bytes_eq as' bs
bytes_eq _ _ = false

abbrev pub mode_eq : ArtifactMode → ArtifactMode → Bool
mode_eq single single = true
mode_eq batch batch = true
mode_eq _ _ = false

unfoldable pub check_host_compatibility :
    ArtifactHeader
    → LoadCompiledOptions
    → List ℕ
    → List ℕ
    → List ℕ
    → ArtifactMode
    → Result Error (Unit {0})
check_host_compatibility h opts host_llvm_version host_target_triple host_cpu_name expected_mode =
    do
      guard (not (opts.check_llvm_version && not (bytes_eq h.llvm_version host_llvm_version)))
          llvm_version_mismatch
      guard (not (opts.check_target_triple && not (bytes_eq h.target_triple host_target_triple)))
          target_triple_mismatch
      guard (not (opts.check_cpu_name && not (bytes_eq h.cpu_name host_cpu_name))) cpu_mismatch
      guard (mode_eq h.mode expected_mode) (mode_mismatch expected_mode)

bytes_eq→eq : (xs ys : List ℕ) → bytes_eq xs ys ≡ true → xs ≡ ys
bytes_eq→eq [] [] h = refl
bytes_eq→eq [] (y ∷ ys) h = cc
bytes_eq→eq (x ∷ xs) [] h = cc
bytes_eq→eq (x ∷ xs) (y ∷ ys) h = ground (arith, bytes_eq→eq xs ys)

bytes_eq_refl : (xs : List ℕ) → bytes_eq xs xs ≡ true
bytes_eq_refl [] = refl
bytes_eq_refl (x ∷ xs) = ground (arith, bytes_eq_refl xs)

-- What a header must match: each name whose check is on, and the mode always.
pub record Compatible (h : ArtifactHeader) (opts : LoadCompiledOptions) (llvm triple cpu : List ℕ)
    (mode : ArtifactMode) : Type 0 where
  pub llvm_version : opts.check_llvm_version ≡ true → h.llvm_version ≡ llvm
  pub target_triple : opts.check_target_triple ≡ true → h.target_triple ≡ triple
  pub cpu_name : opts.check_cpu_name ≡ true → h.cpu_name ≡ cpu
  pub same_mode : h.mode ≡ mode

module _ (h : ArtifactHeader) (opts : LoadCompiledOptions) (llvm triple cpu : List ℕ)
    (mode : ArtifactMode) where
  passes→Compatible :
      check_host_compatibility h opts llvm triple cpu mode ≡ ok tt
      → Compatible h opts llvm triple cpu mode
  unfolding check_host_compatibility
  passes→Compatible p = record {
    llvm_version = λ on. ground (arith, bytes_eq→eq h.llvm_version llvm);
    target_triple = λ on. ground (arith, bytes_eq→eq h.target_triple triple);
    cpu_name = λ on. ground (arith, bytes_eq→eq h.cpu_name cpu);
    same_mode = ground arith;
  }

  Compatible→passes :
      Compatible h opts llvm triple cpu mode
      → check_host_compatibility h opts llvm triple cpu mode ≡ ok tt
  unfolding check_host_compatibility
  Compatible→passes c = ground (
    arith,
    c.llvm_version,
    c.target_triple,
    c.cpu_name,
    c.same_mode,
    bytes_eq_refl llvm,
    bytes_eq_refl triple,
    bytes_eq_refl cpu,
  )

  -- The host check passes exactly when each name whose check is on equals the host's, and the
  -- mode is the one that the engine expects; the mode is compared whatever the options are.
  pub check_host_compatibility_iff :
      (check_host_compatibility h opts llvm triple cpu mode ≡ ok tt)
      ↔ Compatible h opts llvm triple cpu mode
  check_host_compatibility_iff = (passes→Compatible, Compatible→passes)
