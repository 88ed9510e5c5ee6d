-- ===== src/Artifact/Canonical.antt =====
-- What `DeserializeArtifact` accepts is exactly what the layout gives.
use jitfusion.Common.{
  ℕ, ◌+◌, ◌^◌, ◌≤◌, ◌<◌, ◌≡◌, refl, ap, ap₂, sym, ◌∙◌, subst, List, [], ◌∷◌, ◌++◌, true, not, ◌&&◌,
  arith, ◌==◌, ==_iff, length, drop, length-drop,
}
use jitfusion.Common.Result.{ok, >>=-elim, guard-elim, ok-injective}
use jitfusion.Artifact.Format.{
  ArtifactMode, FpMathMode, ArtifactHeader, header, footer, artifact_magic, artifact_footer_magic,
  artifact_format_version, mode_byte, fp_byte, size_mod,
}
use jitfusion.Artifact.Read.{
  View, view_bytes, remaining, is_single_mode, mode_of, fp_math_mode_of, read_u8, read_u32_le,
  read_u64_le, read_len_prefixed_str, read_magic, read_bytes_view, read_ret_types, read_extensions,
  deserialize_artifact,
}
use jitfusion.Artifact.LittleEndian.{AllBytes}
use jitfusion.Artifact.Encoding.{u32, u64, len_prefixed, extension_records, layout}
use jitfusion.Artifact.Inverse.{
  read_u8-Holds, read_u32_le-Holds, read_u64_le-Holds, read_len_prefixed_str-Holds,
  read_bytes_view-Holds,
}
use jitfusion.Artifact.Loops.{read_ret_types-Holds, read_magic-Holds, read_extensions-Holds}

mode_byte-mode_of : (b : ℕ) {m : ArtifactMode} → mode_of b ≡ ok m → mode_byte m ≡ b
mode_byte-mode_of b h = ground arith

fp_byte-fp_math_mode_of : (b : ℕ) {m : FpMathMode} → fp_math_mode_of b ≡ ok m → fp_byte m ≡ b
fp_byte-fp_math_mode_of b h = ground arith

nothing_behind :
    (buf : List ℕ) (pos : ℕ)
    → length buf < 2 ^ 63
    → pos ≤ length buf
    → (remaining buf pos == 0) ≡ true
    → drop pos buf ≡ []
nothing_behind buf pos small p h =
    let e : remaining buf pos ≡ 0 = (==_iff (remaining buf pos) 0).0 h in
    empty (drop pos buf) (omega (arith, length-drop pos buf))
  where
    empty : (xs : List ℕ) → length xs ≡ 0 → xs ≡ []
    empty [] z = refl
    empty (x ∷ xs) z = absurd (omega arith)

-- A blob of bytes, shorter than 2^63, that is accepted with an object view whose end does not
-- wrap around 2^64 is, byte for byte, the layout of the header and the object bytes returned.
pub deserialize-canonical :
    (blob : List ℕ) (h : ArtifactHeader) (v : View)
    → AllBytes blob
    → length blob < 2 ^ 63
    → v.offset + v.size < size_mod
    → deserialize_artifact blob ≡ ok (h, v)
    → blob ≡ layout h (view_bytes blob v)
unfolding deserialize_artifact layout
deserialize-canonical blob h v bytes small k e =
    >>=-elim (read_magic artifact_magic header blob 0) _ e λ p0 e0 h0.
      >>=-elim (read_u32_le blob p0) _ h0 λ ver e1 h1.
        guard-elim (ver.0 == artifact_format_version) _ _ h1 λ e2 h2.
          >>=-elim (read_len_prefixed_str blob ver.1) _ h2 λ llvm e3 h3.
            >>=-elim (read_len_prefixed_str blob llvm.1) _ h3 λ triple e4 h4.
              >>=-elim (read_len_prefixed_str blob triple.1) _ h4 λ cpu e5 h5.
                >>=-elim (read_u8 blob cpu.1) _ h5 λ mb e6 h6.
                  >>=-elim (mode_of mb.0) _ h6 λ mode e7 h7.
                    >>=-elim (read_u8 blob mb.1) _ h7 λ fb e8 h8.
                      >>=-elim (fp_math_mode_of fb.0) _ h8 λ fp e9 h9.
                        >>=-elim (read_u32_le blob fb.1) _ h9 λ n e10 h10.
                          guard-elim (not (n.0 == 0)) _ _ h10 λ _ h11.
                            guard-elim (not (is_single_mode mode && not (n.0 == 1))) _ _ h11
                              λ _ h12. >>=-elim (read_ret_types n.0 blob n.1) _ h12 λ ts e13 h13.
                                >>=-elim (read_u64_le blob ts.1) _ h13 λ size e14 h14.
                                  >>=-elim (read_bytes_view size.0 blob size.1) _ h14 λ obj e15 h15.
                                    >>=-elim (read_u32_le blob obj.1) _ h15 λ c e16 h16.
                                      >>=-elim (read_extensions c.0 blob c.1) _ h16 λ es e17 h17.
                                        >>=-elim (read_magic artifact_footer_magic footer blob es.1)
                                          _ h17
                                          λ p18 e18 h18.
                                            guard-elim (remaining blob p18 == 0) _ _ h18 λ e19 h19.
                                              let r0 =
                                                read_magic-Holds blob small bytes artifact_magic
                                                  header 0 p0 refl (omega arith) e0 in
                                              let r1 =
                                                read_u32_le-Holds blob small bytes p0 ver.0 ver.1
                                                  r0.0 e1 in
                                              let r3 =
                                                read_len_prefixed_str-Holds blob small bytes ver.1
                                                  llvm.0 llvm.1 r1.1.0 e3 in
                                              let r4 =
                                                read_len_prefixed_str-Holds blob small bytes llvm.1
                                                  triple.0 triple.1 r3.0 e4 in
                                              let r5 =
                                                read_len_prefixed_str-Holds blob small bytes
                                                  triple.1 cpu.0 cpu.1 r4.0 e5 in
                                              let r6 =
                                                read_u8-Holds blob small bytes cpu.1 mb.0 mb.1 r5.0
                                                  e6 in
                                              let r8 =
                                                read_u8-Holds blob small bytes mb.1 fb.0 fb.1 r6.0
                                                  e8 in
                                              let r10 =
                                                read_u32_le-Holds blob small bytes fb.1 n.0 n.1 r8.0
                                                  e10 in
                                              let r13 =
                                                read_ret_types-Holds blob small bytes n.0 n.1 ts.0
                                                  ts.1 r10.1.0 e13 in
                                              let r14 =
                                                read_u64_le-Holds blob small bytes ts.1 size.0
                                                  size.1 r13.1.0 e14 in
                                              let ev : obj.0 ≡ v = ground arith in
                                              let k' : obj.0.offset + obj.0.size < size_mod =
                                                rw ev k in
                                              let r15 =
                                                read_bytes_view-Holds blob small bytes size.0 size.1
                                                  obj.0 obj.1 r14.0 k' e15 in
                                              let r16 =
                                                read_u32_le-Holds blob small bytes obj.1 c.0 c.1
                                                  r15.1.0 e16 in
                                              let r17 =
                                                read_extensions-Holds blob small bytes c.0 c.1 es.0
                                                  es.1 r16.1.0 e17 in
                                              let r18 =
                                                read_magic-Holds blob small bytes
                                                  artifact_footer_magic footer es.1 p18 refl r17.1.0
                                                  e18 in
                                              let end = nothing_behind blob p18 small r18.0 e19 in
                                              let magic_left =
                                                r18.1 ∙ ap (λ r. artifact_footer_magic ++ r) end in
                                              let exts_left =
                                                r17.1.1 ∙ ap (extension_records es.0) magic_left in
                                              let count_left =
                                                r16.1.1
                                                ∙ ap₂ (λ k r. u32 k ++ r) (sym r17.0) exts_left in
                                              let object_left =
                                                r15.1.1
                                                ∙ ap (λ r. view_bytes blob obj.0 ++ r) count_left in
                                              let size_left =
                                                r14.1
                                                ∙ ap₂ (λ k r. u64 k ++ r) (sym r15.0) object_left in
                                              let types_left =
                                                r13.1.1 ∙ ap (λ r. ts.0 ++ r) size_left in
                                              let entries_left =
                                                r10.1.1
                                                ∙ ap₂ (λ k r. u32 k ++ r) (sym r13.0) types_left in
                                              let fp_left =
                                                r8.1
                                                ∙ ap₂ (λ b r. b ∷ r)
                                                    (sym (fp_byte-fp_math_mode_of fb.0 e9))
                                                    entries_left in
                                              let mode_left =
                                                r6.1
                                                ∙ ap₂ (λ b r. b ∷ r)
                                                    (sym (mode_byte-mode_of mb.0 e7)) fp_left in
                                              let names_left =
                                                r3.1
                                                ∙ ap (len_prefixed llvm.0) (
                                                    r4.1
                                                    ∙ ap (len_prefixed triple.0) (
                                                        r5.1
                                                        ∙ ap (len_prefixed cpu.0) mode_left)) in
                                              let version : ver.0 ≡ artifact_format_version =
                                                (==_iff ver.0 artifact_format_version).0 e2 in
                                              let all =
                                                r0.1
                                                ∙ ap (λ r. artifact_magic ++ r)
                                                    (r1.1.1
                                                      ∙ ap₂ (λ k r. u32 k ++ r) version
                                                          names_left) in
                                              subst
                                                (λ (x : ArtifactHeader × View).
                                                  blob ≡ layout x.0 (view_bytes blob x.1))
                                                (ok-injective h19) all
