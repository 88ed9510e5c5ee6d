-- ===== src/Artifact/Loops.antt =====
-- The loops of the reader and its magic texts, inverted.
use native.Mathlib.Nat.{add-zero}
use jitfusion.Common.{
  ℕ, zero, suc, ◌+◌, ◌%◌, ◌^◌, ◌≤◌, ◌<◌, ◌≡◌, refl, ap, sym, ◌∙◌, List, [], ◌∷◌, ◌++◌, true, false,
  arith, length, drop,
}
use jitfusion.Common.Result.{ok, >>=-elim}
use jitfusion.Artifact.Format.{ArtifactExtension, Label, size_mod}
use jitfusion.Artifact.Read.{
  past_end, byte_at, read_u8, read_u32_le, read_magic, read_bytes_copy, read_ret_types,
  read_extensions, matches_magic,
}
use jitfusion.Artifact.LittleEndian.{AllBytes}
use jitfusion.Artifact.Encoding.{u32, extension_records}
use jitfusion.Artifact.Inverse.{
  Holds, read_u8-Holds, read_u32_le-Holds, read_bytes_copy-Holds, in_range, drop_head,
}

module _ (buf : List ℕ) (small : length buf < 2 ^ 63) (bytes : AllBytes buf) where
  pub read_ret_types-Holds :
      (n pos : ℕ) (ts : List ℕ) (next : ℕ)
      → pos ≤ length buf
      → read_ret_types n buf pos ≡ ok (ts, next)
      → (length ts ≡ n) × Holds buf pos next (λ r. ts ++ r)
  unfolding read_ret_types
  read_ret_types-Holds zero pos ts next p h =
      let at : next ≡ pos = ground arith in
      let val : [] ≡ ts = ground arith in rw (at, ← val) (refl, (p, refl))
  read_ret_types-Holds (suc n) pos ts next p h = >>=-elim (read_u8 buf pos) _ h λ a e rest.
      >>=-elim (read_ret_types n buf a.1) _ rest λ b e' done.
        let first = read_u8-Holds buf small bytes pos a.0 a.1 p e in
        let others = read_ret_types-Holds n a.1 b.0 b.1 first.0 e' in
        let at : next ≡ b.1 = ground arith in
        let val : a.0 ∷ b.0 ≡ ts = ground arith in
        rw (at, ← val) (ap suc others.0, (others.1.0, first.1 ∙ ap (λ l. a.0 ∷ l) others.1.1))

  matches_magic-Holds :
      (cs : List ℕ) (pos : ℕ)
      → pos + length cs ≤ length buf
      → matches_magic cs buf pos ≡ true
      → drop pos buf ≡ cs ++ drop (pos + length cs) buf
  unfolding matches_magic
  matches_magic-Holds [] pos room h = rw add-zero
  matches_magic-Holds (c ∷ cs) pos room h =
      let first : byte_at buf pos ≡ c = ground arith in
      let others = matches_magic-Holds cs (pos + 1) (omega arith) (ground arith) in
      let e : pos + 1 + length cs ≡ pos + suc (length cs) = omega arith in
      drop_head buf pos (omega arith) ∙ rw first (ap (λ l. c ∷ l) (rw e at others))

  pub read_magic-Holds :
      (cs : List ℕ) (l : Label) (pos next : ℕ)
      → length cs ≡ 4
      → pos ≤ length buf
      → read_magic cs l buf pos ≡ ok next
      → Holds buf pos next (λ r. cs ++ r)
  unfolding read_magic
  read_magic-Holds cs l pos next four p h =
      let fits : past_end buf pos 4 ≡ false = ground arith in
      let room : pos + 4 ≤ length buf = in_range buf small bytes pos 4 fits (omega arith) in
      let wrap : (pos + 4) % size_mod ≡ pos + 4 = omega arith in
      let hit : matches_magic cs buf pos ≡ true = ground arith in
      let at : next ≡ pos + length cs = rw four (ground arith) in
      let room' : pos + length cs ≤ length buf = rw four room in
      rw at (room', matches_magic-Holds cs pos room' hit)

  pub read_extensions-Holds :
      (n pos : ℕ) (es : List ArtifactExtension) (next : ℕ)
      → pos ≤ length buf
      → read_extensions n buf pos ≡ ok (es, next)
      → (length es ≡ n) × Holds buf pos next (extension_records es)
  unfolding read_extensions
  read_extensions-Holds zero pos es next p h =
      let at : next ≡ pos = ground arith in
      let val : [] ≡ es = ground arith in rw (at, ← val) (refl, (p, refl))
  read_extensions-Holds (suc n) pos es next p h = >>=-elim (read_u32_le buf pos) _ h λ a ea ha.
      >>=-elim (read_u32_le buf a.1) _ ha λ b eb hb.
        >>=-elim (read_bytes_copy b.0 buf b.1) _ hb λ c ec hc.
          >>=-elim (read_extensions n buf c.1) _ hc λ d ed done.
            let tag = read_u32_le-Holds buf small bytes pos a.0 a.1 p ea in
            let plen = read_u32_le-Holds buf small bytes a.1 b.0 b.1 tag.1.0 eb in
            let body = read_bytes_copy-Holds buf small bytes b.0 b.1 c.0 c.1 plen.1.0 plen.0 ec in
            let others = read_extensions-Holds n c.1 d.0 d.1 body.1.0 ed in
            let at : next ≡ d.1 = ground arith in
            let val : record { tag = a.0; payload = c.0 } ∷ d.0 ≡ es = ground arith in
            rw (at, ← val)
              (
                ap suc others.0,
                (
                  others.1.0,
                  tag.1.1
                      ∙ ap (λ r. u32 a.0 ++ r)
                          (plen.1.1
                            ∙ ap (λ k. u32 k ++ drop b.1 buf) (sym body.0)
                            ∙ ap (λ r. u32 (length c.0) ++ r)
                                (body.1.1 ∙ ap (λ r. c.0 ++ r) others.1.1)),
                ),
              )
