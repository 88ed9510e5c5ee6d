-- ===== src/Arena/Bounds.antt =====
-- What `Arena::Allocate` gives out: aligned bytes of the newest chunk, behind those given out before.
use native.Mathlib.Nat.{add-mod-mod, mod-lt, zero-mod}
use jitfusion.Common.{
  ℕ, zero, suc, ◌+◌, ◌-◌, ◌%◌, ◌≤◌, ◌<◌, ◌≡◌, refl, sym, ap, subst, ◌∙◌, inl, inr, ◌⊎◌, false,
  Option, none, some, List, [], ◌∷◌, ltb, ◌==◌, arith, Bool-cases, Option-cases, ltb→ge,
}
use jitfusion.Arena.{word, Chunk, Arena, padding, bump, add_chunk, chunk_size, allocate}

-- A power of two: a divisor of 2^64
abbrev pub IsAlignment : ℕ → Type 0
IsAlignment m = (0 < m) × (word % m ≡ 0)

-- The free bytes are the end of the newest chunk.
abbrev pub Free : List Chunk → ℕ → ℕ → Type 0
Free [] avail_buf avail_bytes = avail_bytes ≡ 0
Free (c ∷ rest) avail_buf avail_bytes =
    (c.buf ≤ avail_buf) × (avail_buf + avail_bytes ≡ c.buf + c.size) × (c.buf + c.size < word)

abbrev pub Wf : Arena → Type 0
Wf a = Free a.chunks a.avail_buf a.avail_bytes

-- The bytes lie in the newest chunk, in front of the free ones, and are aligned.
abbrev pub Served : Arena → ℕ → ℕ → ℕ → Type 0
Served a p size alignment =
    (c : Chunk) × (rest : List Chunk) × (a.chunks ≡ c ∷ rest)
    × (c.buf ≤ p)
    × (p + size ≤ a.avail_buf)
    × (a.avail_buf ≤ c.buf + c.size)
    × (p % alignment ≡ 0)

padding_aligned : (m addr : ℕ) → IsAlignment m → addr < word → (addr + padding m addr) % m ≡ 0
unfolding padding
padding_aligned m zero (pos, e) h = add-mod-mod 0 0 m ∙ zero-mod m
padding_aligned m (suc addr) (pos, e) h =
    let sum : suc addr + (word - suc addr) % word ≡ word = omega (arith, h) in
    add-mod-mod (suc addr) ((word - suc addr) % word) m ∙ ap (λ x. x % m) sum ∙ e

padding_small : (m addr : ℕ) → 0 < m → padding m addr < m
unfolding padding
padding_small m addr pos = mod-lt ((word - addr) % word) pos

-- The end of `Allocate`, where the bytes are there
bump_lem :
    (size m : ℕ) (a : Arena) (c : Chunk) (rest : List Chunk)
    → IsAlignment m
    → a.chunks ≡ c ∷ rest
    → Free (c ∷ rest) a.avail_buf a.avail_bytes
    → size + padding m a.avail_buf ≤ a.avail_bytes
    → Wf ((bump size m a).1)
      × Served ((bump size m a).1) ((bump size m a).0) size m
      × (a.avail_buf ≤ (bump size m a).0)
unfolding bump
bump_lem size m a c rest (pos, e) at (low, end, small) fits =
    let p : ℕ = padding m a.avail_buf in
    let ret : (a.avail_buf + p) % word ≡ a.avail_buf + p = omega (arith, end, small, fits) in
    let buf : (a.avail_buf + (size + p)) % word ≡ a.avail_buf + (size + p) =
      omega (arith, end, small, fits) in
    let bytes : (a.avail_bytes + word - (size + p) % word) % word ≡ a.avail_bytes - (size + p) =
      omega (arith, end, small, fits) in
    let aligned = padding_aligned m a.avail_buf (pos, e) (omega (arith, end, small, low)) in
    let free : Free (c ∷ rest) (a.avail_buf + (size + p)) (a.avail_bytes - (size + p)) =
      (omega (arith, low), omega (arith, end, fits), small) in
    (
      rw (buf, bytes)
          (subst (λ cs. Free cs (a.avail_buf + (size + p)) (a.avail_bytes - (size + p))) (sym at)
            free),
      (
        c,
        rest,
        at,
        rw ret (omega (arith, low)),
        rw (ret, buf) (omega arith),
        rw buf (omega (arith, end, fits)),
        rw ret aligned,
      ),
      rw ret (omega arith),
    )

-- The bytes are in a new chunk, or behind all that the arena gave out of the same chunk.
abbrev pub Fresh : Arena → Arena → ℕ → Type 0
Fresh a b p =
    ((c : Chunk) × (b.chunks ≡ c ∷ a.chunks)) ⊎ ((b.chunks ≡ a.chunks) × (a.avail_buf ≤ p))

abbrev pub Gives : Arena → ℕ → ℕ → ℕ × Arena → Type 0
Gives a size m (p, b) = Wf b × Served b p size m × Fresh a b p

-- What an allocation ends with: the arena as it was, where `malloc` refused, or bytes
abbrev pub Outcome : Type 0 → Arena → ℕ → ℕ → Option ℕ × Arena → Type 0
Outcome refused a size m (none, b) = (b ≡ a) × refused
Outcome refused a size m (some p, b) = Gives a size m (p, b)

chunks_cases : (cs : List Chunk) → (cs ≡ []) ⊎ ((c : Chunk) × (rest : List Chunk) × (cs ≡ c ∷ rest))
chunks_cases [] = inl refl
chunks_cases (c ∷ rest) = inr (c, rest, refl)

-- From the current chunk
current_lem :
    (size m : ℕ) (a : Arena)
    → Wf a
    → IsAlignment m
    → 0 < size
    → size + padding m a.avail_buf ≤ a.avail_bytes
    → Gives a size m (bump size m a)
unfolding bump
current_lem size m a w align pos fits = elim (chunks_cases a.chunks) [
  | inl e ↦ absurd (
      let none_left : a.avail_bytes ≡ 0 = subst (λ cs. Free cs a.avail_buf a.avail_bytes) e w in
      omega (arith, none_left, pos, fits))
  | inr (c, rest, e) ↦
      let (wf, served, behind) =
        bump_lem size m a c rest align e (subst (λ cs. Free cs a.avail_buf a.avail_bytes) e w)
          fits in
      (wf, served, inr (refl, behind))
]

-- From a new chunk
new_lem :
    (size m out n : ℕ) (a : Arena)
    → IsAlignment m
    → out + n < word
    → size + m ≤ n + 1
    → Gives a size m (bump size m (add_chunk out n a))
unfolding bump add_chunk
new_lem size m out n a align small fits =
    let c : Chunk = record { buf = out; size = n } in
    let p : padding m out < m = padding_small m out align.0 in
    let free : Free (c ∷ a.chunks) out n = (omega arith, refl, small) in
    let (wf, served, behind) =
      bump_lem size m (add_chunk out n a) c a.chunks align refl free (omega (arith, p, fits)) in
    (wf, served, inl (c, refl))

module _ {H : Type 0} (malloc : H → ℕ → Option ℕ × H) where
  -- A buffer that `malloc` returns lies in the address space.
  abbrev pub MallocFits : Type 0
  MallocFits = (h : H) (n p : ℕ) → (malloc h n).0 ≡ some p → p + n < word

  -- On a well-formed arena, for a size that is not zero and an alignment that is a power of two and
  -- for which the sums do not wrap, `Allocate` either gives bytes or leaves the arena as it was, the
  -- latter only where `malloc` refuses the new chunk. The bytes are aligned, they lie in the newest
  -- chunk in front of its free bytes, they are in a new chunk or behind all that was given out of
  -- the same chunk, and the arena stays well-formed.
  pub allocate-Outcome :
      (size m : ℕ) (a : Arena) (h : H)
      → MallocFits
      → Wf a
      → IsAlignment m
      → 0 < size
      → size + m < word
      → Outcome
          ((malloc h (chunk_size size m a)).0 ≡ none)
          a
          size
          m
          ((allocate malloc size m a h).0)
  unfolding allocate
  allocate-Outcome size m a h fits w align pos small =
      let n : ℕ = chunk_size size m a in
      let p : padding m a.avail_buf < m = padding_small m a.avail_buf align.0 in
      let sum : (size + padding m a.avail_buf) % word ≡ size + padding m a.avail_buf =
        omega (arith, p, small) in
      let nonzero : (size == 0) ≡ false = ground arith in
      rw (nonzero, sum)
        (elim (Bool-cases (ltb a.avail_bytes (size + padding m a.avail_buf))) [
          | inr c ↦ rw c (current_lem size m a w align pos (ltb→ge _ _ c))
          | inl c ↦ rw c (elim (Option-cases ((malloc h n).0)) [
            | inl e ↦ rw e (refl, refl)
            | inr (out, e) ↦
                let large : size + m ≤ n + 1 = omega (arith, small, align.0) in
                rw e (new_lem size m out n a align (fits h n out e) large)
          ])
        ])
