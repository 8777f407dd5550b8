-- ===== src/Agent/DiskBuffer/Frames.antt =====
-- buffer.go: a file that holds whole entries, and what the loops read from it.
use blazelog.Base.{
  ℕ, suc, ◌+◌, ◌^◌, ◌≤◌, ◌<◌, ◌≡◌, ◌⊎◌, inl, inr, refl, ap, ◌∙◌, sym, some, List, [], ◌∷◌, ◌++◌,
  arith, length, take, ltb, append_assoc, length-append, Bool-cases,
}
use blazelog.Agent.DiskBuffer.Bytes.{
  got, read_full, put_uint32, uint32, uint32-put_uint32, length-put_uint32, read_full_part,
}
use blazelog.Agent.DiskBuffer.{Codec, done, frame, read_loop, drop_loop}

-- The payloads are at most as long as four bytes can say.
abbrev pub Fit : List (List ℕ) → Type 0
Fit [] = Unit {0}
Fit (p ∷ ps) = (length p < 2 ^ 32) × Fit ps

abbrev pub frames : List (List ℕ) → List ℕ
frames [] = []
frames (p ∷ ps) = frame p ++ frames ps

pub length-frame : (p : List ℕ) → length (frame p) ≡ 4 + length p
length-frame p =
    omega (arith, length-append (put_uint32 (length p)) p, length-put_uint32 (length p))

pub frames-append : (ps qs : List (List ℕ)) → frames (ps ++ qs) ≡ frames ps ++ frames qs
frames-append [] qs = refl
frames-append (p ∷ ps) qs =
    ap (◌++◌ (frame p)) (frames-append ps qs) ∙ sym (append_assoc (frame p) (frames ps) (frames qs))

-- At the place of an entry the length reads back, and so does the payload behind it.
pub read_prefix :
    (pre p post : List ℕ)
    → read_full (pre ++ (frame p ++ post)) (length pre) 4 ≡ got (put_uint32 (length p))
read_prefix pre p post =
    rw (append_assoc (put_uint32 (length p)) p post) (
      read_full_part pre (put_uint32 (length p)) (p ++ post) 4 (sym (length-put_uint32 (length p))))

pub read_payload :
    (pre p post : List ℕ) (n : ℕ)
    → n ≡ length p
    → read_full (pre ++ (frame p ++ post)) (length pre + 4) n ≡ got p
read_payload pre p post n e =
    let shape : pre ++ (frame p ++ post) ≡ (pre ++ put_uint32 (length p)) ++ (p ++ post) =
      ap (◌++◌ pre) (append_assoc (put_uint32 (length p)) p post)
      ∙ sym (append_assoc pre (put_uint32 (length p)) (p ++ post)) in
    let place : length pre + 4 ≡ length (pre ++ put_uint32 (length p)) =
      omega (arith, length-append pre (put_uint32 (length p)), length-put_uint32 (length p)) in
    rw (shape, place) (read_full_part (pre ++ put_uint32 (length p)) p post n e)

module _ {E : Type 0} (codec : Codec E) where
  -- Each payload is read back as the entry at its place.
  abbrev pub Decodes : List (List ℕ) → List E → Type 0
  Decodes [] [] = Unit {0}
  Decodes [] (e ∷ es) = ⊥
  Decodes (p ∷ ps) [] = ⊥
  Decodes (p ∷ ps) (e ∷ es) = (codec.unmarshal p ≡ some e) × Decodes ps es

  -- The loop of `Read` over whole entries, whatever stands before and behind them.
  pub read_loop-frames :
      (ps : List (List ℕ)) (es : List E) (pre post : List ℕ)
      → Fit ps
      → Decodes ps es
      → read_loop codec (length ps) (pre ++ (frames ps ++ post)) (length pre)
        ≡ done es (length (frames ps)) (length pre + length (frames ps))
  unfolding read_loop
  read_loop-frames [] [] pre post f d = ap (λ n. done [] 0 n) (omega arith)
  read_loop-frames [] (e ∷ es) pre post f d = absurd d
  read_loop-frames (p ∷ ps) [] pre post f d = absurd d
  read_loop-frames (p ∷ ps) (e ∷ es) pre post f d =
      let bytes = pre ++ (frames (p ∷ ps) ++ post) in
      let shape : bytes ≡ pre ++ (frame p ++ (frames ps ++ post)) =
        ap (◌++◌ pre) (append_assoc (frame p) (frames ps) post) in
      let shape' : bytes ≡ (pre ++ frame p) ++ (frames ps ++ post) =
        shape ∙ sym (append_assoc pre (frame p) (frames ps ++ post)) in
      let n = uint32-put_uint32 (length p) f.0 in
      let r1 : read_full bytes (length pre) 4 ≡ got (put_uint32 (length p)) =
        rw shape (read_prefix pre p (frames ps ++ post)) in
      let r2 : read_full bytes (length pre + 4) (uint32 (put_uint32 (length p))) ≡ got p =
        rw shape (read_payload pre p (frames ps ++ post) _ n) in
      let place : length pre + 4 + uint32 (put_uint32 (length p)) ≡ length (pre ++ frame p) =
        omega (arith, n, length-append pre (frame p), length-frame p) in
      let ih : read_loop codec (length ps) bytes (length pre + 4 + uint32 (put_uint32 (length p)))
          ≡ done es (length (frames ps)) (length (pre ++ frame p) + length (frames ps)) =
        rw (shape', place) (read_loop-frames ps es (pre ++ frame p) post f.1 d.1) in
      let sum = length-append (frame p) (frames ps) in
      let sum' = length-append pre (frame p) in
      let four = length-frame p in ground (arith, r1, r2, ih, d.0)

-- The loop of `dropOldest` over whole entries: it stops at the first entry where enough bytes are
-- gone, or when none is left.
pub drop_loop-frames :
    (ps : List (List ℕ)) (pre post : List ℕ) (needed dropped entries : ℕ)
    → Fit ps
    → (k : ℕ) × (k ≤ length ps)
      × (drop_loop (length ps) (pre ++ (frames ps ++ post)) (length pre) needed dropped entries
          ≡ (dropped + length (frames (take k ps)), entries + k))
      × ((needed ≤ dropped + length (frames (take k ps))) ⊎ (k ≡ length ps))
unfolding drop_loop
drop_loop-frames [] pre post needed dropped entries f = (0, omega arith, ground arith, inr refl)
drop_loop-frames (p ∷ ps) pre post needed dropped entries f =
    elim (Bool-cases (ltb dropped needed)) [
      | inr enough ↦ (0, omega arith, ground arith, ground arith)
      | inl more ↦
          let bytes = pre ++ (frames (p ∷ ps) ++ post) in
          let shape : bytes ≡ pre ++ (frame p ++ (frames ps ++ post)) =
            ap (◌++◌ pre) (append_assoc (frame p) (frames ps) post) in
          let shape' : bytes ≡ (pre ++ frame p) ++ (frames ps ++ post) =
            shape ∙ sym (append_assoc pre (frame p) (frames ps ++ post)) in
          let n = uint32-put_uint32 (length p) f.0 in
          let r1 : read_full bytes (length pre) 4 ≡ got (put_uint32 (length p)) =
            rw shape (read_prefix pre p (frames ps ++ post)) in
          let step = 4 + uint32 (put_uint32 (length p)) in
          let place : length pre + step ≡ length (pre ++ frame p) =
            omega (arith, n, length-append pre (frame p), length-frame p) in
          let (k, le, ih, stop) =
            drop_loop-frames ps (pre ++ frame p) post needed (dropped + step) (entries + 1) f.1 in
          let ih' : drop_loop (length ps) bytes (length pre + step) needed (dropped + step)
                (entries + 1)
              ≡ (dropped + step + length (frames (take k ps)), entries + 1 + k) =
            rw (shape', place) ih in
          let sum : length (frames (take (suc k) (p ∷ ps))) ≡ step + length (frames (take k ps)) =
            omega (arith, n, length-append (frame p) (frames (take k ps)), length-frame p) in
          (
            suc k,
            omega arith,
            ground (arith, r1, ih'),
            elim stop [ inl a ↦ inl (omega arith) | inr b ↦ inr (omega arith) ],
          )
    ]
