-- ===== src/Agent/DiskBuffer/Torn.antt =====
-- buffer.go: a file whose last entry was cut off, as a crash between the two writes of `Write` leaves
-- it.
use blazelog.Base.{
  ℕ, zero, suc, ◌+◌, ◌^◌, ◌≤◌, ◌<◌, ◌≡◌, ◌⊎◌, inl, inr, refl, ap, ◌∙◌, sym, Bool, false, some, List,
  [], ◌∷◌, ◌++◌, arith, length, leb, ◌==◌, min, append_assoc, length-append, Bool-cases,
}
use blazelog.Agent.DiskBuffer.Bytes.{
  seek, got, eof, short, read_full, put_uint32, uint32, uint32-put_uint32, length-put_uint32,
  read_full_part,
}
use blazelog.Agent.DiskBuffer.{
  DiskBuffer, Codec, failed, read_data_failed, frame, read_loop, count_loop, count_entries, read,
}
use blazelog.Agent.DiskBuffer.Frames.{Fit, frames, length-frame, Decodes, read_prefix, read_payload}
use blazelog.Agent.DiskBuffer.Reads.{open_read}
use blazelog.Agent.DiskBuffer.Reopen.{length_le_frames}

read_full_cut :
    (pre part : List ℕ) (n : ℕ)
    → length part < n
    → (read_full (pre ++ part) (length pre) n ≡ eof)
      ⊎ (read_full (pre ++ part) (length pre) n ≡ short)
unfolding read_full
read_full_cut pre part n h =
    let sum = length-append pre part in
    elim (Bool-cases (leb (length (pre ++ part)) (length pre))) [
      | inl at_end ↦ inl (ground arith)
      | inr some_left ↦ inr (ground arith)
    ]

read_full_behind : (bytes : List ℕ) (pos : ℕ) → length bytes ≤ pos → read_full bytes pos 4 ≡ eof
unfolding read_full
read_full_behind bytes pos h = ground arith

-- The bytes of an entry of `n` bytes of which only `part` was written.
abbrev pub torn : ℕ → List ℕ → List ℕ
torn n part = put_uint32 n ++ part

torn_prefix :
    (pre part : List ℕ) (n : ℕ) → read_full (pre ++ torn n part) (length pre) 4 ≡ got (put_uint32 n)
torn_prefix pre part n = read_full_part pre (put_uint32 n) part 4 (sym (length-put_uint32 n))

torn_place : (pre : List ℕ) (n : ℕ) → length pre + 4 ≡ length (pre ++ put_uint32 n)
torn_place pre n = omega (arith, length-append pre (put_uint32 n), length-put_uint32 n)

module _ {E : Type 0} (codec : Codec E) where
  read_loop-torn :
      (k : ℕ) (pre part : List ℕ) (n : ℕ)
      → n < 2 ^ 32
      → length part < n
      → (pos : ℕ) × (read_loop codec (suc k) (pre ++ torn n part) (length pre)
          ≡ failed read_data_failed pos)
  unfolding read_loop
  read_loop-torn k pre part n fits cut =
      let value = uint32-put_uint32 n fits in
      let shape : pre ++ torn n part ≡ (pre ++ put_uint32 n) ++ part =
        sym (append_assoc pre (put_uint32 n) part) in
      let first = torn_prefix pre part n in
      elim (read_full_cut (pre ++ put_uint32 n) part n cut) [
        | inl ended ↦
            let second : read_full (pre ++ torn n part) (length pre + 4) (uint32 (put_uint32 n))
                ≡ eof =
              rw (value, shape, torn_place pre n) ended in
            (length pre + 4, rw (read_loop, first, second) refl)
        | inr shorter ↦
            let second : read_full (pre ++ torn n part) (length pre + 4) (uint32 (put_uint32 n))
                ≡ short =
              rw (value, shape, torn_place pre n) shorter in
            (length (pre ++ torn n part), rw (read_loop, first, second) refl)
      ]

  -- Whole entries before the torn one are read, and then the loop fails.
  read_loop-frames-torn :
      (ps : List (List ℕ)) (es : List E) (k : ℕ) (pre part : List ℕ) (n : ℕ)
      → Fit ps
      → Decodes codec ps es
      → n < 2 ^ 32
      → length part < n
      → (pos : ℕ) × (read_loop codec
            (length ps + suc k)
            (pre ++ (frames ps ++ torn n part))
            (length pre)
          ≡ failed read_data_failed pos)
  unfolding read_loop
  read_loop-frames-torn [] [] k pre part n f d fits cut =
      let rounds : 0 + suc k ≡ suc k = omega arith in
      rw rounds (read_loop-torn k pre part n fits cut)
  read_loop-frames-torn [] (e ∷ es) k pre part n f d fits cut = absurd d
  read_loop-frames-torn (p ∷ ps) [] k pre part n f d fits cut = absurd d
  read_loop-frames-torn (p ∷ ps) (e ∷ es) k pre part n f d fits cut =
      let bytes = pre ++ (frames (p ∷ ps) ++ torn n part) in
      let shape : bytes ≡ pre ++ (frame p ++ (frames ps ++ torn n part)) =
        ap (◌++◌ pre) (append_assoc (frame p) (frames ps) (torn n part)) in
      let shape' : bytes ≡ (pre ++ frame p) ++ (frames ps ++ torn n part) =
        shape ∙ sym (append_assoc pre (frame p) (frames ps ++ torn n part)) in
      let value = uint32-put_uint32 (length p) f.0 in
      let r1 : read_full bytes (length pre) 4 ≡ got (put_uint32 (length p)) =
        rw shape (read_prefix pre p (frames ps ++ torn n part)) in
      let r2 : read_full bytes (length pre + 4) (uint32 (put_uint32 (length p))) ≡ got p =
        rw shape (read_payload pre p (frames ps ++ torn n part) _ value) in
      let place : length pre + 4 + uint32 (put_uint32 (length p)) ≡ length (pre ++ frame p) =
        omega (arith, value, length-append pre (frame p), length-frame p) in
      let rounds : length (p ∷ ps) + suc k ≡ suc (length ps + suc k) = omega arith in
      let (pos, ih) = read_loop-frames-torn ps es k (pre ++ frame p) part n f.1 d.1 fits cut in
      let ih' : read_loop codec (length ps + suc k) bytes
            (length pre + 4 + uint32 (put_uint32 (length p)))
          ≡ failed read_data_failed pos =
        rw (shape', place) ih in
      (pos, rw (rounds, read_loop, r1, r2, d.0, ih') refl)

  -- On a file of whole entries with a torn one behind them, `Read` of more entries than are whole
  -- returns an error and none of them, and moves neither the read offset nor the count: the next
  -- such `Read` fails as well.
  pub read-torn :
      (exceeds : ℕ → ℕ → Bool) (b : DiskBuffer) (ps : List (List ℕ)) (es : List E) (m n : ℕ)
      (part : List ℕ)
      → b.file.bytes ≡ frames ps ++ torn n part
      → b.read_offset ≡ 0
      → b.count ≡ length ps + 1
      → b.closed ≡ false
      → Fit ps
      → Decodes codec ps es
      → n < 2 ^ 32
      → length part < n
      → length ps < m
      → (pos : ℕ) × (read exceeds codec b m
          ≡ (record b { file = seek b.file pos }, [], some read_data_failed))
  read-torn exceeds b ps es m n part content offset counted alive f d fits cut more =
      let some_left : (b.count == 0) ≡ false = ground (arith, counted) in
      let rounds : min m b.count ≡ length ps + suc 0 = omega (arith, counted) in
      let (pos, ran) = read_loop-frames-torn ps es 0 [] part n f d fits cut in
      let loop : read_loop codec (min m b.count) b.file.bytes b.read_offset
          ≡ failed read_data_failed pos =
        rw (rounds, content, offset) ran in
      (pos, open_read codec exceeds b m alive ∙ rw (some_left, loop) refl)

count_loop-torn :
    (ps : List (List ℕ)) (pre part : List ℕ) (rounds count n : ℕ)
    → Fit ps
    → n < 2 ^ 32
    → length part < n
    → length ps + 1 < rounds
    → count_loop rounds (pre ++ (frames ps ++ torn n part)) (length pre) count
      ≡ some (count + length ps + 1)
unfolding count_loop
count_loop-torn ps pre part zero count n f fits cut h = absurd (omega arith)
count_loop-torn [] pre part (suc zero) count n f fits cut h = absurd (omega arith)
count_loop-torn [] pre part (suc (suc rounds)) count n f fits cut h =
    let value = uint32-put_uint32 n fits in
    let sum = length-append pre (torn n part) in
    let sum' = length-append (put_uint32 n) part in
    let four = length-put_uint32 n in
    let behind : read_full (pre ++ torn n part) (length pre + 4 + uint32 (put_uint32 n)) 4 ≡ eof =
      read_full_behind (pre ++ torn n part) _ (omega (arith, value, sum, sum', four)) in
    rw (count_loop, torn_prefix pre part n, count_loop, behind) (ap some (omega arith))
count_loop-torn (p ∷ ps) pre part (suc rounds) count n f fits cut h =
    let value = uint32-put_uint32 (length p) f.0 in
    let bytes = pre ++ (frames (p ∷ ps) ++ torn n part) in
    let shape : bytes ≡ pre ++ (frame p ++ (frames ps ++ torn n part)) =
      ap (◌++◌ pre) (append_assoc (frame p) (frames ps) (torn n part)) in
    let shape' : bytes ≡ (pre ++ frame p) ++ (frames ps ++ torn n part) =
      shape ∙ sym (append_assoc pre (frame p) (frames ps ++ torn n part)) in
    let first : read_full bytes (length pre) 4 ≡ got (put_uint32 (length p)) =
      rw shape (read_prefix pre p (frames ps ++ torn n part)) in
    let place : length pre + 4 + uint32 (put_uint32 (length p)) ≡ length (pre ++ frame p) =
      omega (arith, value, length-append pre (frame p), length-frame p) in
    let ih : count_loop rounds bytes (length pre + 4 + uint32 (put_uint32 (length p))) (count + 1)
        ≡ some (count + 1 + length ps + 1) =
      rw (place, shape')
        (count_loop-torn ps (pre ++ frame p) part rounds (count + 1) n f.1 fits cut
          (omega arith)) in
    rw (count_loop, first, ih) (ap some (omega arith))

-- A file of whole entries with a torn one behind them is not taken for a corrupted one: the torn
-- entry is counted with the others.
count_entries-torn :
    (ps : List (List ℕ)) (n : ℕ) (part : List ℕ)
    → Fit ps
    → n < 2 ^ 32
    → length part < n
    → count_entries (frames ps ++ torn n part) ≡ some (length ps + 1)
unfolding count_entries
count_entries-torn ps n part f fits cut =
    count_loop-torn ps [] part (suc (length (frames ps ++ torn n part))) 0 n f fits cut (
      omega (
        arith,
        length_le_frames ps,
        length-append (frames ps) (torn n part),
        length-append (put_uint32 n) part,
        length-put_uint32 n,
      ))
    ∙ ap some (omega arith)
