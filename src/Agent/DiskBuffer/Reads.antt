-- ===== src/Agent/DiskBuffer/Reads.antt =====
-- buffer.go: what `Read` returns and leaves, and what a buffer holds that is opened again.
use blazelog.Base.{
  ℕ, zero, suc, ◌+◌, ◌≤◌, ◌≡◌, inl, inr, refl, ap, subst, ◌∙◌, Bool, true, false, none, some, List,
  [], ◌∷◌, ◌++◌, arith, length, take, drop, ltb, ◌==◌, ◌&&◌, min, if◌then◌else◌, Bool-cases,
  length-take, drop-nil,
}
use blazelog.Agent.DiskBuffer.Bytes.{seek}
use blazelog.Agent.DiskBuffer.{
  DiskBuffer, Codec, done, buffer_closed, read_loop, after_reads, read, compact_or,
}
use blazelog.Agent.DiskBuffer.Frames.{frames, Decodes, read_loop-frames}
use blazelog.Agent.DiskBuffer.State.{
  Holds, frames-split, Fit-take, advance, seek-Holds, compact_now-Ready,
}

min_zero : (n : ℕ) → min n 0 ≡ 0
min_zero n = omega arith

zero_min : (n : ℕ) → min 0 n ≡ 0
zero_min n = omega arith

min-suc : (m n : ℕ) → min (suc m) (suc n) ≡ suc (min m n)
min-suc m n = omega arith

module _ {A : Type 0} where
  take-nil : (n : ℕ) → ◌≡◌ {A = List A} (take n []) []
  take-nil zero = refl
  take-nil (suc n) = refl

  take-min : (n : ℕ) (xs : List A) → take (min n (length xs)) xs ≡ take n xs
  take-min zero xs = rw (zero_min (length xs)) refl
  take-min (suc n) [] = rw (min_zero (suc n)) refl
  take-min (suc n) (x ∷ xs) = rw (min-suc n (length xs)) (ap (◌∷◌ x) (take-min n xs))

  drop-min : (n : ℕ) (xs : List A) → drop (min n (length xs)) xs ≡ drop n xs
  drop-min zero xs = rw (zero_min (length xs)) refl
  drop-min (suc n) [] = rw (min_zero (suc n)) refl
  drop-min (suc n) (x ∷ xs) = rw (min-suc n (length xs)) (drop-min n xs)

module _ {E : Type 0} (codec : Codec E) where
  Decodes-take :
      (k : ℕ) (ps : List (List ℕ)) (es : List E)
      → Decodes codec ps es
      → Decodes codec (take k ps) (take k es)
  Decodes-take zero ps es d = tt
  Decodes-take (suc k) [] [] d = tt
  Decodes-take (suc k) [] (e ∷ es) d = absurd d
  Decodes-take (suc k) (p ∷ ps) [] d = absurd d
  Decodes-take (suc k) (p ∷ ps) (e ∷ es) d = (d.0, Decodes-take k ps es d.1)

  Decodes-length : (ps : List (List ℕ)) (es : List E) → Decodes codec ps es → length ps ≡ length es
  Decodes-length [] [] d = refl
  Decodes-length [] (e ∷ es) d = absurd d
  Decodes-length (p ∷ ps) [] d = absurd d
  Decodes-length (p ∷ ps) (e ∷ es) d = ap suc (Decodes-length ps es d.1)

  -- The loop over the first `k` of the unread entries.
  pub read_loop-Holds :
      (b : DiskBuffer) (ps : List (List ℕ)) (es : List E) (k : ℕ)
      → Holds b ps
      → Decodes codec ps es
      → k ≤ length ps
      → read_loop codec k b.file.bytes b.read_offset
        ≡ done
            (take k es)
            (length (frames (take k ps)))
            (b.read_offset + length (frames (take k ps)))
  read_loop-Holds b ps es k v d le =
      let shape : b.file.bytes ≡ frames v.consumed ++ (frames (take k ps) ++ frames (drop k ps)) =
        v.content ∙ ap (◌++◌ (frames v.consumed)) (frames-split k ps) in
      let same : length (take k ps) ≡ k = omega (arith, length-take k ps) in
      let ran =
        read_loop-frames codec (take k ps) (take k es) (frames v.consumed) (frames (drop k ps))
          (Fit-take k ps v.fit) (Decodes-take k ps es d) in
      rw (shape, v.offset)
        (subst
          (λ n.
            read_loop codec n (frames v.consumed ++ (frames (take k ps) ++ frames (drop k ps)))
              (length (frames v.consumed))
            ≡ done (take k es) (length (frames (take k ps)))
                (length (frames v.consumed) + length (frames (take k ps))))
          same ran)

  module _ (exceeds : ℕ → ℕ → Bool) where
    compacted-Holds :
        (b : DiskBuffer) (ps : List (List ℕ)) → Holds b ps → Holds (compact_or exceeds b b) ps
    compacted-Holds b ps v = elim (Bool-cases (ltb 0 b.size && exceeds b.read_offset b.size)) [
      | inl over ↦ rw over (compact_now-Ready b ps v).holds
      | inr under ↦ rw under v
    ]

    after_reads-Holds :
        (b : DiskBuffer) (ps : List (List ℕ)) (k pos : ℕ) (es : List E)
        → Holds b ps
        → k ≤ length ps
        → length es ≡ k
        → (b' : DiskBuffer) × (after_reads exceeds codec b
              (done es (length (frames (take k ps))) pos)
            ≡ (b', es, none))
          × Holds b' (drop k ps)
    after_reads-Holds b ps k pos [] v le e = (
      record b { file = seek b.file pos },
      refl,
      subst (λ n. Holds (record b { file = seek b.file pos }) (drop n ps)) e
          (seek-Holds b ps pos v),
    )
    after_reads-Holds b ps k pos (x ∷ es) v le e = (
      _,
      refl,
      compacted-Holds _ (drop k ps) (
          seek-Holds _ (drop k ps) pos
            (advance b ps k (length (frames (take k ps))) (length (x ∷ es)) v le refl e)),
    )

    pub open_read :
        (b : DiskBuffer) (n : ℕ)
        → b.closed ≡ false
        → read exceeds codec b n ≡ (
            if b.count == 0
            then (b, [], none)
            else after_reads exceeds codec b
                (read_loop codec (min n b.count) b.file.bytes b.read_offset))
    unfolding read
    open_read b n alive =
        ap
          (λ c.
            if c
            then (b, [], some buffer_closed)
            else if b.count == 0
            then (b, [], none)
            else after_reads exceeds codec b
                (read_loop codec (min n b.count) b.file.bytes b.read_offset))
          alive

    -- When the file of an open buffer consists of whole entries, its count and its size agree with the
    -- file, and every unread payload unmarshals, `Read(n)` returns the first `n` unread entries in
    -- order, all of them where there are fewer, and no error; the entries after them stay.
    pub read-Holds :
        (b : DiskBuffer) (ps : List (List ℕ)) (es : List E) (n : ℕ)
        → Holds b ps
        → b.closed ≡ false
        → Decodes codec ps es
        → (b' : DiskBuffer) × (read exceeds codec b n ≡ (b', take n es, none))
          × Holds b' (drop n ps)
    read-Holds b [] [] n v alive d =
        let empty : (b.count == 0) ≡ true = ground (arith, v.counted) in
        (
          b,
          open_read b n alive ∙ rw (empty, take-nil {A = E} n) refl,
          rw (drop-nil {A = List ℕ} n) v,
        )
    read-Holds b [] (e ∷ es) n v alive d = absurd d
    read-Holds b (p ∷ ps) es n v alive d =
        let some_left : (b.count == 0) ≡ false = ground (arith, v.counted) in
        let k = min n (length (p ∷ ps)) in
        let same = Decodes-length (p ∷ ps) es d in
        let loop = read_loop-Holds b (p ∷ ps) es k v d (omega arith) in
        let (b', ran, left) =
          after_reads-Holds b (p ∷ ps) k (b.read_offset + length (frames (take k (p ∷ ps))))
            (take k es) v (omega arith) (omega (arith, length-take k es)) in
        let got_first : take k es ≡ take n es = ap (λ m. take (min n m) es) same ∙ take-min n es in
        let loop' : read_loop codec (min n b.count) b.file.bytes b.read_offset
            ≡ done (take k es) (length (frames (take k (p ∷ ps))))
                (b.read_offset + length (frames (take k (p ∷ ps)))) =
          rw v.counted loop in
        (
          b',
          open_read b n alive ∙ rw (some_left, loop') ran ∙ ap (λ xs. (b', xs, none)) got_first,
          subst (Holds b') (drop-min n (p ∷ ps)) left,
        )
