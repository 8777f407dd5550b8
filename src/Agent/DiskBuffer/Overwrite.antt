-- ===== src/Agent/DiskBuffer/Overwrite.antt =====
-- buffer.go: `Write` right after a `Read` that did not compact. `Read` leaves the file's offset behind
-- the entries that it read, and `Write` does not seek.
use blazelog.Base.{
  ℕ, ◌+◌, ◌-◌, ◌%◌, ◌^◌, ◌≤◌, ◌<◌, ◌≡◌, inl, inr, refl, ap, ◌∙◌, sym, Bool, false, none, some, List,
  [], ◌∷◌, ◌++◌, arith, length, drop, ltb, leb, ◌==◌, ◌&&◌, min, append_assoc, append-nil,
  length-append, Bool-cases, le→ltb,
}
use blazelog.Agent.DiskBuffer.Bytes.{
  File, seek, write, put_uint32, length-put_uint32, drop-length, take-length,
}
use blazelog.Agent.DiskBuffer.{
  DiskBuffer, Codec, frame, read, read_loop, after_reads, write_each, append_frame, after_writes,
  write_entries, size, done,
}
use blazelog.Agent.DiskBuffer.Frames.{frames, Decodes, read_loop-frames}
use blazelog.Agent.DiskBuffer.State.{Holds}
use blazelog.Agent.DiskBuffer.Writes.{open_write}
use blazelog.Agent.DiskBuffer.Reads.{read_loop-Holds, open_read}

write_over :
    (pre old post new : List ℕ)
    → length old ≡ length new
    → write (record { bytes = pre ++ (old ++ post); pos = length pre }) new
      ≡ record { bytes = pre ++ (new ++ post); pos = length pre + length new }
unfolding write
write_over pre old post new e =
    let before = take-length pre (old ++ post) in
    let after : drop (length pre + length new) (pre ++ (old ++ post)) ≡ post =
      ap (λ bs. drop (length pre + length new) bs) (sym (append_assoc pre old post))
      ∙ ap (λ n. drop n ((pre ++ old) ++ post)) (omega (arith, e, length-append pre old))
      ∙ drop-length (pre ++ old) post in
    rw (before, after) refl

-- One frame over another of the same length.
write-frame_over :
    (pre q post q' : List ℕ)
    → length q ≡ length q'
    → length q' < 2 ^ 32
    → write
        (write
          (record { bytes = pre ++ (frame q ++ post); pos = length pre })
          (put_uint32 (length q' % 2 ^ 32)))
        q'
      ≡ record { bytes = pre ++ (frame q' ++ post); pos = length pre + 4 + length q' }
write-frame_over pre q post q' e h =
    let same : length q' % 2 ^ 32 ≡ length q' = omega arith in
    let n = put_uint32 (length q) in
    let n' = put_uint32 (length q') in
    let four = length-put_uint32 (length q') in
    let first : write (record { bytes = pre ++ (frame q ++ post); pos = length pre }) n'
        ≡ record { bytes = pre ++ (n' ++ (q ++ post)); pos = length pre + length n' } =
      ap (λ bs. write (record { bytes = pre ++ bs; pos = length pre }) n') (append_assoc n q post)
      ∙ write_over pre n (q ++ post) n' (length-put_uint32 (length q) ∙ sym four) in
    let place : ◌≡◌ {A = File}
        (record { bytes = pre ++ (n' ++ (q ++ post)); pos = length pre + length n' })
        (record { bytes = (pre ++ n') ++ (q ++ post); pos = length (pre ++ n') }) =
      ap (λ bs. record { bytes = bs; pos = length pre + length n' })
        (sym (append_assoc pre n' (q ++ post)))
      ∙ ap (λ k. record { bytes = (pre ++ n') ++ (q ++ post); pos = k })
          (sym (length-append pre n')) in
    let shape : (pre ++ n') ++ (q' ++ post) ≡ pre ++ (frame q' ++ post) =
      append_assoc pre n' (q' ++ post) ∙ ap (◌++◌ pre) (sym (append_assoc n' q' post)) in
    let last : length (pre ++ n') + length q' ≡ length pre + 4 + length q' =
      omega (arith, length-append pre n', four) in
    rw same (
      ap (λ f. write f q') (first ∙ place)
      ∙ write_over (pre ++ n') q post q' e
      ∙ ap (λ bs. record { bytes = bs; pos = length (pre ++ n') + length q' }) shape
      ∙ ap (λ k. record { bytes = pre ++ (frame q' ++ post); pos = k }) last)

module _ {E : Type 0} (codec : Codec E) (exceeds : ℕ → ℕ → Bool) where
  -- The state that reading one entry leaves, where it does not compact.
  abbrev after_one : DiskBuffer → List ℕ → DiskBuffer
  after_one b p = record b {
    file = seek b.file (b.read_offset + length (frame p));
    read_offset = b.read_offset + length (frame p);
    count = b.count - 1;
  }

  read_one :
      (b : DiskBuffer) (p : List ℕ) (ps : List (List ℕ)) (e : E) (es : List E)
      → Holds b (p ∷ ps)
      → b.closed ≡ false
      → Decodes codec (p ∷ ps) (e ∷ es)
      → exceeds (b.read_offset + length (frame p)) b.size ≡ false
      → read exceeds codec b 1 ≡ (after_one b p, e ∷ [], none)
  read_one b p ps e es v alive d stay =
      let some_left : (b.count == 0) ≡ false = ground (arith, v.counted) in
      let one : min 1 b.count ≡ 1 = omega (arith, v.counted) in
      let alone : length (frames (p ∷ [])) ≡ length (frame p) = ap length (append-nil (frame p)) in
      let loop = read_loop-Holds codec b (p ∷ ps) (e ∷ es) 1 v d (omega arith) in
      let stay' : (ltb 0 b.size && exceeds (b.read_offset + length (frame p)) b.size) ≡ false =
        ground (arith, stay) in
      open_read codec exceeds b 1 alive ∙ rw (some_left, one, loop, alone, stay') refl

  -- What a buffer is for its next `Read`: behind `pre` stands the frame of `q`.
  record Next (b : DiskBuffer) (q : List ℕ) : Type 0 where
    pub pre : List ℕ
    pub post : List ℕ
    pub content : b.file.bytes ≡ pre ++ (frame q ++ post)
    pub offset : b.read_offset ≡ length pre
    pub some_left : 0 < b.count
    pub alive : b.closed ≡ false

  appended-Next :
      (b : DiskBuffer) (p q : List ℕ) (ps : List (List ℕ)) (q' : List ℕ)
      → Holds b (p ∷ q ∷ ps)
      → b.closed ≡ false
      → length q ≡ length q'
      → length q' < 2 ^ 32
      → Next (append_frame exceeds (after_one b p) q') q'
  appended-Next b p q ps q' v alive e h =
      let pre = frames v.consumed ++ frame p in
      let shape : b.file.bytes ≡ pre ++ (frame q ++ frames ps) =
        v.content ∙ sym (append_assoc (frames v.consumed) (frame p) (frame q ++ frames ps)) in
      let place : b.read_offset + length (frame p) ≡ length pre =
        omega (arith, v.offset, length-append (frames v.consumed) (frame p)) in
      let wrote = write-frame_over pre q (frames ps) q' e h in
      record {
        pre = pre;
        post = frames ps;
        content = rw (shape, place) (ap (λ f. f.bytes) wrote);
        offset = place;
        some_left = omega arith;
        alive = alive;
      }

  write_one :
      (b : DiskBuffer) (p q : List ℕ) (ps : List (List ℕ)) (e' : E) (q' : List ℕ)
      → Holds b (p ∷ q ∷ ps)
      → b.closed ≡ false
      → codec.marshal e' ≡ some q'
      → length q ≡ length q'
      → length q' < 2 ^ 32
      → size b + (4 + length q') ≤ b.config.max_size
      → (b' : DiskBuffer) × (write_entries exceeds codec (after_one b p) (e' ∷ []) ≡ (b', none))
        × Next b' q'
  unfolding write_each size
  write_one b p q ps e' q' v alive enc e h room =
      let a = after_one b p in
      let b1 = append_frame exceeds a q' in
      let next = appended-Next b p q ps q' v alive e h in
      let fits : ltb b.config.max_size
            (b.size - (b.read_offset + length (frame p)) + (4 + length q'))
          ≡ false =
        le→ltb _ _ (omega arith) in
      let wrote : write_each exceeds codec a (e' ∷ []) ≡ (b1, none) =
        rw (write_each, enc, fits) refl in
      let start =
        open_write exceeds codec a (e' ∷ []) alive ∙ ap (after_writes exceeds codec) wrote in
      elim (Bool-cases (leb b1.config.sync_every b1.writes)) [
        | inl due ↦ (
          record b1 { writes = 0 },
          start ∙ rw due refl,
          record {
            pre = next.pre;
            post = next.post;
            content = next.content;
            offset = next.offset;
            some_left = next.some_left;
            alive = next.alive;
          },
        )
        | inr early ↦ (b1, start ∙ rw early refl, next)
      ]

  read-Next :
      (b : DiskBuffer) (q : List ℕ) (e : E)
      → Next b q
      → length q < 2 ^ 32
      → codec.unmarshal q ≡ some e
      → (b' : DiskBuffer) × (read exceeds codec b 1 ≡ (b', e ∷ [], none))
  read-Next b q e v h d =
      let some_left : (b.count == 0) ≡ false = ground (arith, v.some_left) in
      let one : min 1 b.count ≡ 1 = omega (arith, v.some_left) in
      let shape : b.file.bytes ≡ v.pre ++ (frames (q ∷ []) ++ v.post) =
        v.content ∙ ap (λ bs. v.pre ++ (bs ++ v.post)) (sym (append-nil (frame q))) in
      let loop = read_loop-frames codec (q ∷ []) (e ∷ []) v.pre v.post (h, tt) (d, tt) in
      let loop' : read_loop codec (min 1 b.count) b.file.bytes b.read_offset
          ≡ done (e ∷ []) (length (frames (q ∷ []))) (length v.pre + length (frames (q ∷ []))) =
        rw (one, shape, v.offset) loop in
      let after =
        after_reads exceeds codec b
          (done (e ∷ []) (length (frames (q ∷ []))) (length v.pre + length (frames (q ∷ [])))) in
      let ran : read exceeds codec b 1 ≡ after =
        open_read codec exceeds b 1 v.alive ∙ rw (some_left, loop') refl in
      (after.0, ran)

  -- Where a `Read` of one entry leaves further unread entries and does not compact, a `Write` of an
  -- entry as long as the next unread one is put over that one in the file: the next `Read` returns
  -- the new entry, and the one that was next is lost.
  pub read-write-read_overwrites :
      (b : DiskBuffer) (p q : List ℕ) (ps : List (List ℕ)) (e : E) (es : List E) (e' : E)
      (q' : List ℕ)
      → Holds b (p ∷ q ∷ ps)
      → b.closed ≡ false
      → Decodes codec (p ∷ q ∷ ps) (e ∷ es)
      → exceeds (b.read_offset + length (frame p)) b.size ≡ false
      → codec.marshal e' ≡ some q'
      → codec.unmarshal q' ≡ some e'
      → length q ≡ length q'
      → length q' < 2 ^ 32
      → size b + (4 + length q') ≤ b.config.max_size
      → (b' : DiskBuffer) × (read exceeds codec
            (write_entries exceeds codec (read exceeds codec b 1).0 (e' ∷ [])).0
            1
          ≡ (b', e' ∷ [], none))
  read-write-read_overwrites b p q ps e es e' q' v alive d stay enc dec same h room =
      let first = read_one b p (q ∷ ps) e es v alive d stay in
      let (b1, wrote, next) = write_one b p q ps e' q' v alive enc same h room in
      let (b2, again) = read-Next b1 q' e' next h dec in (b2, rw (first, wrote) again)
