-- ===== src/Agent/DiskBuffer/Writes.antt =====
-- buffer.go: what `Write` leaves in the buffer, and how much.
use blazelog.Base.{
  ℕ, ◌+◌, ◌≤◌, ◌<◌, ◌≡◌, ◌⊎◌, ltb, ltb→lt, ltb→le, inl, inr, refl, ap, subst, ◌∙◌, Bool, false,
  none, some, List, [], ◌∷◌, ◌++◌, length, drop, leb, if◌then◌else◌, Bool-cases,
}
use blazelog.Agent.DiskBuffer.{
  DiskBuffer, Codec, append_frame, make_room, write_each, after_writes, write_entries, size,
  buffer_closed,
}
use blazelog.Agent.DiskBuffer.Frames.{Fit, frames}
use blazelog.Agent.DiskBuffer.State.{Ready}
use blazelog.Agent.DiskBuffer.Rounds.{Small, Written, one-Written, none-Written, more-Written}

module _ (exceeds : ℕ → ℕ → Bool) where
  module _ {E : Type 0} (codec : Codec E) where
    -- The entries are marshalled to these payloads.
    abbrev pub Encodes : List E → List (List ℕ) → Type 0
    Encodes [] [] = Unit {0}
    Encodes [] (q ∷ qs) = ⊥
    Encodes (e ∷ es) [] = ⊥
    Encodes (e ∷ es) (q ∷ qs) = (codec.marshal e ≡ some q) × Encodes es qs

    write_each-Written :
        (b : DiskBuffer) (ps : List (List ℕ)) (es : List E) (qs : List (List ℕ))
        → Ready b ps
        → Encodes es qs
        → Fit qs
        → (b' : DiskBuffer) × (write_each exceeds codec b es ≡ (b', none)) × Written b b' ps qs
    unfolding write_each
    write_each-Written b ps [] [] v enc f = (b, refl, none-Written exceeds b ps v)
    write_each-Written b ps [] (q ∷ qs) v enc f = absurd enc
    write_each-Written b ps (e ∷ es) [] v enc f = absurd enc
    write_each-Written b ps (e ∷ es) (q ∷ qs) v enc f =
        let b1 = append_frame exceeds (make_room exceeds b (4 + length q)) q in
        let w = one-Written exceeds b ps q v f.0 in
        let (b2, ran, w') =
          write_each-Written b1 (drop w.gone (ps ++ (q ∷ []))) es qs w.kept enc.1 f.1 in
        (b2, rw (write_each, enc.0) ran, more-Written exceeds b b1 b2 ps q qs v w w')

    reset_writes-Written :
        (b b' : DiskBuffer) (ps qs : List (List ℕ))
        → Written b b' ps qs
        → Written b (record b' { writes = 0 }) ps qs
    unfolding size
    reset_writes-Written b b' ps qs w = record {
      gone = w.gone;
      within = w.within;
      kept = record {
        holds = record {
          consumed = w.kept.holds.consumed;
          content = w.kept.holds.content;
          offset = w.kept.holds.offset;
          past = w.kept.holds.past;
          sized = w.kept.holds.sized;
          counted = w.kept.holds.counted;
          fit = w.kept.holds.fit;
        };
        at_end = w.kept.at_end;
      };
      config = w.config;
      bounded = w.bounded;
      lossless = w.lossless;
    }

    pub open_write :
        (b : DiskBuffer) (es : List E)
        → b.closed ≡ false
        → write_entries exceeds codec b es
          ≡ after_writes exceeds codec (write_each exceeds codec b es)
    unfolding write_entries
    open_write b es alive =
        ap
          (λ c.
            if c
            then (b, some buffer_closed)
            else after_writes exceeds codec (write_each exceeds codec b es))
          alive

    write_entries-Written :
        (b : DiskBuffer) (ps : List (List ℕ)) (es : List E) (qs : List (List ℕ))
        → Ready b ps
        → b.closed ≡ false
        → Encodes es qs
        → Fit qs
        → (b' : DiskBuffer) × (write_entries exceeds codec b es ≡ (b', none)) × Written b b' ps qs
    write_entries-Written b ps es qs v alive enc f =
        let (b', ran, w) = write_each-Written b ps es qs v enc f in
        let wrote = open_write b es alive ∙ ap (after_writes exceeds codec) ran in
        elim (Bool-cases (leb b'.config.sync_every b'.writes)) [
          | inl due ↦
              (record b' { writes = 0 }, wrote ∙ rw due refl, reset_writes-Written b b' ps qs w)
          | inr early ↦ (b', wrote ∙ rw early refl, w)
        ]

    -- When the file of an open buffer consists of whole entries, its count and its size agree with the
    -- file, and the file's offset is at its end, `Write` succeeds for entries that marshal and leaves
    -- the newest of the old and new entries, in order, with the offset at the end again. Some number of
    -- the oldest, at most all of them, is dropped, and none where the old and the new entries
    -- together are within `MaxSize`.
    pub write_entries-Ready :
        (b : DiskBuffer) (ps : List (List ℕ)) (es : List E) (qs : List (List ℕ))
        → Ready b ps
        → b.closed ≡ false
        → Encodes es qs
        → Fit qs
        → (b' : DiskBuffer) × (k : ℕ) × (write_entries exceeds codec b es ≡ (b', none))
          × (k ≤ length ps + length qs)
          × ((k ≡ 0) ⊎ (b.config.max_size < size b + length (frames qs)))
          × Ready b' (drop k (ps ++ qs))
    write_entries-Ready b ps es qs v alive enc f =
        let (b', ran, w) = write_entries-Written b ps es qs v alive enc f in
        let few : (w.gone ≡ 0) ⊎ (b.config.max_size < size b + length (frames qs)) =
          elim (Bool-cases (ltb b.config.max_size (size b + length (frames qs)))) [
            | inl full ↦ inr (ltb→lt _ _ full)
            | inr fits ↦ inl (w.lossless (ltb→le _ _ fits)).0
          ] in
        (b', w.gone, ran, w.within, few, w.kept)

    -- When the file of an open buffer consists of whole entries, its count and its size agree with the
    -- file, the file's offset is at its end, the new entries marshal, none of them is larger than
    -- `MaxSize`, and the size of the buffer is within `MaxSize`, then so it is after `Write`.
    pub write_entries_bounded :
        (b : DiskBuffer) (ps : List (List ℕ)) (es : List E) (qs : List (List ℕ))
        → Ready b ps
        → b.closed ≡ false
        → Encodes es qs
        → Fit qs
        → Small b.config.max_size qs
        → size b ≤ b.config.max_size
        → size (write_entries exceeds codec b es).0 ≤ b.config.max_size
    write_entries_bounded b ps es qs v alive enc f small le =
        let (b', ran, w) = write_entries-Written b ps es qs v alive enc f in
        rw ran (w.bounded small le)

    -- Where the new entries fit beside the old ones, `Write` drops nothing and
    -- leaves the read offset.
    pub write_entries_lossless :
        (b : DiskBuffer) (ps : List (List ℕ)) (es : List E) (qs : List (List ℕ))
        → Ready b ps
        → b.closed ≡ false
        → Encodes es qs
        → Fit qs
        → size b + length (frames qs) ≤ b.config.max_size
        → Ready (write_entries exceeds codec b es).0 (ps ++ qs)
          × ((write_entries exceeds codec b es).0.read_offset ≡ b.read_offset)
    write_entries_lossless b ps es qs v alive enc f fits =
        let (b', ran, w) = write_entries-Written b ps es qs v alive enc f in
        rw ran (
          subst (λ k. Ready b' (drop k (ps ++ qs))) (w.lossless fits).0 w.kept,
          (w.lossless fits).1,
        )
