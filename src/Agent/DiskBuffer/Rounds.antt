-- ===== src/Agent/DiskBuffer/Rounds.antt =====
-- buffer.go: one round of the loop of `Write`, and rounds in a row.
use blazelog.Base.{
  ℕ, ◌+◌, ◌-◌, ◌%◌, ◌^◌, ◌≤◌, ◌<◌, ◌≡◌, inl, inr, refl, ap, subst, ◌∙◌, sym, Bool, List, [], ◌∷◌,
  ◌++◌, arith, length, take, drop, ltb, append_assoc, append-nil, length-append, Bool-cases, ltb→lt,
  ltb→le, length-drop, eq-nil_of_length, drop-append_left, drop-drop,
}
use blazelog.Agent.DiskBuffer.Bytes.{write, put_uint32, write_end}
use blazelog.Agent.DiskBuffer.{
  DiskBuffer, frame, append_frame, make_room, drop_oldest, compact_now, size,
}
use blazelog.Agent.DiskBuffer.Frames.{frames, length-frame, frames-append}
use blazelog.Agent.DiskBuffer.State.{Ready, size-Holds, drop_oldest-Ready, frames-split, Fit-append}

-- No frame alone is larger than the buffer may be.
abbrev pub Small : ℕ → List (List ℕ) → Type 0
Small max [] = Unit {0}
Small max (p ∷ ps) = (4 + length p ≤ max) × Small max ps

write-frame :
    (bytes p : List ℕ)
    → length p < 2 ^ 32
    → write
        (write (record { bytes = bytes; pos = length bytes }) (put_uint32 (length p % 2 ^ 32)))
        p
      ≡ record { bytes = bytes ++ frame p; pos = length (bytes ++ frame p) }
write-frame bytes p h =
    let same : length p % 2 ^ 32 ≡ length p = omega arith in
    let prefix = put_uint32 (length p) in
    let place : length bytes + length prefix ≡ length (bytes ++ prefix) =
      sym (length-append bytes prefix) in
    let whole : (bytes ++ prefix) ++ p ≡ bytes ++ frame p = append_assoc bytes prefix p in
    let size' : length (bytes ++ prefix) + length p ≡ length (bytes ++ frame p) =
      sym (length-append (bytes ++ prefix) p) ∙ ap length whole in
    rw same (
      ap (λ f. write f p)
        (write_end bytes prefix ∙ ap (λ n. record { bytes = bytes ++ prefix; pos = n }) place)
      ∙ write_end (bytes ++ prefix) p
      ∙ (rw (size', whole) refl))

-- `b'` is `b` after the payloads `qs` were added to its `ps`: the newest are there, in order.
pub record Written (b b' : DiskBuffer) (ps qs : List (List ℕ)) : Type 0 where
  pub gone : ℕ
  pub within : gone ≤ length ps + length qs
  pub kept : Ready b' (drop gone (ps ++ qs))
  pub config : b'.config ≡ b.config
  pub bounded :
      Small b.config.max_size qs → size b ≤ b.config.max_size → size b' ≤ b.config.max_size
  pub lossless :
      size b + length (frames qs) ≤ b.config.max_size
      → (gone ≡ 0) × (b'.read_offset ≡ b.read_offset)

module _ (exceeds : ℕ → ℕ → Bool) where
  append_frame-Ready :
      (b : DiskBuffer) (ps : List (List ℕ)) (p : List ℕ)
      → Ready b ps
      → length p < 2 ^ 32
      → Ready (append_frame exceeds b p) (ps ++ (p ∷ []))
  append_frame-Ready b ps p v h =
      let place : b.file ≡ record { bytes = b.file.bytes; pos = length b.file.bytes } =
        ap (λ n. record { bytes = b.file.bytes; pos = n }) v.at_end in
      let wrote =
        ap (λ f. write (write f (put_uint32 (length p % 2 ^ 32))) p) place
        ∙ write-frame b.file.bytes p h in
      let tail : frames (ps ++ (p ∷ [])) ≡ frames ps ++ frame p =
        frames-append ps (p ∷ []) ∙ ap (◌++◌ (frames ps)) (append-nil (frame p)) in
      record {
        holds = record {
          consumed = v.holds.consumed;
          content =
              ap (λ f. f.bytes) wrote
              ∙ ap (λ bs. bs ++ frame p) v.holds.content
              ∙ append_assoc (frames v.holds.consumed) (frames ps) (frame p)
              ∙ ap (◌++◌ (frames v.holds.consumed)) (sym tail);
          offset = v.holds.offset;
          past = v.holds.past;
          sized =
              omega (arith, v.holds.sized, length-append b.file.bytes (frame p), length-frame p)
              ∙ sym (ap (λ f. length f.bytes) wrote);
          counted = omega (arith, v.holds.counted, length-append ps (p ∷ []));
          fit = Fit-append ps (p ∷ []) v.holds.fit (h, tt);
        };
        at_end = ap (λ f. f.pos) wrote ∙ sym (ap (λ f. length f.bytes) wrote);
      }

  drop_oldest-config : (b : DiskBuffer) (n : ℕ) → (drop_oldest exceeds b n).config ≡ b.config
  unfolding drop_oldest compact_now
  drop_oldest-config b n = ground arith

  one-Ready :
      (b : DiskBuffer) (ps : List (List ℕ)) (k : ℕ) (p : List ℕ)
      → k ≤ length ps
      → Ready b (drop k ps)
      → length p < 2 ^ 32
      → Ready (append_frame exceeds b p) (drop k (ps ++ (p ∷ [])))
  one-Ready b ps k p le v h =
      rw (drop-append_left k ps (p ∷ []) le) (append_frame-Ready b (drop k ps) p v h)

  frames-drop-one :
      (k : ℕ) (ps : List (List ℕ)) (p : List ℕ)
      → k ≤ length ps
      → length (frames (drop k (ps ++ (p ∷ [])))) ≡ length (frames (drop k ps)) + (4 + length p)
  frames-drop-one k ps p le =
      ap (λ xs. length (frames xs)) (drop-append_left k ps (p ∷ []) le)
      ∙ ap length (frames-append (drop k ps) (p ∷ []))
      ∙ length-append (frames (drop k ps)) (frame p ++ [])
      ∙ omega (arith, ap length (append-nil (frame p)) ∙ length-frame p)

  -- One round of the loop.
  pub one-Written :
      (b : DiskBuffer) (ps : List (List ℕ)) (p : List ℕ)
      → Ready b ps
      → length p < 2 ^ 32
      → Written b (append_frame exceeds (make_room exceeds b (4 + length p)) p) ps (p ∷ [])
  unfolding size
  one-Written b ps p v h =
      let here = size-Holds b ps v.holds in
      let alone : length (frames (p ∷ [])) ≡ 4 + length p =
        ap length (append-nil (frame p)) ∙ length-frame p in
      elim (Bool-cases (ltb b.config.max_size (b.size - b.read_offset + (4 + length p)))) [
        | inr fits ↦
            let room = ltb→le b.config.max_size (b.size - b.read_offset + (4 + length p)) fits in
            let w = one-Ready b ps 0 p (omega arith) v h in
            let now = size-Holds _ _ w.holds ∙ frames-drop-one 0 ps p (omega arith) in
            rw fits (record {
              gone = 0;
              within = omega arith;
              kept = w;
              config = refl;
              bounded = λ small le. omega (arith, now, here, room);
              lossless = λ e. (refl, refl);
            })
        | inl over ↦
            let no_room = ltb→lt b.config.max_size (b.size - b.read_offset + (4 + length p)) over in
            let (k, le, v', stop) = drop_oldest-Ready exceeds b ps (4 + length p) v.holds in
            let w = one-Ready (drop_oldest exceeds b (4 + length p)) ps k p le v' h in
            let now = size-Holds _ _ w.holds ∙ frames-drop-one k ps p le in
            let split =
              ap length (frames-split k ps)
              ∙ length-append (frames (take k ps)) (frames (drop k ps)) in
            let all_gone : k ≡ length ps → length (frames (drop k ps)) ≡ 0 = λ e.
              ap (λ xs. length (frames xs))
                (eq-nil_of_length (drop k ps) (omega (arith, length-drop k ps))) in
            rw over (record {
              gone = k;
              within = omega arith;
              kept = w;
              config = drop_oldest-config b (4 + length p);
              bounded = λ small le'. elim stop [
                | inl enough ↦ omega (arith, now, here, split, enough, small.0)
                | inr all ↦ omega (arith, now, all_gone all, small.0)
              ];
              lossless = λ e. absurd (omega (arith, here, alone, no_room));
            })
      ]

  pub none-Written : (b : DiskBuffer) (ps : List (List ℕ)) → Ready b ps → Written b b ps []
  none-Written b ps v = record {
    gone = 0;
    within = omega arith;
    kept = rw (append-nil ps) v;
    config = refl;
    bounded = λ small le. le;
    lossless = λ e. (refl, refl);
  }

  pub more-Written :
      (b b1 b2 : DiskBuffer) (ps : List (List ℕ)) (p : List ℕ) (qs : List (List ℕ))
      → Ready b ps
      → (w : Written b b1 ps (p ∷ [])) → Written b1 b2 (drop w.gone (ps ++ (p ∷ []))) qs
      → Written b b2 ps (p ∷ qs)
  more-Written b b1 b2 ps p qs v w w' =
      let one = length-append ps (p ∷ []) in
      let left = length-drop w.gone (ps ++ (p ∷ [])) in
      let shape : drop w'.gone (drop w.gone (ps ++ (p ∷ [])) ++ qs)
          ≡ drop (w.gone + w'.gone) (ps ++ (p ∷ qs)) =
        ap (drop w'.gone) (
          sym (drop-append_left w.gone (ps ++ (p ∷ [])) qs (omega (arith, w.within, one)))
          ∙ ap (drop w.gone) (append_assoc ps (p ∷ []) qs))
        ∙ drop-drop w'.gone w.gone (ps ++ (p ∷ qs)) in
      let max = ap (λ c. c.max_size) w.config in
      let before = size-Holds b ps v.holds in
      let after = size-Holds b1 _ w.kept.holds in
      let sum = length-append (frame p) (frames qs) in
      let alone : length (frames (p ∷ [])) ≡ length (frame p) = ap length (append-nil (frame p)) in
      record {
        gone = w.gone + w'.gone;
        within = omega (arith, w.within, w'.within, one, left);
        kept = subst (Ready b2) shape w'.kept;
        config = w'.config ∙ w.config;
        bounded = λ small le.
            subst (λ m. size b2 ≤ m) max
              (w'.bounded (subst (λ m. Small m qs) (sym max) small.1)
                (subst (λ m. size b1 ≤ m) (sym max) (w.bounded (small.0, tt) le)));
        lossless = λ fits.
            let none_gone : w.gone ≡ 0 = (w.lossless (omega (arith, fits, sum, alone))).0 in
            let now =
              after
              ∙ ap (λ k. length (frames (drop k (ps ++ (p ∷ []))))) none_gone
              ∙ frames-drop-one 0 ps p (omega arith) in
            let rest = w'.lossless (omega (arith, fits, sum, now, before, length-frame p, max)) in
            (
              omega (arith, none_gone, rest.0),
              rest.1 ∙ (w.lossless (omega (arith, fits, sum, alone))).1,
            );
      }
