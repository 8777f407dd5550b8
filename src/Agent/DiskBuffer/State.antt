-- ===== src/Agent/DiskBuffer/State.antt =====
-- buffer.go: the state of a buffer whose file holds whole entries, under dropping and compacting.
use blazelog.Base.{
  ℕ, zero, suc, ◌+◌, ◌-◌, ◌≤◌, ◌<◌, ◌≡◌, ◌⊎◌, inl, inr, refl, ap, ◌∙◌, sym, Bool, List, [], ◌∷◌,
  ◌++◌, arith, length, take, drop, ltb, ◌==◌, ◌&&◌, append_assoc, append-nil, length-append,
  Bool-cases, length-take, length-drop, take-append-drop, eq-nil_of_length,
}
use blazelog.Agent.DiskBuffer.Bytes.{seek_end, drop-length, seek}
use blazelog.Agent.DiskBuffer.{
  DiskBuffer, chunk_size, copy_chunks, compact_now, drop_loop, drop_oldest, compact_or, size,
}
use blazelog.Agent.DiskBuffer.Frames.{Fit, frames, frames-append, drop_loop-frames}

-- The unread entries are those with the payloads `ps`; `consumed` are those that still stand
-- before them in the file.
pub record Holds (b : DiskBuffer) (ps : List (List ℕ)) : Type 0 where
  pub consumed : List (List ℕ)
  pub content : b.file.bytes ≡ frames consumed ++ frames ps
  pub offset : b.read_offset ≡ length (frames consumed)
  pub past : Fit consumed
  pub sized : b.size ≡ length b.file.bytes
  pub counted : b.count ≡ length ps
  pub fit : Fit ps

-- So, and the file's offset is at its end, where `Write` appends.
pub record Ready (b : DiskBuffer) (ps : List (List ℕ)) : Type 0 where
  pub holds : Holds b ps
  pub at_end : b.file.pos ≡ length b.file.bytes

chunk_size_bounds : (n : ℕ) → 0 < n → (0 < chunk_size n) × (chunk_size n ≤ n)
unfolding chunk_size
chunk_size_bounds n h = (ground arith, ground arith)

copy_chunks_all :
    (rounds : ℕ) (rest : List ℕ) (n : ℕ)
    → n ≡ length rest
    → n ≤ rounds
    → copy_chunks rounds rest n ≡ rest
unfolding copy_chunks
copy_chunks_all zero [] n e h = refl
copy_chunks_all zero (x ∷ rest) n e h = absurd (omega arith)
copy_chunks_all (suc rounds) [] n e h = ground arith
copy_chunks_all (suc rounds) (x ∷ rest) n e h =
    let (pos, le) = chunk_size_bounds n (omega arith) in
    let kept = length-take (chunk_size n) (x ∷ rest) in
    let gone = length-drop (chunk_size n) (x ∷ rest) in
    let ih =
      copy_chunks_all rounds (drop (chunk_size n) (x ∷ rest))
        (n - length (take (chunk_size n) (x ∷ rest))) (omega arith) (omega arith) in
    let whole = take-append-drop (chunk_size n) (x ∷ rest) in ground arith

-- Compacting keeps the unread entries, as the whole content of the file.
pub compact_now-Ready :
    (b : DiskBuffer) (ps : List (List ℕ)) → Holds b ps → Ready (compact_now b) ps
unfolding compact_now
compact_now-Ready b ps v =
    let total : b.size ≡ length (frames v.consumed) + length (frames ps) =
      v.sized ∙ ap length v.content ∙ length-append (frames v.consumed) (frames ps) in
    let left : b.size - b.read_offset ≡ length (frames ps) = omega (arith, total, v.offset) in
    let rest : drop b.read_offset b.file.bytes ≡ frames ps =
      rw (v.offset, v.content) (drop-length (frames v.consumed) (frames ps)) in
    let copied : copy_chunks (length (frames ps)) (frames ps) (length (frames ps)) ≡ frames ps =
      copy_chunks_all (length (frames ps)) (frames ps) _ refl (omega arith) in
    rw (left, rest, copied)
      (elim (Bool-cases (length (frames ps) == 0)) [
        | inl none_left ↦ rw none_left (record {
          holds = record {
            consumed = [];
            content = sym (eq-nil_of_length (frames ps) (ground arith));
            offset = refl;
            past = tt;
            sized = refl;
            counted = v.counted;
            fit = v.fit;
          };
          at_end = refl;
        })
        | inr some_left ↦ rw some_left (record {
          holds = record {
            consumed = [];
            content = refl;
            offset = refl;
            past = tt;
            sized = refl;
            counted = v.counted;
            fit = v.fit;
          };
          at_end = refl;
        })
      ])

pub Fit-drop : (k : ℕ) (ps : List (List ℕ)) → Fit ps → Fit (drop k ps)
Fit-drop zero ps f = f
Fit-drop (suc k) [] f = tt
Fit-drop (suc k) (p ∷ ps) f = Fit-drop k ps f.1

pub Fit-take : (k : ℕ) (ps : List (List ℕ)) → Fit ps → Fit (take k ps)
Fit-take zero ps f = tt
Fit-take (suc k) [] f = tt
Fit-take (suc k) (p ∷ ps) f = (f.0, Fit-take k ps f.1)

pub Fit-append : (ps qs : List (List ℕ)) → Fit ps → Fit qs → Fit (ps ++ qs)
Fit-append [] qs f g = g
Fit-append (p ∷ ps) qs f g = (f.0, Fit-append ps qs f.1 g)

pub frames-split :
    (k : ℕ) (ps : List (List ℕ)) → frames ps ≡ frames (take k ps) ++ frames (drop k ps)
frames-split k ps = sym (ap frames (take-append-drop k ps)) ∙ frames-append (take k ps) (drop k ps)

pub size-Holds : (b : DiskBuffer) (ps : List (List ℕ)) → Holds b ps → size b ≡ length (frames ps)
unfolding size
size-Holds b ps v =
    omega (
      arith,
      v.sized ∙ ap length v.content ∙ length-append (frames v.consumed) (frames ps),
      v.offset,
    )

-- Moving the read offset over the first `k` entries.
pub advance :
    (b : DiskBuffer) (ps : List (List ℕ)) (k bytes entries : ℕ)
    → Holds b ps
    → k ≤ length ps
    → bytes ≡ length (frames (take k ps))
    → entries ≡ k
    → Holds
        (record b { read_offset = b.read_offset + bytes; count = b.count - entries })
        (drop k ps)
advance b ps k bytes entries v le moved same = record {
  consumed = v.consumed ++ take k ps;
  content =
      v.content
      ∙ ap (◌++◌ (frames v.consumed)) (frames-split k ps)
      ∙ sym (append_assoc (frames v.consumed) (frames (take k ps)) (frames (drop k ps)))
      ∙ ap (λ bs. bs ++ frames (drop k ps)) (sym (frames-append v.consumed (take k ps)));
  offset = omega (
    arith,
    v.offset,
    ap length (frames-append v.consumed (take k ps)),
    length-append (frames v.consumed) (frames (take k ps)),
  );
  past = Fit-append v.consumed (take k ps) v.past (Fit-take k ps v.fit);
  sized = v.sized;
  counted = omega (arith, v.counted, length-drop k ps);
  fit = Fit-drop k ps v.fit;
}

-- A seek moves only the file's offset.
pub seek-Holds :
    (b : DiskBuffer) (ps : List (List ℕ)) (offset : ℕ)
    → Holds b ps
    → Holds (record b { file = seek b.file offset }) ps
seek-Holds b ps offset v = record {
  consumed = v.consumed;
  content = v.content;
  offset = v.offset;
  past = v.past;
  sized = v.sized;
  counted = v.counted;
  fit = v.fit;
}

at_end-Ready :
    (b : DiskBuffer) (ps : List (List ℕ))
    → Holds b ps
    → Ready (record b { file = seek_end b.file }) ps
at_end-Ready b ps v = record { holds = seek-Holds b ps (length b.file.bytes) v; at_end = refl }

module _ (exceeds : ℕ → ℕ → Bool) where
  compact_or-Ready :
      (b : DiskBuffer) (ps : List (List ℕ))
      → Holds b ps
      → Ready (compact_or exceeds b (record b { file = seek_end b.file })) ps
  compact_or-Ready b ps v = elim (Bool-cases (ltb 0 b.size && exceeds b.read_offset b.size)) [
    | inl over ↦ rw over (compact_now-Ready b ps v)
    | inr under ↦ rw under (at_end-Ready b ps v)
  ]

  -- Dropping takes the oldest entries away, just enough of them or all.
  pub drop_oldest-Ready :
      (b : DiskBuffer) (ps : List (List ℕ)) (needed : ℕ)
      → Holds b ps
      → (k : ℕ) × (k ≤ length ps)
        × Ready (drop_oldest exceeds b needed) (drop k ps)
        × ((needed ≤ length (frames (take k ps))) ⊎ (k ≡ length ps))
  unfolding drop_oldest
  drop_oldest-Ready b ps needed v =
      let (k, le, ran, stop) = drop_loop-frames ps (frames v.consumed) [] needed 0 0 v.fit in
      let shape : b.file.bytes ≡ frames v.consumed ++ (frames ps ++ []) =
        v.content ∙ ap (◌++◌ (frames v.consumed)) (sym (append-nil (frames ps))) in
      let ran' : drop_loop b.count b.file.bytes b.read_offset needed 0 0
          ≡ (0 + length (frames (take k ps)), 0 + k) =
        rw (v.counted, shape, v.offset) ran in
      let moved =
        advance b ps k (0 + length (frames (take k ps))) (0 + k) v le (omega arith) (omega arith) in
      (
        k,
        le,
        rw ran' (elim (Bool-cases (0 + k == 0)) [
          | inl nothing ↦
              let zero_k : k ≡ 0 = ground arith in rw nothing (rw zero_k (at_end-Ready b ps v))
          | inr some_dropped ↦ rw some_dropped (
              compact_or-Ready
                (record b {
                  read_offset = b.read_offset + (0 + length (frames (take k ps)));
                  count = b.count - (0 + k);
                })
                (drop k ps) moved)
        ]),
        elim stop [ inl enough ↦ inl (omega arith) | inr all ↦ inr all ],
      )
