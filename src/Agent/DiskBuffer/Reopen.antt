-- ===== src/Agent/DiskBuffer/Reopen.antt =====
-- buffer.go: what a buffer holds that is opened on the file of an earlier one.
use blazelog.Base.{
  ℕ, zero, suc, ◌+◌, ◌≤◌, ◌<◌, ◌≡◌, refl, ap, ◌∙◌, sym, Bool, false, none, some, List, [], ◌∷◌,
  ◌++◌, arith, length, take, append_assoc, append-nil, length-append,
}
use blazelog.Agent.DiskBuffer.Bytes.{put_uint32, uint32, uint32-put_uint32, read_full_end}
use blazelog.Agent.DiskBuffer.{
  DiskBuffer, Config, Codec, frame, count_loop, count_entries, new_disk_buffer, default_config,
  open_counted, read, write_entries, size,
}
use blazelog.Agent.DiskBuffer.Frames.{
  Fit, frames, length-frame, frames-append, Decodes, read_prefix,
}
use blazelog.Agent.DiskBuffer.State.{Holds, Ready, Fit-append}
use blazelog.Agent.DiskBuffer.Writes.{Encodes, write_entries_lossless}
use blazelog.Agent.DiskBuffer.Reads.{read-Holds}

count_loop-frames :
    (ps : List (List ℕ)) (pre : List ℕ) (rounds count : ℕ)
    → Fit ps
    → length ps < rounds
    → count_loop rounds (pre ++ frames ps) (length pre) count ≡ some (count + length ps)
unfolding count_loop
count_loop-frames ps pre zero count f h = absurd (omega arith)
count_loop-frames [] pre (suc rounds) count f h =
    rw (append-nil pre, count_loop, read_full_end pre 4 (omega arith)) (ap some (omega arith))
count_loop-frames (p ∷ ps) pre (suc rounds) count f h =
    let n = uint32-put_uint32 (length p) f.0 in
    let place : length pre + 4 + uint32 (put_uint32 (length p)) ≡ length (pre ++ frame p) =
      omega (arith, n, length-append pre (frame p), length-frame p) in
    let shape : pre ++ frames (p ∷ ps) ≡ (pre ++ frame p) ++ frames ps =
      sym (append_assoc pre (frame p) (frames ps)) in
    let ih : count_loop rounds (pre ++ frames (p ∷ ps))
          (length pre + 4 + uint32 (put_uint32 (length p))) (count + 1)
        ≡ some (count + 1 + length ps) =
      rw (place, shape)
        (count_loop-frames ps (pre ++ frame p) rounds (count + 1) f.1 (omega arith)) in
    rw (count_loop, read_prefix pre p (frames ps), ih) (ap some (omega arith))

pub length_le_frames : (ps : List (List ℕ)) → length ps ≤ length (frames ps)
length_le_frames [] = omega arith
length_le_frames (p ∷ ps) =
    omega (arith, length_le_frames ps, length-append (frame p) (frames ps), length-frame p)

count_entries-frames : (ps : List (List ℕ)) → Fit ps → count_entries (frames ps) ≡ some (length ps)
unfolding count_entries
count_entries-frames ps f =
    count_loop-frames ps [] (suc (length (frames ps))) 0 f (omega (arith, length_le_frames ps))
    ∙ ap some (omega arith)

new_disk_buffer-frames :
    (config : Config) (ps : List (List ℕ))
    → Fit ps
    → new_disk_buffer config (frames ps)
      ≡ open_counted (default_config config) (frames ps) (some (length ps))
unfolding new_disk_buffer
new_disk_buffer-frames config ps f = rw (count_entries-frames ps f) refl

-- A buffer opened on whole entries holds them.
pub opened-Ready :
    (config : Config) (ps : List (List ℕ)) → Fit ps → Ready (new_disk_buffer config (frames ps)) ps
opened-Ready config ps f = rw (new_disk_buffer-frames config ps f) (record {
  holds = record {
    consumed = [];
    content = refl;
    offset = refl;
    past = tt;
    sized = refl;
    counted = refl;
    fit = f;
  };
  at_end = refl;
})

-- A buffer opened on the file of one that holds the entries `ps` holds them again, in order, and
-- before them the entries that were read but are still in the file: those that fill its first
-- `readOffset` bytes.
new_disk_buffer-Ready :
    (b : DiskBuffer) (ps : List (List ℕ)) (config : Config)
    → Holds b ps
    → (gone : List (List ℕ)) × (length (frames gone) ≡ b.read_offset)
      × Ready (new_disk_buffer config b.file.bytes) (gone ++ ps)
new_disk_buffer-Ready b ps config v = (
  v.consumed,
  sym v.offset,
  rw (v.content, sym (frames-append v.consumed ps))
      (opened-Ready config (v.consumed ++ ps) (Fit-append v.consumed ps v.past v.fit)),
)

no_frames : (ps : List (List ℕ)) → length (frames ps) ≡ 0 → ps ≡ []
no_frames [] e = refl
no_frames (p ∷ ps) e = absurd (omega (arith, length_le_frames (p ∷ ps), e))

take_all : {E : Type 0} → (es : List E) → take (length es) es ≡ es
take_all [] = refl
take_all (e ∷ es) = ap (◌∷◌ e) (take_all es)

pub opened-closed :
    (config : Config) (ps : List (List ℕ))
    → Fit ps
    → (new_disk_buffer config (frames ps)).closed ≡ false
opened-closed config ps f = rw (new_disk_buffer-frames config ps f) refl

empty_size :
    (config : Config) (n : ℕ)
    → n ≤ config.max_size
    → size (open_counted config [] (some 0)) + n ≤ config.max_size
unfolding size
empty_size config n h = omega arith

module _ {E : Type 0} (codec : Codec E) (exceeds : ℕ → ℕ → Bool) where
  read_opened :
      (config : Config) (bytes : List ℕ) (es : List E) (qs : List (List ℕ))
      → bytes ≡ frames qs
      → Decodes codec qs es
      → Fit qs
      → (b' : DiskBuffer) × (read exceeds codec (new_disk_buffer config bytes) (length es)
          ≡ (b', es, none))
  read_opened config bytes es qs e d f =
      let (b', ran, left) =
        read-Holds codec exceeds (new_disk_buffer config (frames qs)) qs es (length es)
          (opened-Ready config qs f).holds (opened-closed config qs f) d in
      (b', rw e ran ∙ ap (λ xs. (b', xs, none)) (take_all es))

  -- Entries that are written to a new buffer and fit in it are what `Read` returns, in order, from a
  -- buffer that is opened on the same file later, when `Marshal` and `Unmarshal` agree on them.
  pub write-reopen-read :
      (config config' : Config) (es : List E) (qs : List (List ℕ))
      → Encodes exceeds codec es qs
      → Decodes codec qs es
      → Fit qs
      → length (frames qs) ≤ (default_config config).max_size
      → (b' : DiskBuffer) × (read exceeds codec
            (new_disk_buffer config'
              (write_entries exceeds codec (new_disk_buffer config []) es).0.file.bytes)
            (length es)
          ≡ (b', es, none))
  write-reopen-read config config' es qs enc d f fits =
      let start = new_disk_buffer-frames config [] tt in
      let room : size (new_disk_buffer config []) + length (frames qs)
          ≤ (new_disk_buffer config []).config.max_size =
        rw start (empty_size (default_config config) (length (frames qs)) fits) in
      let (v, same) =
        write_entries_lossless exceeds codec (new_disk_buffer config []) [] es qs
          (opened-Ready config [] tt) (opened-closed config [] tt) enc f room in
      let b' = (write_entries exceeds codec (new_disk_buffer config []) es).0 in
      let at_zero : b'.read_offset ≡ 0 = same ∙ ap (λ b. b.read_offset) start in
      let none_gone = no_frames v.holds.consumed (sym v.holds.offset ∙ at_zero) in
      read_opened config' b'.file.bytes es qs
        (v.holds.content ∙ ap (λ gone. frames gone ++ frames qs) none_gone) d f
