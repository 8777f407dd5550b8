-- ===== src/Agent/DiskBuffer/Tests.antt =====
-- Runs of the disk buffer of internal/agent/buffer/buffer.go on small inputs.
use blazelog.Base.{
  ℕ, zero, suc, ◌+◌, ◌*◌, length, ◌≤◌, ◌≡◌, ◌⊎◌, ◌<◌, Bool, false, none, some, List, [], ◌∷◌, ◌++◌,
  refl, drop, arith, ltb,
}
use blazelog.Agent.DiskBuffer.{
  DiskBuffer, Codec, Config, read_data_failed, new_disk_buffer, write_entries, write_each,
  drop_oldest, read, read_loop, open_counted, size,
}
use blazelog.Agent.DiskBuffer.Bytes.{seek, put_uint32, uint32, read_full, write}
use blazelog.Agent.DiskBuffer.Frames.{Fit, frames}
use blazelog.Agent.DiskBuffer.State.{Holds, Ready}
use blazelog.Agent.DiskBuffer.Writes.{write_entries-Ready, write_entries_bounded}
use blazelog.Agent.DiskBuffer.Reads.{read-Holds}
use blazelog.Agent.DiskBuffer.Reopen.{write-reopen-read}
use blazelog.Agent.DiskBuffer.Torn.{torn, read-torn}
use blazelog.Agent.DiskBuffer.Overwrite.{read-write-read_overwrites}

abbrev plain : Codec (List ℕ)
plain = record { marshal = some; unmarshal = some }

abbrev half : ℕ → ℕ → Bool
half consumed total = ltb total (2 * consumed)

abbrev never : ℕ → ℕ → Bool
never consumed total = false

abbrev config : Config
config = record { max_size = 16; sync_every = 2 }

abbrev three : List (List ℕ)
three = (7 ∷ []) ∷ (8 ∷ []) ∷ (9 ∷ []) ∷ []

abbrev opened : DiskBuffer
opened = open_counted config (frames three) (some 3)

three-Fit : Fit three
three-Fit = (omega arith, (omega arith, (omega arith, tt)))

opened_three : Ready opened three
opened_three = record {
  holds = record {
    consumed = [];
    content = refl;
    offset = refl;
    past = tt;
    sized = refl;
    counted = refl;
    fit = three-Fit;
  };
  at_end = refl;
}

opened_size : size opened ≡ 15
unfolding size put_uint32
opened_size = refl

write_entries-Ready_example :
    (b' : DiskBuffer) × (k : ℕ) × (write_entries half plain opened ((5 ∷ []) ∷ []) ≡ (b', none))
    × (k ≤ 4)
    × ((k ≡ 0) ⊎ (opened.config.max_size < size opened + length (frames ((5 ∷ []) ∷ []))))
    × Ready b' (drop k (three ++ ((5 ∷ []) ∷ [])))
write_entries-Ready_example =
    write_entries-Ready half plain opened three ((5 ∷ []) ∷ []) ((5 ∷ []) ∷ []) opened_three refl
      (refl, tt) (omega arith, tt)

write_entries_bounded_example : size (write_entries half plain opened ((5 ∷ []) ∷ [])).0 ≤ 16
write_entries_bounded_example =
    write_entries_bounded half plain opened three ((5 ∷ []) ∷ []) ((5 ∷ []) ∷ []) opened_three refl
      (refl, tt) (omega arith, tt) (omega arith, tt) (omega (arith, opened_size))

abbrev roomy : DiskBuffer
roomy = open_counted (record { max_size = 20; sync_every = 2 }) (frames three) (some 3)

roomy_three : Ready roomy three
roomy_three = record {
  holds = record {
    consumed = [];
    content = refl;
    offset = refl;
    past = tt;
    sized = refl;
    counted = refl;
    fit = three-Fit;
  };
  at_end = refl;
}

read-Holds_example :
    (b' : DiskBuffer) × (read half plain opened 2 ≡ (b', (7 ∷ []) ∷ (8 ∷ []) ∷ [], none))
    × Holds b' ((9 ∷ []) ∷ [])
read-Holds_example =
    read-Holds plain half opened three three 2 opened_three.holds refl (refl, (refl, (refl, tt)))

write-reopen-read_example :
    (b' : DiskBuffer) × (read half plain
        (new_disk_buffer config
          (write_entries half plain
            (new_disk_buffer config [])
            ((7 ∷ []) ∷ (8 ∷ 9 ∷ []) ∷ [])).0.file.bytes)
        2
      ≡ (b', (7 ∷ []) ∷ (8 ∷ 9 ∷ []) ∷ [], none))
unfolding put_uint32
write-reopen-read_example =
    write-reopen-read plain half config config ((7 ∷ []) ∷ (8 ∷ 9 ∷ []) ∷ [])
      ((7 ∷ []) ∷ (8 ∷ 9 ∷ []) ∷ []) (refl, (refl, tt)) (refl, (refl, tt))
      (omega arith, (omega arith, tt)) (omega arith)

read-write-read_overwrites_example :
    (b' : DiskBuffer) × (read never plain
        (write_entries never plain (read never plain roomy 1).0 ((5 ∷ []) ∷ [])).0
        1
      ≡ (b', (5 ∷ []) ∷ [], none))
unfolding size put_uint32
read-write-read_overwrites_example =
    read-write-read_overwrites plain never roomy (7 ∷ []) (8 ∷ []) ((9 ∷ []) ∷ []) (7 ∷ [])
      ((8 ∷ []) ∷ (9 ∷ []) ∷ []) (5 ∷ []) (5 ∷ []) roomy_three.holds refl (refl, (refl, (refl, tt)))
      refl refl refl refl (omega arith) (omega arith)

-- the oldest of the three goes
oldest_is_dropped :
    (read half plain (write_entries half plain opened ((5 ∷ []) ∷ [])).0 5).1
    ≡ ((8 ∷ []) ∷ (9 ∷ []) ∷ (5 ∷ []) ∷ [])
unfolding write_entries write_each drop_oldest read read_loop read_full write put_uint32 uint32
oldest_is_dropped = refl

abbrev crashed : DiskBuffer
crashed = open_counted config (frames three ++ torn 5 (1 ∷ 2 ∷ [])) (some 4)

read-torn_example :
    (pos : ℕ) × (read half plain crashed 10
      ≡ (record crashed { file = seek crashed.file pos }, [], some read_data_failed))
read-torn_example =
    read-torn plain half crashed three three 10 5 (1 ∷ 2 ∷ []) refl refl refl refl three-Fit
      (refl, (refl, (refl, tt))) (omega arith) (omega arith) (omega arith)

-- A Write behind a Read that did not compact takes the buffer over its limit.
abbrev small : ℕ → List (List ℕ)
small zero = []
small (suc n) = (7 ∷ []) ∷ small n

abbrev wide : ℕ → List ℕ
wide zero = []
wide (suc n) = 1 ∷ wide n

abbrev then_writes : List (List ℕ) → DiskBuffer → DiskBuffer
then_writes es b = (write_entries half plain b es).0

abbrev then_reads : DiskBuffer → DiskBuffer
then_reads b = (read half plain b 1).0

over_limit :
    size (
      then_writes (wide 52 ∷ []) (
        then_writes (small 2) (
          then_reads (
            then_writes (small 5) (
              then_reads (
                then_writes
                  (small 6)
                  (new_disk_buffer (record { max_size = 60; sync_every = 2 }) [])))))))
    ≡ 91
unfolding size new_disk_buffer write_entries write_each drop_oldest read read_loop read_full write
    put_uint32 uint32
over_limit = refl
