-- ===== src/Agent/DiskBuffer.antt =====
-- internal/agent/buffer/buffer.go, `DiskBuffer`: log entries in one file, each behind its length in
-- four bytes. `proto.Marshal` and `proto.Unmarshal` are parameters, and so is the test of the
-- consumed ratio, which divides two float64: `exceeds readOffset size`.
pub mod Bytes
pub mod Frames
pub mod State
pub mod Rounds
pub mod Writes
pub mod Reads
pub mod Reopen
pub mod Overwrite
pub mod Torn
mod Tests
use blazelog.Base.{
  ℕ, zero, suc, ◌+◌, ◌-◌, ◌%◌, ◌^◌, Bool, true, false, Option, none, some, List, [], ◌∷◌, ◌++◌,
  length, take, drop, ltb, leb, ◌==◌, ◌&&◌, min, if◌then◌else◌,
}
use Bytes.{File, seek, seek_end, write, ReadFull, got, eof, short, read_full, put_uint32, uint32}

pub data Error : Type 0 where
  buffer_closed marshal_failed : Error
  read_length_failed read_data_failed unmarshal_failed : Error

pub record Config : Type 0 where
  pub max_size : ℕ
  pub sync_every : ℕ

pub record DiskBuffer : Type 0 where
  pub config : Config
  pub file : File
  pub size : ℕ
  pub read_offset : ℕ
  pub count : ℕ
  pub writes : ℕ
  pub closed : Bool

-- What the loop of `Read` gives: the entries, the bytes read and the offset after it, or the error
-- with the offset where it struck.
pub data ReadLoop (E : Type 0) : Type 0 where
  done : List E → ℕ → ℕ → ReadLoop E
  failed : Error → ℕ → ReadLoop E

pub record Codec (E : Type 0) : Type 0 where
  pub marshal : E → Option (List ℕ)
  pub unmarshal : List ℕ → Option E

-- The bytes of one entry in the file.
abbrev pub frame : List ℕ → List ℕ
frame payload = put_uint32 (length payload) ++ payload

-- The chunked copy of `compactNow`: chunks of at most 64 KiB until `remaining` bytes are copied or
-- the file ends.
unfoldable pub chunk_size : ℕ → ℕ
chunk_size remaining = if ltb 65_536 remaining then 65_536 else remaining

unfoldable pub copy_chunks : ℕ → List ℕ → ℕ → List ℕ
copy_chunks zero rest remaining = []
copy_chunks (suc rounds) rest remaining =
    let to_read = chunk_size remaining in
    let chunk = take to_read rest in
    let more = copy_chunks rounds (drop to_read rest) (remaining - length chunk) in
    if remaining == 0 then [] else if length chunk == 0 then [] else chunk ++ more

unfoldable pub compact_now : DiskBuffer → DiskBuffer
compact_now b =
    let remaining = b.size - b.read_offset in
    let copied = copy_chunks remaining (drop b.read_offset b.file.bytes) remaining in
    if remaining == 0
    then record b { file = record { bytes = []; pos = 0 }; size = 0; read_offset = 0 }
    else record b {
      file = record { bytes = copied; pos = length copied };
      size = length copied;
      read_offset = 0;
    }

-- The loop of `dropOldest`: `bytes_to_drop` and `entries_to_drop` are the last two arguments.
unfoldable pub drop_loop : ℕ → List ℕ → ℕ → ℕ → ℕ → ℕ → ℕ × ℕ
drop_loop zero bytes pos needed dropped entries = (dropped, entries)
drop_loop (suc rounds) bytes pos needed dropped entries = elim (ltb dropped needed) [
  | false ↦ (dropped, entries)
  | true ↦ elim (read_full bytes pos 4) [
    | got prefix ↦
        let step = 4 + uint32 prefix in
        drop_loop rounds bytes (pos + step) needed (dropped + step) (entries + 1)
    | eof ↦ (dropped, entries)
    | short ↦ (dropped, entries)
  ]
]

abbrev pub push_read : {E : Type 0} → E → ℕ → ReadLoop E → ReadLoop E
push_read entry step (done entries n pos) = done (entry ∷ entries) (step + n) pos
push_read entry step (failed e pos) = failed e pos

module _ {E : Type 0} (codec : Codec E) where
  unfoldable pub read_loop : ℕ → List ℕ → ℕ → ReadLoop E
  read_loop zero bytes pos = done [] 0 pos
  read_loop (suc rounds) bytes pos = elim (read_full bytes pos 4) [
    | eof ↦ done [] 0 pos
    | short ↦ failed read_length_failed (length bytes)
    | got prefix ↦ elim (read_full bytes (pos + 4) (uint32 prefix)) [
      | eof ↦ failed read_data_failed (pos + 4)
      | short ↦ failed read_data_failed (length bytes)
      | got payload ↦ elim (codec.unmarshal payload) [
        | none ↦ failed unmarshal_failed (pos + 4 + uint32 prefix)
        | some entry ↦
            push_read entry (4 + uint32 prefix) (read_loop rounds bytes (pos + 4 + uint32 prefix))
      ]
    ]
  ]

module _ (exceeds : ℕ → ℕ → Bool) where
  abbrev pub compact_or : DiskBuffer → DiskBuffer → DiskBuffer
  compact_or b otherwise =
      if ltb 0 b.size && exceeds b.read_offset b.size then compact_now b else otherwise

  unfoldable pub drop_oldest : DiskBuffer → ℕ → DiskBuffer
  unfolding drop_loop
  drop_oldest b needed =
      let (dropped, entries) = drop_loop b.count b.file.bytes b.read_offset needed 0 0 in
      let b' = record b { read_offset = b.read_offset + dropped; count = b.count - entries } in
      if entries == 0
      then record b { file = seek_end b.file }
      else compact_or b' (record b' { file = seek_end b.file })

  -- What `Write` appends for one entry: the length, then the data.
  abbrev pub append_frame : DiskBuffer → List ℕ → DiskBuffer
  append_frame b payload = record b {
    file = write (write b.file (put_uint32 (length payload % 2 ^ 32))) payload;
    size = b.size + (4 + length payload);
    count = b.count + 1;
    writes = b.writes + 1;
  }

  abbrev pub make_room : DiskBuffer → ℕ → DiskBuffer
  make_room b entry_size =
      if ltb b.config.max_size (b.size - b.read_offset + entry_size)
      then drop_oldest b entry_size
      else b

  module _ {E : Type 0} (codec : Codec E) where
    -- The loop of `Write`.
    unfoldable pub write_each : DiskBuffer → List E → DiskBuffer × Option Error
    write_each b [] = (b, none)
    write_each b (entry ∷ entries) = elim (codec.marshal entry) [
      | none ↦ (b, some marshal_failed)
      | some payload ↦ write_each (append_frame (make_room b (4 + length payload)) payload) entries
    ]

    abbrev pub after_writes : DiskBuffer × Option Error → DiskBuffer × Option Error
    after_writes (b, some e) = (b, some e)
    after_writes (b, none) =
        (if leb b.config.sync_every b.writes then record b { writes = 0 } else b, none)

    unfoldable pub write_entries : DiskBuffer → List E → DiskBuffer × Option Error
    write_entries b entries =
        if b.closed then (b, some buffer_closed) else after_writes (write_each b entries)

    -- `Read` below its loop.
    abbrev pub after_reads : DiskBuffer → ReadLoop E → DiskBuffer × List E × Option Error
    after_reads b (failed e pos) = (record b { file = seek b.file pos }, [], some e)
    after_reads b (done [] n pos) = (record b { file = seek b.file pos }, [], none)
    after_reads b (done (entry ∷ entries) n pos) =
        let b' = record b {
          file = seek b.file pos;
          read_offset = b.read_offset + n;
          count = b.count - length (entry ∷ entries);
        } in
        (compact_or b' b', entry ∷ entries, none)

    unfoldable pub read : DiskBuffer → ℕ → DiskBuffer × List E × Option Error
    read b n =
        if b.closed
        then (b, [], some buffer_closed)
        else if b.count == 0
        then (b, [], none)
        else after_reads b (read_loop codec (min n b.count) b.file.bytes b.read_offset)

-- The loop of `countEntries`; `none` is an error. `Seek` may go behind the end.
unfoldable pub count_loop : ℕ → List ℕ → ℕ → ℕ → Option ℕ
count_loop zero bytes pos count = some count
count_loop (suc rounds) bytes pos count = elim (read_full bytes pos 4) [
  | eof ↦ some count
  | short ↦ none
  | got prefix ↦ count_loop rounds bytes (pos + 4 + uint32 prefix) (count + 1)
]

-- Every round but the last passes four bytes, so one round more than there are bytes suffices.
unfoldable pub count_entries : List ℕ → Option ℕ
unfolding count_loop
count_entries bytes = count_loop (suc (length bytes)) bytes 0 0

abbrev pub default_config : Config → Config
default_config c = record {
  max_size = if c.max_size == 0 then 104_857_600 else c.max_size;
  sync_every = if c.sync_every == 0 then 100 else c.sync_every;
}

abbrev pub open_counted : Config → List ℕ → Option ℕ → DiskBuffer
open_counted config bytes none = record {
  config = config;
  file = record { bytes = []; pos = 0 };
  size = 0;
  read_offset = 0;
  count = 0;
  writes = 0;
  closed = false;
}
open_counted config bytes (some n) = record {
  config = config;
  file = record { bytes = bytes; pos = length bytes };
  size = length bytes;
  read_offset = 0;
  count = n;
  writes = 0;
  closed = false;
}

-- `NewDiskBuffer` on a file with these bytes: one whose entries cannot be counted is emptied.
unfoldable pub new_disk_buffer : Config → List ℕ → DiskBuffer
unfolding count_entries
new_disk_buffer config bytes = open_counted (default_config config) bytes (count_entries bytes)

unfoldable pub size : DiskBuffer → ℕ
size b = b.size - b.read_offset

unfoldable pub close : DiskBuffer → DiskBuffer
close b = record b { closed = true }

unfoldable pub clear : DiskBuffer → DiskBuffer × Option Error
clear b = if b.closed then (b, some buffer_closed) else (
  record b { file = record { bytes = []; pos = 0 }; size = 0; read_offset = 0; count = 0 },
  none,
)
