-- ===== src/Storage/LogBuffer.antt =====
-- internal/storage/log_buffer.go. A method returns the new buffer and its error. What
-- `repo.InsertBatch` does with a batch is the argument `insert` (`true`: it returned nil).
pub mod Bounds
pub mod Order
pub mod Interleaving
mod Tests
use blazelog.Base.{
  ℕ, ◌+◌, ◌-◌, Bool, true, false, Option, none, some, List, [], ◌∷◌, ◌++◌, length, drop, ltb, leb,
  ◌==◌, if◌then◌else◌,
}

pub data Error : Type 0 where
  buffer_stopped insert_failed : Error

-- `R` stands for the record type `LogRecord`, whose fields the buffer never reads. The counters are int64 in the source and are left unbounded here.
pub record LogBuffer (R : Type 0) : Type 0 where
  pub batch_size : ℕ
  pub flush_interval : ℕ
  pub max_size : ℕ
  pub buffer : List R
  pub stopped : Bool
  pub dropped : ℕ
  pub flushed : ℕ
  pub inserted : ℕ
  pub flush_err : Option Error

pub record LogBufferConfig : Type 0 where
  pub batch_size : ℕ
  pub flush_interval : ℕ
  pub max_size : ℕ

pub record LogBufferStats : Type 0 where
  pub pending : ℕ
  pub dropped : ℕ
  pub flushed : ℕ
  pub inserted : ℕ

-- Durations are nanoseconds.
unfoldable pub with_defaults : LogBufferConfig → LogBufferConfig
with_defaults c = record {
  batch_size = if c.batch_size == 0 then 1000 else c.batch_size;
  flush_interval = if c.flush_interval == 0 then 5_000_000_000 else c.flush_interval;
  max_size = if c.max_size == 0 then 100_000 else c.max_size;
}

module _ {R : Type 0} where
  unfoldable pub new_log_buffer : LogBufferConfig → LogBuffer R
  unfolding with_defaults
  new_log_buffer config =
      let c = with_defaults config in
      record {
        batch_size = c.batch_size;
        flush_interval = c.flush_interval;
        max_size = c.max_size;
        buffer = [];
        stopped = false;
        dropped = 0;
        flushed = 0;
        inserted = 0;
        flush_err = none;
      }

  -- What `AddBatch` does while it holds the mutex.
  unfoldable pub admit : LogBuffer R → List R → LogBuffer R
  admit b entries =
      let new_len = length b.buffer + length entries in
      let to_drop = new_len - b.max_size in
      let keep = if ltb (length entries) b.max_size then length entries else b.max_size in
      let surplus = length entries - keep in
      if ltb b.max_size new_len
      then (if leb (length b.buffer) to_drop
          then record b {
            dropped = b.dropped + length b.buffer + surplus;
            buffer = drop surplus entries;
          }
          else record b {
            dropped = b.dropped + to_drop;
            buffer = drop to_drop b.buffer ++ entries;
          })
      else record b { buffer = b.buffer ++ entries }

  -- `Flush` holds the mutex twice: to swap the buffer for an empty one, and, if the insertion
  -- failed, to put the batch back in front.
  unfoldable pub begin_flush : LogBuffer R → LogBuffer R
  begin_flush b = record b { buffer = [] }

  unfoldable pub put_back : LogBuffer R → List R → LogBuffer R
  put_back b to_flush =
      let joined = to_flush ++ b.buffer in
      let excess = length joined - b.max_size in
      if ltb b.max_size (length joined)
      then record b { buffer = drop excess joined; dropped = b.dropped + excess }
      else record b { buffer = joined }

  unfoldable pub count_flush : LogBuffer R → List R → LogBuffer R
  count_flush b to_flush = record b {
    flushed = b.flushed + 1;
    inserted = b.inserted + length to_flush;
  }

  -- The second half of `Flush`, by the repository's answer.
  unfoldable pub end_flush : Bool → LogBuffer R → List R → LogBuffer R × Option Error
  unfolding put_back count_flush
  end_flush true b to_flush = (count_flush b to_flush, none)
  end_flush false b to_flush = (put_back b to_flush, some insert_failed)

  -- The store behind the buffer: what it becomes by a batch that is inserted, and whether the
  -- insertion returned nil.
  module _ {Store : Type 0} (insert : Store → List R → Store × Bool) where
    -- `Flush` with nobody else at the buffer between its two halves.
    unfoldable pub flush : Store → LogBuffer R → Store × (LogBuffer R × Option Error)
    unfolding begin_flush end_flush
    flush store b =
        let (store', ok) = insert store b.buffer in
        if length b.buffer == 0
        then (store, (b, none))
        else (store', end_flush ok (begin_flush b) b.buffer)

    unfoldable pub add_batch : Store → LogBuffer R → List R → Store × (LogBuffer R × Option Error)
    unfolding admit flush
    add_batch store b entries =
        let b' = admit b entries in
        if b.stopped
        then (store, (b, some buffer_stopped))
        else if leb b'.batch_size (length b'.buffer)
        then flush store b'
        else (store, (b', none))

    unfoldable pub add : Store → LogBuffer R → R → Store × (LogBuffer R × Option Error)
    unfolding add_batch
    add store b entry = add_batch store b (entry ∷ [])

    -- `Close`, with the branch of `flushLoop` that `stopCh` wakes up.
    unfoldable pub close : Store → LogBuffer R → Store × (LogBuffer R × Option Error)
    unfolding flush
    close store b =
        let (store', flushed) = flush store (record b { stopped = true }) in
        if b.stopped
        then (store, (b, none))
        else (store', (record (flushed.0) { flush_err = flushed.1 }, flushed.1))

  unfoldable pub stats : LogBuffer R → LogBufferStats
  stats b = record {
    pending = length b.buffer;
    dropped = b.dropped;
    flushed = b.flushed;
    inserted = b.inserted;
  }
