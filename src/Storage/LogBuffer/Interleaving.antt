-- ===== src/Storage/LogBuffer/Interleaving.antt =====
-- log_buffer.go: callers of `AddBatch`, the flush loop and `Close` at one buffer. The mutex makes
-- each critical section one step; between the two halves of a `Flush` other steps may happen, so
-- any number of batches can be on their way to the repository at once.
use blazelog.Base.{
  ℕ, ◌+◌, ◌-◌, ◌≤◌, ◌≡◌, ◌≢◌, ap, ◌∙◌, true, List, [], ◌∷◌, ◌++◌, min, arith, length, length-append,
  length-take_last,
}
use blazelog.Storage.LogBuffer.{
  LogBuffer, LogBufferConfig, new_log_buffer, admit, begin_flush, put_back, count_flush,
}
use blazelog.Storage.LogBuffer.Bounds.{admit-take_last, put_back-take_last}

pub record System (R : Type 0) : Type 0 where
  pub buf : LogBuffer R
  pub in_flight : List (List R)
  pub accepted : ℕ
  pub stored : List R

module _ {R : Type 0} where
  abbrev pub total : List (List R) → ℕ
  total [] = 0
  total (batch ∷ batches) = length batch + total batches

  total-append : (xs ys : List (List R)) → total (xs ++ ys) ≡ total xs + total ys
  total-append [] ys = omega arith
  total-append (x ∷ xs) ys = omega (arith, total-append xs ys)

  abbrev pub launch : LogBufferConfig → System R
  launch config = record { buf = new_log_buffer config; in_flight = []; accepted = 0; stored = [] }

  -- `AddBatch` reads `stopped` before it takes the mutex, so a batch may still be admitted after
  -- `Close`: the step has no premise.
  pub data Step (s t : System R) : Type 0 where
    adds :
        (entries : List R)
        → t ≡ record s { buf = admit s.buf entries; accepted = s.accepted + length entries }
        → Step s t
    begins :
        s.buf.buffer ≢ []
        → t ≡ record s { buf = begin_flush s.buf; in_flight = s.buf.buffer ∷ s.in_flight }
        → Step s t
    succeeds :
        (xs ys : List (List R)) (batch : List R)
        → s.in_flight ≡ xs ++ (batch ∷ ys)
        → t ≡ record s {
          buf = count_flush s.buf batch;
          in_flight = xs ++ ys;
          stored = s.stored ++ batch;
        }
        → Step s t
    fails :
        (xs ys : List (List R)) (batch : List R)
        → s.in_flight ≡ xs ++ (batch ∷ ys)
        → t ≡ record s { buf = put_back s.buf batch; in_flight = xs ++ ys }
        → Step s t
    stops : t ≡ record s { buf = record (s.buf) { stopped = true } } → Step s t

  pub data Reach (s : System R) : System R → Type 0 where
    here : Reach s s
    next : {t u : System R} → Reach s t → Step t u → Reach s u

  pub record Inv (s : System R) : Type 0 where
    pub bounded : length s.buf.buffer ≤ s.buf.max_size
    pub conserved :
        s.accepted ≡ s.buf.inserted + s.buf.dropped + length s.buf.buffer + total s.in_flight
    pub delivered : length s.stored ≡ s.buf.inserted

  launch-Inv : (config : LogBufferConfig) → Inv (launch config)
  unfolding new_log_buffer
  launch-Inv config = omega arith

  admit-counts :
      (b : LogBuffer R) (entries : List R)
      → ((admit b entries).max_size ≡ b.max_size)
        × ((admit b entries).inserted ≡ b.inserted)
        × (length (admit b entries).buffer ≡ min b.max_size (length b.buffer + length entries))
        × ((admit b entries).dropped ≡ b.dropped + (length b.buffer + length entries - b.max_size))
  unfolding admit
  admit-counts b entries = (
    ground arith,
    ground arith,
    ap length (admit-take_last b entries).0
        ∙ length-take_last b.max_size (b.buffer ++ entries)
        ∙ ap (min b.max_size) (length-append b.buffer entries),
    (admit-take_last b entries).1,
  )

  put_back-counts :
      (b : LogBuffer R) (batch : List R)
      → ((put_back b batch).max_size ≡ b.max_size)
        × ((put_back b batch).inserted ≡ b.inserted)
        × (length (put_back b batch).buffer ≡ min b.max_size (length batch + length b.buffer))
        × ((put_back b batch).dropped ≡ b.dropped + (length batch + length b.buffer - b.max_size))
  unfolding put_back
  put_back-counts b batch = (
    ground arith,
    ground arith,
    ap length (put_back-take_last b batch).0
        ∙ length-take_last b.max_size (batch ++ b.buffer)
        ∙ ap (min b.max_size) (length-append batch b.buffer),
    (put_back-take_last b batch).1,
  )

  Step-Inv : {s t : System R} → Step s t → Inv s → Inv t
  unfolding begin_flush count_flush
  Step-Inv {s} (adds entries e) v = ground (arith, admit-counts s.buf entries)
  Step-Inv {s} (begins h e) v = ground arith
  Step-Inv {s} (succeeds xs ys batch f e) v =
      ground (arith, total-append xs ys, total-append xs (batch ∷ ys), length-append s.stored batch)
  Step-Inv {s} (fails xs ys batch f e) v =
      ground (arith, total-append xs ys, total-append xs (batch ∷ ys), put_back-counts s.buf batch)
  Step-Inv (stops e) v = ground arith

  Reach-Inv : {s t : System R} → Inv s → Reach s t → Inv t
  Reach-Inv v here = v
  Reach-Inv v (next r st) = Step-Inv st (Reach-Inv v r)

  -- Whatever the callers, the flush loop and the repository do, from a new buffer on: the buffer
  -- never holds more than `max_size` entries, and every accepted entry is exactly one of inserted,
  -- dropped and counted, buffered, or in a batch on its way.
  pub Reach-conserves :
      (config : LogBufferConfig) {t : System R}
      → Reach (launch config) t
      → (length t.buf.buffer ≤ t.buf.max_size)
        × (t.accepted ≡ t.buf.inserted + t.buf.dropped + length t.buf.buffer + total t.in_flight)
        × (length t.stored ≡ t.buf.inserted)
  Reach-conserves config r =
      let v = Reach-Inv (launch-Inv config) r in (v.bounded, v.conserved, v.delivered)
