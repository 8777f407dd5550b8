-- ===== src/Storage/LogBuffer/Order.antt =====
-- log_buffer.go with one call at a time: what reaches the repository, and in which order. The
-- repository's answer may differ from call to call, so it is given with each.
use mathlib.Core.List.{Sublist, sublist-append_right}
use mathlib.Core.List.Sublist
use blazelog.Base.{
  ℕ, ◌-◌, ◌≤◌, ◌≡◌, ◌≢◌, ◌⊎◌, ap, subst, Bool, true, false, Option, none, some, List, [], ◌∷◌, ◌++◌,
  arith, length, take, take_last, append-nil, append_assoc, take_last_of_length-le,
  take-append-drop, length-take_last, eq-nil_of_length,
}
use blazelog.Storage.LogBuffer.{
  LogBuffer, Error, buffer_stopped, insert_failed, admit, flush, put_back, add_batch, close,
}
use blazelog.Storage.LogBuffer.Bounds.{admit-take_last}

pub data Call (R : Type 0) : Type 0 where
  adds : List R → Call R
  ticks : Call R

-- `taken` is what callers handed in, `stored` what the repository keeps.
pub record Run (R : Type 0) : Type 0 where
  pub buf : LogBuffer R
  pub taken : List R
  pub stored : List R

module _ {R : Type 0} where
  -- A repository that keeps the batches it takes, one behind the other, and answers so to this call.
  abbrev pub keeping : Bool → List R → List R → List R × Bool
  keeping true stored batch = (stored ++ batch, true)
  keeping false stored batch = (stored, false)

  -- A failed `Flush` changes nothing that was buffered within the limit: the next one finds the
  -- same entries in the same order.
  flush_failed :
      (stored : List R) (b : LogBuffer R)
      → length b.buffer ≤ b.max_size
      → b.buffer ≢ []
      → flush (keeping false) stored b ≡ (stored, (b, some insert_failed))
  unfolding flush put_back
  flush_failed stored b fits some_left = ground (arith, append-nil b.buffer)

  abbrev pub act : Bool → Call R → List R → LogBuffer R → List R × (LogBuffer R × Option Error)
  act ok (adds entries) stored b = add_batch (keeping ok) stored b entries
  act ok ticks stored b = flush (keeping ok) stored b

  abbrev pub given : Call R → List R
  given (adds entries) = entries
  given ticks = []

  unfoldable pub run : Run R → List (Bool × Call R) → Run R
  run r [] = r
  run r ((ok, c) ∷ cs) =
      let after = act ok c r.stored r.buf in
      run (record { buf = after.1.0; taken = r.taken ++ given c; stored = after.0 }) cs

  -- A call ends with this repository and buffer: what it stored and what it left is `whole`, and the
  -- buffer is within its limit and not stopped.
  abbrev Leaves : List R → ℕ → Bool → List R × (LogBuffer R × Option Error) → Type 0
  Leaves whole max stopped r =
      (r.0 ++ r.1.0.buffer ≡ whole)
      × (length r.1.0.buffer ≤ r.1.0.max_size)
      × (r.1.0.max_size ≡ max)
      × (r.1.0.stopped ≡ stopped)

  flush-Leaves :
      (ok : Bool) (stored : List R) (b : LogBuffer R)
      → length b.buffer ≤ b.max_size
      → Leaves (stored ++ b.buffer) b.max_size b.stopped (flush (keeping ok) stored b)
  unfolding flush put_back
  flush-Leaves true stored b fits =
      ground (arith, append-nil stored, append-nil (stored ++ b.buffer), eq-nil_of_length b.buffer)
  flush-Leaves false stored b fits = ground (arith, append-nil b.buffer)

  record Ordered (r : Run R) : Type 0 where
    running : r.buf.stopped ≡ false
    fits : length r.buf.buffer ≤ r.buf.max_size
    in_order : Sublist (r.stored ++ r.buf.buffer) r.taken

  take_last-sublist : (n : ℕ) (xs : List R) → Sublist (take_last n xs) xs
  take_last-sublist n xs =
      subst (Sublist (take_last n xs)) (take-append-drop (length xs - n) xs)
        (sublist-append_right (take (length xs - n) xs) (take_last n xs))

  admit-fields :
      (b : LogBuffer R) (entries : List R)
      → (((admit b entries).max_size ≡ b.max_size) × ((admit b entries).stopped ≡ b.stopped))
        × (length (admit b entries).buffer ≤ b.max_size)
  unfolding admit
  admit-fields b entries = (
    ground arith,
    omega (
      arith,
      ap length (admit-take_last b entries).0,
      length-take_last b.max_size (b.buffer ++ entries),
    ),
  )

  -- A call stores a prefix of what is then buffered and keeps the rest, which is the newest part of
  -- what was there before.
  act-Leaves :
      (ok : Bool) (c : Call R) (stored : List R) (b : LogBuffer R)
      → b.stopped ≡ false
      → length b.buffer ≤ b.max_size
      → Leaves
          (stored ++ take_last b.max_size (b.buffer ++ given c))
          b.max_size
          false
          (act ok c stored b)
  unfolding add_batch
  act-Leaves ok (adds entries) stored b h fits =
      let (fields, kept) = admit-fields b entries in
      ground
        (arith, kept, fields, admit-take_last b entries, flush-Leaves ok stored (admit b entries))
  act-Leaves ok ticks stored b h fits = ground (
    arith,
    flush-Leaves ok stored b fits,
    append-nil b.buffer,
    take_last_of_length-le b.max_size b.buffer fits,
  )

  act-Ordered :
      (ok : Bool) (c : Call R) (b : LogBuffer R) (taken stored : List R)
      → Ordered (record { buf = b; taken = taken; stored = stored })
      → let after = act ok c stored b in
        Ordered (record { buf = after.1.0; taken = taken ++ given c; stored = after.0 })
  act-Ordered ok c b taken stored v =
      let parts = act-Leaves ok c stored b v.running v.fits in
      record {
        running = parts.3;
        fits = parts.1;
        in_order = rw parts.0 (
            Sublist.trans
              (Sublist.append (Sublist.refl stored)
                (take_last-sublist b.max_size (b.buffer ++ given c)))
              (rw (← append_assoc stored b.buffer (given c))
                (Sublist.append v.in_order (Sublist.refl (given c)))));
      }

  run-Ordered : (cs : List (Bool × Call R)) (r : Run R) → Ordered r → Ordered (run r cs)
  unfolding run
  run-Ordered [] r v = v
  run-Ordered ((ok, c) ∷ cs) r v = run-Ordered cs _ (act-Ordered ok c r.buf r.taken r.stored v)

  -- When the repository keeps the batches that it takes, one behind the other, what it has stored,
  -- whatever it answers to each call, followed by what is still buffered is a subsequence of what the
  -- callers handed in: no entry is stored twice, none is made up, and the order is that of the calls.
  -- The buffer starts empty and running.
  pub run_in_order :
      (b : LogBuffer R) (cs : List (Bool × Call R))
      → b.stopped ≡ false
      → b.buffer ≡ []
      → let r = run (record { buf = b; taken = []; stored = [] }) cs in
        Sublist (r.stored ++ r.buf.buffer) r.taken
  run_in_order b cs h e =
      (run-Ordered cs (record { buf = b; taken = []; stored = [] })
        (record { running = h; fits = ground arith; in_order = rw e (Sublist.refl []) })).in_order

  -- `Close` on a running buffer within its limit: the entries are stored and none is left if the
  -- final flush succeeds; otherwise its error is returned and all entries are left. After it every
  -- `AddBatch` is refused and changes nothing.
  close_lem :
      (ok ok' : Bool) (stored : List R) (b : LogBuffer R) (entries : List R)
      → b.stopped ≡ false
      → length b.buffer ≤ b.max_size
      → let closed = close (keeping ok) stored b in
        (((closed.1.1 ≡ none) × (closed.0 ≡ stored ++ b.buffer) × (closed.1.0.buffer ≡ []))
          ⊎ ((ok ≡ false)
              × (closed.1.1 ≡ some insert_failed)
              × (closed.0 ≡ stored)
              × (closed.1.0.buffer ≡ b.buffer)))
        × (add_batch (keeping ok') closed.0 closed.1.0 entries
            ≡ (closed.0, (closed.1.0, some buffer_stopped)))
  unfolding close flush put_back add_batch
  close_lem true ok' stored b entries h fits =
      ground (arith, append-nil stored, eq-nil_of_length b.buffer)
  close_lem false ok' stored b entries h fits =
      ground (arith, append-nil stored, append-nil b.buffer, eq-nil_of_length b.buffer)
