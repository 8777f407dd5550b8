-- ===== src/Storage/LogBuffer/Bounds.antt =====
-- log_buffer.go: what stays in the buffer, against "keep the newest `max_size` entries".
use blazelog.Base.{
  ℕ, ◌+◌, ◌-◌, ◌≤◌, ◌≡◌, ◌∙◌, ap, List, ◌++◌, arith, length, drop, take_last, length-append,
  take_last_of_length-le, drop-append_left, drop-append_right,
}
use blazelog.Storage.LogBuffer.{LogBuffer, admit, put_back}

module _ {R : Type 0} where
  take_last_of_excess :
      (n : ℕ) (xs ys : List R)
      → n ≤ length xs + length ys
      → length xs ≤ length xs + length ys - n
      → take_last n (xs ++ ys) ≡ drop (length ys - n) ys
  take_last_of_excess n xs ys h k =
      drop-append_right _ xs ys (omega (arith, length-append xs ys))
      ∙ ap (λ k. drop k ys) (omega (arith, length-append xs ys))

  take_last_of_room :
      (n : ℕ) (xs ys : List R)
      → length xs + length ys - n ≤ length xs
      → take_last n (xs ++ ys) ≡ drop (length xs + length ys - n) xs ++ ys
  take_last_of_room n xs ys h = rw (length-append xs ys) (drop-append_left _ xs ys h)

  -- `AddBatch` keeps exactly the newest `max_size` of the old and the new entries, in order,
  -- and counts every other one as dropped.
  pub admit-take_last :
      (b : LogBuffer R) (entries : List R)
      → ((admit b entries).buffer ≡ take_last b.max_size (b.buffer ++ entries))
        × ((admit b entries).dropped ≡ b.dropped + (length b.buffer + length entries - b.max_size))
  unfolding admit
  admit-take_last b entries = ground (
    arith,
    take_last_of_excess b.max_size b.buffer entries,
    take_last_of_room b.max_size b.buffer entries,
    take_last_of_length-le b.max_size (b.buffer ++ entries),
    length-append b.buffer entries,
  )

  -- After a failed insertion the batch stands in front again, and the newest `max_size` entries
  -- are kept in order.
  pub put_back-take_last :
      (b : LogBuffer R) (batch : List R)
      → ((put_back b batch).buffer ≡ take_last b.max_size (batch ++ b.buffer))
        × ((put_back b batch).dropped ≡ b.dropped + (length batch + length b.buffer - b.max_size))
  unfolding put_back
  put_back-take_last b batch =
      ground
        (arith, take_last_of_length-le b.max_size (batch ++ b.buffer), length-append batch b.buffer)
