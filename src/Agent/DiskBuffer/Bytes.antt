-- ===== src/Agent/DiskBuffer/Bytes.antt =====
-- The open file of internal/agent/buffer/buffer.go: its bytes and its offset. The calls of the
-- operating system succeed; the offset never lies behind the end where the buffer writes.
use blazelog.Base.{
  ℕ, ◌+◌, ◌*◌, ◌/◌, ◌%◌, ◌^◌, ◌<◌, ◌≡◌, ◌≢◌, refl, ap, List, [], ◌∷◌, ◌++◌, arith, length, take,
  drop, leb, ◌==◌, if◌then◌else◌, append-nil, length-append, drop_of_length-le,
}

pub record File : Type 0 where
  pub bytes : List ℕ
  pub pos : ℕ

abbrev pub seek : File → ℕ → File
seek f offset = record f { pos = offset }

abbrev pub seek_end : File → File
seek_end f = record f { pos = length f.bytes }

-- `Write` puts the bytes at the offset, over what stands there.
unfoldable pub write : File → List ℕ → File
write f new = record {
  bytes = take f.pos f.bytes ++ (new ++ drop (f.pos + length new) f.bytes);
  pos = f.pos + length new;
}

-- `io.ReadFull`: `eof` is io.EOF, `short` is io.ErrUnexpectedEOF.
pub data ReadFull : Type 0 where
  got : List ℕ → ReadFull
  eof short : ReadFull

unfoldable pub read_full : List ℕ → ℕ → ℕ → ReadFull
read_full bytes pos n =
    if n == 0
    then got []
    else if leb (length bytes) pos
    then eof
    else if leb (pos + n) (length bytes)
    then got (take n (drop pos bytes))
    else short

-- `binary.BigEndian.PutUint32` of `uint32(n)`, and `Uint32`.
unfoldable pub put_uint32 : ℕ → List ℕ
put_uint32 n = (n / 2 ^ 24 % 256) ∷ (n / 2 ^ 16 % 256) ∷ (n / 2 ^ 8 % 256) ∷ (n % 256) ∷ []

unfoldable pub uint32 : List ℕ → ℕ
uint32 (a ∷ b ∷ c ∷ d ∷ _) = a * 2 ^ 24 + b * 2 ^ 16 + c * 2 ^ 8 + d
uint32 _ = 0

pub uint32-put_uint32 : (n : ℕ) → n < 2 ^ 32 → uint32 (put_uint32 n) ≡ n
unfolding uint32 put_uint32
uint32-put_uint32 n h = omega arith

pub length-put_uint32 : (n : ℕ) → length (put_uint32 n) ≡ 4
unfolding put_uint32
length-put_uint32 n = refl

pub drop-length : (xs ys : List ℕ) → drop (length xs) (xs ++ ys) ≡ ys
drop-length [] ys = refl
drop-length (x ∷ xs) ys = drop-length xs ys

pub take-length : (xs ys : List ℕ) → take (length xs) (xs ++ ys) ≡ xs
take-length [] ys = refl
take-length (x ∷ xs) ys = ap (◌∷◌ x) (take-length xs ys)

take_all : (xs : List ℕ) → take (length xs) xs ≡ xs
take_all [] = refl
take_all (x ∷ xs) = ap (◌∷◌ x) (take_all xs)

-- A read at the place where `part` stands returns it.
pub read_full_part :
    (pre part post : List ℕ) (n : ℕ)
    → n ≡ length part
    → read_full (pre ++ (part ++ post)) (length pre) n ≡ got part
unfolding read_full
read_full_part pre [] post n e = ground arith
read_full_part pre (x ∷ part) post n e = rw e (
    ground (
      arith,
      length-append pre ((x ∷ part) ++ post),
      length-append (x ∷ part) post,
      drop-length pre ((x ∷ part) ++ post),
      take-length (x ∷ part) post,
    ))

pub read_full_end : (pre : List ℕ) (n : ℕ) → n ≢ 0 → read_full pre (length pre) n ≡ eof
unfolding read_full
read_full_end pre n h = ground arith

-- A write at the end appends.
pub write_end :
    (bytes new : List ℕ)
    → write (record { bytes = bytes; pos = length bytes }) new
      ≡ record { bytes = bytes ++ new; pos = length bytes + length new }
unfolding write
write_end bytes new =
    rw
      (
        take_all bytes,
        drop_of_length-le (length bytes + length new) bytes (omega arith),
        append-nil new,
      )
      refl
