-- ===== src/Cameras/Jpeg.antt =====
-- `readJpegSize` of hub/src/cameras/frame-store.service.ts, on the bytes of a frame.
use project.Base.{
  Bool, List, Option, [], arith, eq_option, eq_string, eq_ℕ, false, if◌then◌else◌, leb, length, ltb,
  none, not, refl, some, suc, true, zero, ℕ, ◌&&◌, ◌*◌, ◌+◌, ◌<◌, ◌==◌, ◌||◌, ◌∷◌, ◌≡◌,
}

-- `data[i]`, `undefined` out of range.
byte_at : List ℕ → ℕ → Option ℕ
byte_at [] i = none
byte_at (b ∷ bs) zero = some b
byte_at (b ∷ bs) (suc i) = byte_at bs i

-- What a read may do: a value, or the exception of a read out of range.
infixl 5 ◌>>=◌
abbrev ◌>>=◌ {ℓ κ} : {A : Type ℓ} {B : Type κ} → Option A → (A → Option B) → Option B
none >>= f = none
some a >>= f = f a

-- `readUInt16BE`, which throws where it would read past the end.
read_uint16_be : List ℕ → ℕ → Option ℕ
read_uint16_be bytes i = do hi ← byte_at bytes i; lo ← byte_at bytes (i + 1); some (hi * 256 + lo)

-- SOF0 to SOF15, without DHT, JPG and DAC.
is_frame_marker : Option ℕ → Bool
is_frame_marker none = false
is_frame_marker (some m) =
    leb 192 m && leb m 207 && not (m == 196) && not (m == 200) && not (m == 204)

-- The dimensions found, width and height; `none` in place of the pair is an exception, or the end of
-- the fuel.
abbrev pub Size : Type 0
Size = Option ℕ × Option ℕ

read_size : List ℕ → ℕ → Option Size
read_size bytes offset = do
  height ← read_uint16_be bytes (offset + 5)
  width ← read_uint16_be bytes (offset + 7)
  some (some width, some height)

-- The loop, from `offset`.
size_from : ℕ → List ℕ → ℕ → Option Size
size_from zero bytes offset = none
size_from (suc fuel) bytes offset =
    let skipped = size_from fuel bytes (offset + 1) in
    let after = λ (segment : ℕ). size_from fuel bytes (offset + 2 + segment) in
    if not (ltb (offset + 9) (length bytes))
    then some (none, none)
    else if not (byte_at bytes offset == some 255)
    then skipped
    else if is_frame_marker (byte_at bytes (offset + 1))
    then read_size bytes offset
    else (do
      segment ← read_uint16_be bytes (offset + 2)
      if ltb segment 2 then some (none, none) else after segment)

-- A frame of n bytes takes at most n rounds.
unfoldable pub read_jpeg_size : List ℕ → Option Size
unfolding byte_at read_uint16_be is_frame_marker read_size size_from
read_jpeg_size bytes =
    if ltb (length bytes) 4
      || not (byte_at bytes 0 == some 255)
      || not (byte_at bytes 1 == some 216)
    then some (none, none)
    else size_from (length bytes) bytes 2

byte_in_range : (bytes : List ℕ) (i : ℕ) → i < length bytes → (b : ℕ) × (byte_at bytes i ≡ some b)
unfolding byte_at
byte_in_range [] i h = absurd (omega arith)
byte_in_range (b ∷ bs) zero h = (b, refl)
byte_in_range (b ∷ bs) (suc i) h = byte_in_range bs i (omega arith)

uint16_in_range :
    (bytes : List ℕ) (i : ℕ) → i + 1 < length bytes → (n : ℕ) × (read_uint16_be bytes i ≡ some n)
unfolding read_uint16_be
uint16_in_range bytes i h =
    let (hi, first) = byte_in_range bytes i (omega arith) in
    let (lo, second) = byte_in_range bytes (i + 1) h in (hi * 256 + lo, rw (first, second))

abbrev Total : Option Size → Type 0
Total o = (size : Size) × (o ≡ some size)

if-Total :
    (c : Bool) {a b : Option Size} → Total a → (c ≡ false → Total b) → Total (if c then a else b)
if-Total true x y = x
if-Total false x y = y refl

read_size-Total :
    (bytes : List ℕ) (offset : ℕ) → offset + 9 < length bytes → Total (read_size bytes offset)
unfolding read_size
read_size-Total bytes offset h =
    let (height, first) = uint16_in_range bytes (offset + 5) (omega arith) in
    let (width, second) = uint16_in_range bytes (offset + 7) (omega arith) in
    ((some width, some height), rw (first, second))

then-Total :
    (o : Option ℕ) {f : ℕ → Option Size}
    → (n : ℕ) × (o ≡ some n)
    → ((n : ℕ) → Total (f n))
    → Total (o >>= f)
then-Total none (n, e) t = absurd (ground arith)
then-Total (some m) (n, e) t = t m

-- The loop ends with an answer wherever the fuel is more than the bytes left.
size_from-Total :
    (fuel : ℕ) (bytes : List ℕ) (offset : ℕ)
    → length bytes < fuel + offset
    → 0 < fuel
    → Total (size_from fuel bytes offset)
unfolding size_from
size_from-Total zero bytes offset h p = absurd (omega arith)
size_from-Total (suc fuel) bytes offset h p =
    if-Total (not (ltb (offset + 9) (length bytes))) ((none, none), refl)
      (λ more.
        if-Total (not (byte_at bytes offset == some 255))
          (size_from-Total fuel bytes (offset + 1) (omega arith) (ground arith))
          (λ _.
            if-Total (is_frame_marker (byte_at bytes (offset + 1)))
              (read_size-Total bytes offset (ground arith))
              (λ _.
                then-Total (read_uint16_be bytes (offset + 2))
                  (uint16_in_range bytes (offset + 2) (ground arith))
                  (λ segment.
                    if-Total (ltb segment 2) ((none, none), refl)
                      (λ two.
                        size_from-Total fuel bytes (offset + 2 + segment) (ground arith)
                          (ground arith))))))

-- Every sequence of bytes has an answer: no read is out of range, and the loop ends.
pub read_jpeg_size_total : (bytes : List ℕ) → (size : Size) × (read_jpeg_size bytes ≡ some size)
unfolding read_jpeg_size
read_jpeg_size_total bytes =
    if-Total
      (ltb (length bytes) 4
        || not (byte_at bytes 0 == some 255)
        || not (byte_at bytes 1 == some 216))
      ((none, none), refl)
      (λ long. size_from-Total (length bytes) bytes 2 (omega arith) (ground arith))
