-- ===== src/Image.antt =====
-- `rgb2gray_u8` of RPi3B_Projects/Image_Processing/Morphological_Operations/Boundary_Extraction/main.c. An unsigned
-- int has 32 bits, an unsigned long 64; `i` and 3*i are of type int.
use linux_system_programming.Base.{
  ltb, ℕ, zero, suc, Option, none, some, List, if◌then◌else◌, ◌+◌, ◌*◌, ◌/◌, ◌%◌, [], ◌∷◌,
}
pub mod Luma
mod Tests

abbrev pub byte_at : List ℕ → ℕ → Option ℕ
byte_at [] i = none
byte_at (x ∷ xs) zero = some x
byte_at (x ∷ xs) (suc i) = byte_at xs i

-- `(uint8_t)((77u*R + 150u*G + 29u*B) >> 8)`
abbrev pub gray_byte : (r g b : ℕ) → ℕ
gray_byte r g b = ((77 * r + 150 * g + 29 * b) % 4294967296 / 256) % 256

-- The byte of one pixel before those of the others; `none` where a byte of it is out of `img_rgb`.
abbrev pub put_gray : (r g b : Option ℕ) → (others : Option (List ℕ)) → Option (List ℕ)
put_gray (some r) (some g) (some b) (some others) = some (gray_byte r g b ∷ others)
put_gray r g b others = none

-- The loop from `i` on, when `left` turns are left: what it stores from img_gray[i] on. `none`: it reads out of
-- bounds, or 3*i + 2 does not fit an int.
unfoldable pub gray_from : (img_rgb : List ℕ) → (left i : ℕ) → Option (List ℕ)
gray_from img zero i = some []
gray_from img (suc left) i =
    let others = gray_from img left (i + 1) in
    if ltb (3 * i + 2) 2147483648
    then put_gray (byte_at img (3 * i)) (byte_at img (3 * i + 1)) (byte_at img (3 * i + 2)) others
    else none

unfoldable pub rgb2gray_u8 : (img_rgb : List ℕ) → (w h : ℕ) → Option (List ℕ)
unfolding gray_from
rgb2gray_u8 img w h = gray_from img ((w * h) % 18446744073709551616) 0
