-- ===== src/Image/Luma.antt =====
-- `rgb2gray_u8` on a list of pixels, against the weighted mean of their colours.
use Prim.Native.Nat.add
use linux_system_programming.Base.{
  length, drop, drop-add, All, ltb, ℕ, zero, suc, refl, ap, true, some, List, arith, ◌+◌, ◌*◌, ◌/◌,
  ◌≤◌, ◌≡◌, ◌∙◌, [], ◌∷◌,
}
use linux_system_programming.Image.{byte_at, gray_byte, gray_from, rgb2gray_u8}

pub record Pixel : Type 0 where
  pub red : ℕ
  pub green : ℕ
  pub blue : ℕ

abbrev pub interleaved : List Pixel → List ℕ
interleaved [] = []
interleaved (p ∷ ps) = p.red ∷ p.green ∷ p.blue ∷ interleaved ps

-- The mean of the colours with the weights 77, 150 and 29, rounded down
abbrev pub luma : Pixel → ℕ
luma p = (77 * p.red + 150 * p.green + 29 * p.blue) / (77 + 150 + 29)

abbrev pub lumas : List Pixel → List ℕ
lumas [] = []
lumas (p ∷ ps) = luma p ∷ lumas ps

abbrev pub Between : (low high : ℕ) → Pixel → Type 0
Between low high p =
    (low ≤ p.red)
    × (p.red ≤ high)
    × (low ≤ p.green)
    × (p.green ≤ high)
    × (low ≤ p.blue)
    × (p.blue ≤ high)

byte_at-drop : (n j : ℕ) (xs : List ℕ) → byte_at xs (n + j) ≡ byte_at (drop n xs) j
byte_at-drop zero j xs = rw (add.zero j) refl
byte_at-drop (suc n) j [] = refl
byte_at-drop (suc n) j (x ∷ xs) = rw (add.suc n j) (byte_at-drop n j xs)

gray_byte-luma :
    (low high : ℕ) (p : Pixel)
    → high ≤ 255
    → Between low high p
    → gray_byte p.red p.green p.blue ≡ luma p
gray_byte-luma low high p bound h = omega (arith, h)

luma-Between : (low high : ℕ) (p : Pixel) → Between low high p → (low ≤ luma p) × (luma p ≤ high)
luma-Between low high p h = (omega (arith, h), omega (arith, h))

gray_from-lumas :
    (low high : ℕ) (img : List ℕ) (ps : List Pixel) (i : ℕ)
    → high ≤ 255
    → All (Between low high) ps
    → drop (3 * i) img ≡ interleaved ps
    → 3 * (i + length ps) ≤ 2147483648
    → gray_from img (length ps) i ≡ some (lumas ps)
unfolding gray_from
gray_from-lumas low high img [] i bound h at fits = refl
gray_from-lumas low high img (p ∷ ps) i bound h at fits =
    let inside : ltb (3 * i + 2) 2147483648 ≡ true = ground arith in
    let next : drop (3 * (i + 1)) img ≡ interleaved ps =
      ap (λ n. drop n img) {y = 3 * i + 3} (omega arith)
      ∙ drop-add (3 * i) 3 img
      ∙ ap (drop 3) at in
    let others = gray_from-lumas low high img ps (i + 1) bound h.1 next (omega arith) in
    let byte : (j : ℕ) → byte_at img (3 * i + j) ≡ byte_at (interleaved (p ∷ ps)) j =
      λ j. byte_at-drop (3 * i) j img ∙ ap (λ xs. byte_at xs j) at in
    let byte_0 : byte_at img (3 * i) ≡ some p.red =
      ap (byte_at img) {y = 3 * i + 0} (omega arith) ∙ byte 0 in
    rw (inside, byte_0, byte 1, byte 2, others)
      (ap (λ y. some (y ∷ lumas ps)) (gray_byte-luma low high p bound h.0))

lumas-Between :
    (low high : ℕ) (ps : List Pixel)
    → All (Between low high) ps
    → All (λ y. (low ≤ y) × (y ≤ high)) (lumas ps)
lumas-Between low high [] h = tt
lumas-Between low high (p ∷ ps) h = (luma-Between low high p h.0, lumas-Between low high ps h.1)

-- On the bytes of `w * h` pixels, few enough for the index to fit an int, `rgb2gray_u8` stores the weighted mean of
-- the three colours of each pixel, in their order, with nothing lost to the width of its numbers; and when all
-- colours lie between `low` and `high`, so do the means.
pub rgb2gray_u8-lumas :
    (w h low high : ℕ) (ps : List Pixel)
    → w * h ≡ length ps
    → 3 * length ps ≤ 2147483648
    → high ≤ 255
    → All (Between low high) ps
    → (rgb2gray_u8 (interleaved ps) w h ≡ some (lumas ps))
      × All (λ y. (low ≤ y) × (y ≤ high)) (lumas ps)
unfolding rgb2gray_u8
rgb2gray_u8-lumas w h low high ps size fits bound colours = (
  ap (λ n. gray_from (interleaved ps) n 0) {y = length ps} (omega (arith, size))
      ∙ gray_from-lumas low high (interleaved ps) ps 0 bound colours refl (omega arith),
  lumas-Between low high ps colours,
)
