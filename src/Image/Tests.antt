-- ===== src/Image/Tests.antt =====
-- Two pixels.
use linux_system_programming.Base.{refl, none, All, some, List, arith, ◌≤◌, ◌≡◌, [], ◌∷◌}
use linux_system_programming.Image.{rgb2gray_u8}
use linux_system_programming.Image.Luma.{Pixel, lumas, rgb2gray_u8-lumas}

abbrev two : List Pixel
two =
    record { red = 255; green = 255; blue = 255 } ∷ record { red = 10; green = 20; blue = 30 } ∷ []

rgb2gray_u8-lumas_example :
    (rgb2gray_u8 (255 ∷ 255 ∷ 255 ∷ 10 ∷ 20 ∷ 30 ∷ []) 2 1 ≡ some (255 ∷ 18 ∷ []))
    × All (λ y. (10 ≤ y) × (y ≤ 255)) (lumas two)
rgb2gray_u8-lumas_example =
    rgb2gray_u8-lumas 2 1 10 255 two (omega arith) (omega arith) (omega arith) (omega arith)

-- The image that `main` passes on has 25 bytes, and it asks for 5 * 5 pixels of three bytes.
too_small :
    rgb2gray_u8
      (0 ∷ 0 ∷ 0 ∷ 0 ∷ 0 ∷ 0 ∷ 1 ∷ 0 ∷ 1 ∷ 0 ∷ 0 ∷ 0 ∷ 0 ∷ 0 ∷ 0 ∷ 0 ∷ 1 ∷ 0 ∷ 1 ∷ 0 ∷ 0 ∷ 0 ∷ 0 ∷ 0
        ∷ 0 ∷ [])
      5
      5
    ≡ none
unfolding rgb2gray_u8
too_small = refl
