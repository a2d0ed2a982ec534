-- ===== src/Console/Font.antt =====
-- The glyphs of kernel/console.c, one list of eight rows for each ASCII character.
use heaven_os.Prelude.{
  ℕ, ◌<◌, ◌≡◌, refl, arith, List, [], ◌∷◌, length, get_elem?, get_elem?-length, some,
}

unfoldable pub font : List (List ℕ)
font =
    (0x00 ∷ 0x00 ∷ 0x00 ∷ 0x00 ∷ 0x00 ∷ 0x00 ∷ 0x00 ∷ 0x00 ∷ [])
    ∷ (0x00 ∷ 0x00 ∷ 0x00 ∷ 0x00 ∷ 0x00 ∷ 0x00 ∷ 0x00 ∷ 0x00 ∷ [])
    ∷ (0x00 ∷ 0x00 ∷ 0x00 ∷ 0x00 ∷ 0x00 ∷ 0x00 ∷ 0x00 ∷ 0x00 ∷ [])
    ∷ (0x00 ∷ 0x00 ∷ 0x00 ∷ 0x00 ∷ 0x00 ∷ 0x00 ∷ 0x00 ∷ 0x00 ∷ [])
    ∷ (0x00 ∷ 0x00 ∷ 0x00 ∷ 0x00 ∷ 0x00 ∷ 0x00 ∷ 0x00 ∷ 0x00 ∷ [])
    ∷ (0x00 ∷ 0x00 ∷ 0x00 ∷ 0x00 ∷ 0x00 ∷ 0x00 ∷ 0x00 ∷ 0x00 ∷ [])
    ∷ (0x00 ∷ 0x00 ∷ 0x00 ∷ 0x00 ∷ 0x00 ∷ 0x00 ∷ 0x00 ∷ 0x00 ∷ [])
    ∷ (0x00 ∷ 0x00 ∷ 0x00 ∷ 0x00 ∷ 0x00 ∷ 0x00 ∷ 0x00 ∷ 0x00 ∷ [])
    ∷ (0x00 ∷ 0x00 ∷ 0x00 ∷ 0x00 ∷ 0x00 ∷ 0x00 ∷ 0x00 ∷ 0x00 ∷ [])
    ∷ (0x00 ∷ 0x00 ∷ 0x00 ∷ 0x00 ∷ 0x00 ∷ 0x00 ∷ 0x00 ∷ 0x00 ∷ [])
    ∷ (0x00 ∷ 0x00 ∷ 0x00 ∷ 0x00 ∷ 0x00 ∷ 0x00 ∷ 0x00 ∷ 0x00 ∷ [])
    ∷ (0x00 ∷ 0x00 ∷ 0x00 ∷ 0x00 ∷ 0x00 ∷ 0x00 ∷ 0x00 ∷ 0x00 ∷ [])
    ∷ (0x00 ∷ 0x00 ∷ 0x00 ∷ 0x00 ∷ 0x00 ∷ 0x00 ∷ 0x00 ∷ 0x00 ∷ [])
    ∷ (0x00 ∷ 0x00 ∷ 0x00 ∷ 0x00 ∷ 0x00 ∷ 0x00 ∷ 0x00 ∷ 0x00 ∷ [])
    ∷ (0x00 ∷ 0x00 ∷ 0x00 ∷ 0x00 ∷ 0x00 ∷ 0x00 ∷ 0x00 ∷ 0x00 ∷ [])
    ∷ (0x00 ∷ 0x00 ∷ 0x00 ∷ 0x00 ∷ 0x00 ∷ 0x00 ∷ 0x00 ∷ 0x00 ∷ [])
    ∷ (0x00 ∷ 0x00 ∷ 0x00 ∷ 0x00 ∷ 0x00 ∷ 0x00 ∷ 0x00 ∷ 0x00 ∷ [])
    ∷ (0x00 ∷ 0x00 ∷ 0x00 ∷ 0x00 ∷ 0x00 ∷ 0x00 ∷ 0x00 ∷ 0x00 ∷ [])
    ∷ (0x00 ∷ 0x00 ∷ 0x00 ∷ 0x00 ∷ 0x00 ∷ 0x00 ∷ 0x00 ∷ 0x00 ∷ [])
    ∷ (0x00 ∷ 0x00 ∷ 0x00 ∷ 0x00 ∷ 0x00 ∷ 0x00 ∷ 0x00 ∷ 0x00 ∷ [])
    ∷ (0x00 ∷ 0x00 ∷ 0x00 ∷ 0x00 ∷ 0x00 ∷ 0x00 ∷ 0x00 ∷ 0x00 ∷ [])
    ∷ (0x00 ∷ 0x00 ∷ 0x00 ∷ 0x00 ∷ 0x00 ∷ 0x00 ∷ 0x00 ∷ 0x00 ∷ [])
    ∷ (0x00 ∷ 0x00 ∷ 0x00 ∷ 0x00 ∷ 0x00 ∷ 0x00 ∷ 0x00 ∷ 0x00 ∷ [])
    ∷ (0x00 ∷ 0x00 ∷ 0x00 ∷ 0x00 ∷ 0x00 ∷ 0x00 ∷ 0x00 ∷ 0x00 ∷ [])
    ∷ (0x00 ∷ 0x00 ∷ 0x00 ∷ 0x00 ∷ 0x00 ∷ 0x00 ∷ 0x00 ∷ 0x00 ∷ [])
    ∷ (0x00 ∷ 0x00 ∷ 0x00 ∷ 0x00 ∷ 0x00 ∷ 0x00 ∷ 0x00 ∷ 0x00 ∷ [])
    ∷ (0x00 ∷ 0x00 ∷ 0x00 ∷ 0x00 ∷ 0x00 ∷ 0x00 ∷ 0x00 ∷ 0x00 ∷ [])
    ∷ (0x00 ∷ 0x00 ∷ 0x00 ∷ 0x00 ∷ 0x00 ∷ 0x00 ∷ 0x00 ∷ 0x00 ∷ [])
    ∷ (0x00 ∷ 0x00 ∷ 0x00 ∷ 0x00 ∷ 0x00 ∷ 0x00 ∷ 0x00 ∷ 0x00 ∷ [])
    ∷ (0x00 ∷ 0x00 ∷ 0x00 ∷ 0x00 ∷ 0x00 ∷ 0x00 ∷ 0x00 ∷ 0x00 ∷ [])
    ∷ (0x00 ∷ 0x00 ∷ 0x00 ∷ 0x00 ∷ 0x00 ∷ 0x00 ∷ 0x00 ∷ 0x00 ∷ [])
    ∷ (0x00 ∷ 0x00 ∷ 0x00 ∷ 0x00 ∷ 0x00 ∷ 0x00 ∷ 0x00 ∷ 0x00 ∷ [])
    ∷ (0x00 ∷ 0x00 ∷ 0x00 ∷ 0x00 ∷ 0x00 ∷ 0x00 ∷ 0x00 ∷ 0x00 ∷ [])
    ∷ (0x18 ∷ 0x3c ∷ 0x3c ∷ 0x18 ∷ 0x18 ∷ 0x00 ∷ 0x18 ∷ 0x00 ∷ [])
    ∷ (0x36 ∷ 0x36 ∷ 0x00 ∷ 0x00 ∷ 0x00 ∷ 0x00 ∷ 0x00 ∷ 0x00 ∷ [])
    ∷ (0x36 ∷ 0x36 ∷ 0x7f ∷ 0x36 ∷ 0x7f ∷ 0x36 ∷ 0x36 ∷ 0x00 ∷ [])
    ∷ (0x0c ∷ 0x3e ∷ 0x03 ∷ 0x1e ∷ 0x30 ∷ 0x1f ∷ 0x0c ∷ 0x00 ∷ [])
    ∷ (0x00 ∷ 0x63 ∷ 0x33 ∷ 0x18 ∷ 0x0c ∷ 0x66 ∷ 0x63 ∷ 0x00 ∷ [])
    ∷ (0x1c ∷ 0x36 ∷ 0x1c ∷ 0x6e ∷ 0x3b ∷ 0x33 ∷ 0x6e ∷ 0x00 ∷ [])
    ∷ (0x06 ∷ 0x06 ∷ 0x03 ∷ 0x00 ∷ 0x00 ∷ 0x00 ∷ 0x00 ∷ 0x00 ∷ [])
    ∷ (0x18 ∷ 0x0c ∷ 0x06 ∷ 0x06 ∷ 0x06 ∷ 0x0c ∷ 0x18 ∷ 0x00 ∷ [])
    ∷ (0x06 ∷ 0x0c ∷ 0x18 ∷ 0x18 ∷ 0x18 ∷ 0x0c ∷ 0x06 ∷ 0x00 ∷ [])
    ∷ (0x00 ∷ 0x66 ∷ 0x3c ∷ 0xff ∷ 0x3c ∷ 0x66 ∷ 0x00 ∷ 0x00 ∷ [])
    ∷ (0x00 ∷ 0x0c ∷ 0x0c ∷ 0x3f ∷ 0x0c ∷ 0x0c ∷ 0x00 ∷ 0x00 ∷ [])
    ∷ (0x00 ∷ 0x00 ∷ 0x00 ∷ 0x00 ∷ 0x00 ∷ 0x0c ∷ 0x0c ∷ 0x06 ∷ [])
    ∷ (0x00 ∷ 0x00 ∷ 0x00 ∷ 0x3f ∷ 0x00 ∷ 0x00 ∷ 0x00 ∷ 0x00 ∷ [])
    ∷ (0x00 ∷ 0x00 ∷ 0x00 ∷ 0x00 ∷ 0x00 ∷ 0x0c ∷ 0x0c ∷ 0x00 ∷ [])
    ∷ (0x60 ∷ 0x30 ∷ 0x18 ∷ 0x0c ∷ 0x06 ∷ 0x03 ∷ 0x01 ∷ 0x00 ∷ [])
    ∷ (0x3e ∷ 0x63 ∷ 0x73 ∷ 0x7b ∷ 0x6f ∷ 0x67 ∷ 0x3e ∷ 0x00 ∷ [])
    ∷ (0x0c ∷ 0x0e ∷ 0x0c ∷ 0x0c ∷ 0x0c ∷ 0x0c ∷ 0x3f ∷ 0x00 ∷ [])
    ∷ (0x1e ∷ 0x33 ∷ 0x30 ∷ 0x1c ∷ 0x06 ∷ 0x33 ∷ 0x3f ∷ 0x00 ∷ [])
    ∷ (0x1e ∷ 0x33 ∷ 0x30 ∷ 0x1c ∷ 0x30 ∷ 0x33 ∷ 0x1e ∷ 0x00 ∷ [])
    ∷ (0x38 ∷ 0x3c ∷ 0x36 ∷ 0x33 ∷ 0x7f ∷ 0x30 ∷ 0x78 ∷ 0x00 ∷ [])
    ∷ (0x3f ∷ 0x03 ∷ 0x1f ∷ 0x30 ∷ 0x30 ∷ 0x33 ∷ 0x1e ∷ 0x00 ∷ [])
    ∷ (0x1c ∷ 0x06 ∷ 0x03 ∷ 0x1f ∷ 0x33 ∷ 0x33 ∷ 0x1e ∷ 0x00 ∷ [])
    ∷ (0x3f ∷ 0x33 ∷ 0x30 ∷ 0x18 ∷ 0x0c ∷ 0x0c ∷ 0x0c ∷ 0x00 ∷ [])
    ∷ (0x1e ∷ 0x33 ∷ 0x33 ∷ 0x1e ∷ 0x33 ∷ 0x33 ∷ 0x1e ∷ 0x00 ∷ [])
    ∷ (0x1e ∷ 0x33 ∷ 0x33 ∷ 0x3e ∷ 0x30 ∷ 0x18 ∷ 0x0e ∷ 0x00 ∷ [])
    ∷ (0x00 ∷ 0x0c ∷ 0x0c ∷ 0x00 ∷ 0x00 ∷ 0x0c ∷ 0x0c ∷ 0x00 ∷ [])
    ∷ (0x00 ∷ 0x0c ∷ 0x0c ∷ 0x00 ∷ 0x00 ∷ 0x0c ∷ 0x0c ∷ 0x06 ∷ [])
    ∷ (0x18 ∷ 0x0c ∷ 0x06 ∷ 0x03 ∷ 0x06 ∷ 0x0c ∷ 0x18 ∷ 0x00 ∷ [])
    ∷ (0x00 ∷ 0x00 ∷ 0x3f ∷ 0x00 ∷ 0x00 ∷ 0x3f ∷ 0x00 ∷ 0x00 ∷ [])
    ∷ (0x06 ∷ 0x0c ∷ 0x18 ∷ 0x30 ∷ 0x18 ∷ 0x0c ∷ 0x06 ∷ 0x00 ∷ [])
    ∷ (0x1e ∷ 0x33 ∷ 0x30 ∷ 0x18 ∷ 0x0c ∷ 0x00 ∷ 0x0c ∷ 0x00 ∷ [])
    ∷ (0x3e ∷ 0x63 ∷ 0x7b ∷ 0x7b ∷ 0x7b ∷ 0x03 ∷ 0x1e ∷ 0x00 ∷ [])
    ∷ (0x0c ∷ 0x1e ∷ 0x33 ∷ 0x33 ∷ 0x3f ∷ 0x33 ∷ 0x33 ∷ 0x00 ∷ [])
    ∷ (0x3f ∷ 0x66 ∷ 0x66 ∷ 0x3e ∷ 0x66 ∷ 0x66 ∷ 0x3f ∷ 0x00 ∷ [])
    ∷ (0x3c ∷ 0x66 ∷ 0x03 ∷ 0x03 ∷ 0x03 ∷ 0x66 ∷ 0x3c ∷ 0x00 ∷ [])
    ∷ (0x1f ∷ 0x36 ∷ 0x66 ∷ 0x66 ∷ 0x66 ∷ 0x36 ∷ 0x1f ∷ 0x00 ∷ [])
    ∷ (0x7f ∷ 0x46 ∷ 0x16 ∷ 0x1e ∷ 0x16 ∷ 0x46 ∷ 0x7f ∷ 0x00 ∷ [])
    ∷ (0x7f ∷ 0x46 ∷ 0x16 ∷ 0x1e ∷ 0x16 ∷ 0x06 ∷ 0x0f ∷ 0x00 ∷ [])
    ∷ (0x3c ∷ 0x66 ∷ 0x03 ∷ 0x03 ∷ 0x73 ∷ 0x66 ∷ 0x7c ∷ 0x00 ∷ [])
    ∷ (0x33 ∷ 0x33 ∷ 0x33 ∷ 0x3f ∷ 0x33 ∷ 0x33 ∷ 0x33 ∷ 0x00 ∷ [])
    ∷ (0x1e ∷ 0x0c ∷ 0x0c ∷ 0x0c ∷ 0x0c ∷ 0x0c ∷ 0x1e ∷ 0x00 ∷ [])
    ∷ (0x78 ∷ 0x30 ∷ 0x30 ∷ 0x30 ∷ 0x33 ∷ 0x33 ∷ 0x1e ∷ 0x00 ∷ [])
    ∷ (0x67 ∷ 0x66 ∷ 0x36 ∷ 0x1e ∷ 0x36 ∷ 0x66 ∷ 0x67 ∷ 0x00 ∷ [])
    ∷ (0x0f ∷ 0x06 ∷ 0x06 ∷ 0x06 ∷ 0x46 ∷ 0x66 ∷ 0x7f ∷ 0x00 ∷ [])
    ∷ (0x63 ∷ 0x77 ∷ 0x7f ∷ 0x7f ∷ 0x6b ∷ 0x63 ∷ 0x63 ∷ 0x00 ∷ [])
    ∷ (0x63 ∷ 0x67 ∷ 0x6f ∷ 0x7b ∷ 0x73 ∷ 0x63 ∷ 0x63 ∷ 0x00 ∷ [])
    ∷ (0x1c ∷ 0x36 ∷ 0x63 ∷ 0x63 ∷ 0x63 ∷ 0x36 ∷ 0x1c ∷ 0x00 ∷ [])
    ∷ (0x3f ∷ 0x66 ∷ 0x66 ∷ 0x3e ∷ 0x06 ∷ 0x06 ∷ 0x0f ∷ 0x00 ∷ [])
    ∷ (0x1e ∷ 0x33 ∷ 0x33 ∷ 0x33 ∷ 0x3b ∷ 0x1e ∷ 0x38 ∷ 0x00 ∷ [])
    ∷ (0x3f ∷ 0x66 ∷ 0x66 ∷ 0x3e ∷ 0x36 ∷ 0x66 ∷ 0x67 ∷ 0x00 ∷ [])
    ∷ (0x1e ∷ 0x33 ∷ 0x07 ∷ 0x0e ∷ 0x38 ∷ 0x33 ∷ 0x1e ∷ 0x00 ∷ [])
    ∷ (0x3f ∷ 0x2d ∷ 0x0c ∷ 0x0c ∷ 0x0c ∷ 0x0c ∷ 0x1e ∷ 0x00 ∷ [])
    ∷ (0x33 ∷ 0x33 ∷ 0x33 ∷ 0x33 ∷ 0x33 ∷ 0x33 ∷ 0x3f ∷ 0x00 ∷ [])
    ∷ (0x33 ∷ 0x33 ∷ 0x33 ∷ 0x33 ∷ 0x33 ∷ 0x1e ∷ 0x0c ∷ 0x00 ∷ [])
    ∷ (0x63 ∷ 0x63 ∷ 0x63 ∷ 0x6b ∷ 0x7f ∷ 0x77 ∷ 0x63 ∷ 0x00 ∷ [])
    ∷ (0x63 ∷ 0x63 ∷ 0x36 ∷ 0x1c ∷ 0x1c ∷ 0x36 ∷ 0x63 ∷ 0x00 ∷ [])
    ∷ (0x33 ∷ 0x33 ∷ 0x33 ∷ 0x1e ∷ 0x0c ∷ 0x0c ∷ 0x1e ∷ 0x00 ∷ [])
    ∷ (0x7f ∷ 0x63 ∷ 0x31 ∷ 0x18 ∷ 0x4c ∷ 0x66 ∷ 0x7f ∷ 0x00 ∷ [])
    ∷ (0x1e ∷ 0x06 ∷ 0x06 ∷ 0x06 ∷ 0x06 ∷ 0x06 ∷ 0x1e ∷ 0x00 ∷ [])
    ∷ (0x03 ∷ 0x06 ∷ 0x0c ∷ 0x18 ∷ 0x30 ∷ 0x60 ∷ 0x40 ∷ 0x00 ∷ [])
    ∷ (0x1e ∷ 0x18 ∷ 0x18 ∷ 0x18 ∷ 0x18 ∷ 0x18 ∷ 0x1e ∷ 0x00 ∷ [])
    ∷ (0x08 ∷ 0x1c ∷ 0x36 ∷ 0x63 ∷ 0x00 ∷ 0x00 ∷ 0x00 ∷ 0x00 ∷ [])
    ∷ (0x00 ∷ 0x00 ∷ 0x00 ∷ 0x00 ∷ 0x00 ∷ 0x00 ∷ 0x00 ∷ 0xff ∷ [])
    ∷ (0x0c ∷ 0x0c ∷ 0x18 ∷ 0x00 ∷ 0x00 ∷ 0x00 ∷ 0x00 ∷ 0x00 ∷ [])
    ∷ (0x00 ∷ 0x00 ∷ 0x1e ∷ 0x30 ∷ 0x3e ∷ 0x33 ∷ 0x6e ∷ 0x00 ∷ [])
    ∷ (0x07 ∷ 0x06 ∷ 0x06 ∷ 0x3e ∷ 0x66 ∷ 0x66 ∷ 0x3b ∷ 0x00 ∷ [])
    ∷ (0x00 ∷ 0x00 ∷ 0x1e ∷ 0x33 ∷ 0x03 ∷ 0x33 ∷ 0x1e ∷ 0x00 ∷ [])
    ∷ (0x38 ∷ 0x30 ∷ 0x30 ∷ 0x3e ∷ 0x33 ∷ 0x33 ∷ 0x6e ∷ 0x00 ∷ [])
    ∷ (0x00 ∷ 0x00 ∷ 0x1e ∷ 0x33 ∷ 0x3f ∷ 0x03 ∷ 0x1e ∷ 0x00 ∷ [])
    ∷ (0x1c ∷ 0x36 ∷ 0x06 ∷ 0x0f ∷ 0x06 ∷ 0x06 ∷ 0x0f ∷ 0x00 ∷ [])
    ∷ (0x00 ∷ 0x00 ∷ 0x6e ∷ 0x33 ∷ 0x33 ∷ 0x3e ∷ 0x30 ∷ 0x1f ∷ [])
    ∷ (0x07 ∷ 0x06 ∷ 0x36 ∷ 0x6e ∷ 0x66 ∷ 0x66 ∷ 0x67 ∷ 0x00 ∷ [])
    ∷ (0x0c ∷ 0x00 ∷ 0x0e ∷ 0x0c ∷ 0x0c ∷ 0x0c ∷ 0x1e ∷ 0x00 ∷ [])
    ∷ (0x30 ∷ 0x00 ∷ 0x30 ∷ 0x30 ∷ 0x30 ∷ 0x33 ∷ 0x33 ∷ 0x1e ∷ [])
    ∷ (0x07 ∷ 0x06 ∷ 0x66 ∷ 0x36 ∷ 0x1e ∷ 0x36 ∷ 0x67 ∷ 0x00 ∷ [])
    ∷ (0x0e ∷ 0x0c ∷ 0x0c ∷ 0x0c ∷ 0x0c ∷ 0x0c ∷ 0x1e ∷ 0x00 ∷ [])
    ∷ (0x00 ∷ 0x00 ∷ 0x33 ∷ 0x7f ∷ 0x7f ∷ 0x6b ∷ 0x63 ∷ 0x00 ∷ [])
    ∷ (0x00 ∷ 0x00 ∷ 0x1f ∷ 0x33 ∷ 0x33 ∷ 0x33 ∷ 0x33 ∷ 0x00 ∷ [])
    ∷ (0x00 ∷ 0x00 ∷ 0x1e ∷ 0x33 ∷ 0x33 ∷ 0x33 ∷ 0x1e ∷ 0x00 ∷ [])
    ∷ (0x00 ∷ 0x00 ∷ 0x3b ∷ 0x66 ∷ 0x66 ∷ 0x3e ∷ 0x06 ∷ 0x0f ∷ [])
    ∷ (0x00 ∷ 0x00 ∷ 0x6e ∷ 0x33 ∷ 0x33 ∷ 0x3e ∷ 0x30 ∷ 0x78 ∷ [])
    ∷ (0x00 ∷ 0x00 ∷ 0x3b ∷ 0x6e ∷ 0x66 ∷ 0x06 ∷ 0x0f ∷ 0x00 ∷ [])
    ∷ (0x00 ∷ 0x00 ∷ 0x3e ∷ 0x03 ∷ 0x1e ∷ 0x30 ∷ 0x1f ∷ 0x00 ∷ [])
    ∷ (0x08 ∷ 0x0c ∷ 0x3e ∷ 0x0c ∷ 0x0c ∷ 0x2c ∷ 0x18 ∷ 0x00 ∷ [])
    ∷ (0x00 ∷ 0x00 ∷ 0x33 ∷ 0x33 ∷ 0x33 ∷ 0x33 ∷ 0x6e ∷ 0x00 ∷ [])
    ∷ (0x00 ∷ 0x00 ∷ 0x33 ∷ 0x33 ∷ 0x33 ∷ 0x1e ∷ 0x0c ∷ 0x00 ∷ [])
    ∷ (0x00 ∷ 0x00 ∷ 0x63 ∷ 0x6b ∷ 0x7f ∷ 0x7f ∷ 0x36 ∷ 0x00 ∷ [])
    ∷ (0x00 ∷ 0x00 ∷ 0x63 ∷ 0x36 ∷ 0x1c ∷ 0x36 ∷ 0x63 ∷ 0x00 ∷ [])
    ∷ (0x00 ∷ 0x00 ∷ 0x33 ∷ 0x33 ∷ 0x33 ∷ 0x3e ∷ 0x30 ∷ 0x1f ∷ [])
    ∷ (0x00 ∷ 0x00 ∷ 0x3f ∷ 0x19 ∷ 0x0c ∷ 0x26 ∷ 0x3f ∷ 0x00 ∷ [])
    ∷ (0x38 ∷ 0x0c ∷ 0x0c ∷ 0x07 ∷ 0x0c ∷ 0x0c ∷ 0x38 ∷ 0x00 ∷ [])
    ∷ (0x18 ∷ 0x18 ∷ 0x18 ∷ 0x00 ∷ 0x18 ∷ 0x18 ∷ 0x18 ∷ 0x00 ∷ [])
    ∷ (0x07 ∷ 0x0c ∷ 0x0c ∷ 0x38 ∷ 0x0c ∷ 0x0c ∷ 0x07 ∷ 0x00 ∷ [])
    ∷ (0x6e ∷ 0x3b ∷ 0x00 ∷ 0x00 ∷ 0x00 ∷ 0x00 ∷ 0x00 ∷ 0x00 ∷ [])
    ∷ (0x00 ∷ 0x00 ∷ 0x00 ∷ 0x00 ∷ 0x00 ∷ 0x00 ∷ 0x00 ∷ 0x00 ∷ [])
    ∷ []

pub length-font : length font ≡ 128
unfolding font
length-font = refl

-- Every ASCII character has a glyph.
pub font-ascii : (c : ℕ) → c < 128 → (glyph : List ℕ) × (get_elem? font c ≡ some glyph)
font-ascii c h = get_elem?-length font c (omega (arith, length-font))
