-- ===== src/Pixel.antt =====
-- internal/pixel/pixel.go: which paths are answered by an image, and with which one.
pub mod Tests
use tripflare.Base.{
  ◌==◌, if◌then◌else◌, GoString, bytes, str_eq, to_lower, ℕ, Bool, ◌||◌, List, [], ◌∷◌, reverse,
}

-- path.Ext(p): from the last dot after the last slash; [] where there is none. The scan goes from
-- the end of the path, which is given reversed, and `acc` is what it has passed.
unfoldable pub ext_scan : GoString → GoString → GoString
ext_scan [] acc = []
ext_scan (c ∷ rev) acc =
    let rest = ext_scan rev (c ∷ acc) in
    if c == b'/' then [] else if c == b'.' then c ∷ acc else rest

unfoldable pub ext : GoString → GoString
unfolding ext_scan
ext p = ext_scan (reverse p) []

abbrev pub ext_gif : GoString
ext_gif = bytes ".gif"

-- the content types, by the image that they name
pub data ContentType : Type 0 where
  image_gif image_png : ContentType

unfoldable pub is_pixel_path : GoString → Bool
unfolding ext
is_pixel_path req_path =
    let e = to_lower (ext req_path) in
    str_eq e (bytes ".png")
    || str_eq e (bytes ".jpg")
    || str_eq e (bytes ".jpeg")
    || str_eq e ext_gif

unfoldable pub content_type : GoString → ContentType
unfolding ext
content_type req_path = if str_eq (to_lower (ext req_path)) ext_gif then image_gif else image_png

-- transparentPNG, as it stands in the source
abbrev pub transparent_png : List ℕ
transparent_png =
    0x89 ∷ 0x50 ∷ 0x4E ∷ 0x47 ∷ 0x0D ∷ 0x0A ∷ 0x1A ∷ 0x0A ∷ 0x00 ∷ 0x00 ∷ 0x00 ∷ 0x0D ∷ 0x49 ∷ 0x48
    ∷ 0x44 ∷ 0x52 ∷ 0x00 ∷ 0x00 ∷ 0x00 ∷ 0x01 ∷ 0x00 ∷ 0x00 ∷ 0x00 ∷ 0x01 ∷ 0x08 ∷ 0x06 ∷ 0x00
    ∷ 0x00 ∷ 0x00 ∷ 0x1F ∷ 0x15 ∷ 0xC4 ∷ 0x89 ∷ 0x00 ∷ 0x00 ∷ 0x00 ∷ 0x0A ∷ 0x49 ∷ 0x44 ∷ 0x41
    ∷ 0x54 ∷ 0x78 ∷ 0x9C ∷ 0x62 ∷ 0x00 ∷ 0x00 ∷ 0x00 ∷ 0x02 ∷ 0x00 ∷ 0x01 ∷ 0xE5 ∷ 0x27 ∷ 0xDE
    ∷ 0xFC ∷ 0x00 ∷ 0x00 ∷ 0x00 ∷ 0x00 ∷ 0x49 ∷ 0x45 ∷ 0x4E ∷ 0x44 ∷ 0xAE ∷ 0x42 ∷ 0x60 ∷ 0x82 ∷ []

-- transparentGIF
abbrev pub transparent_gif : List ℕ
transparent_gif =
    0x47 ∷ 0x49 ∷ 0x46 ∷ 0x38 ∷ 0x39 ∷ 0x61 ∷ 0x01 ∷ 0x00 ∷ 0x01 ∷ 0x00 ∷ 0x80 ∷ 0x00 ∷ 0x00 ∷ 0xFF
    ∷ 0xFF ∷ 0xFF ∷ 0x00 ∷ 0x00 ∷ 0x00 ∷ 0x21 ∷ 0xF9 ∷ 0x04 ∷ 0x01 ∷ 0x00 ∷ 0x00 ∷ 0x00 ∷ 0x00
    ∷ 0x2C ∷ 0x00 ∷ 0x00 ∷ 0x00 ∷ 0x00 ∷ 0x01 ∷ 0x00 ∷ 0x01 ∷ 0x00 ∷ 0x00 ∷ 0x02 ∷ 0x02 ∷ 0x44
    ∷ 0x01 ∷ 0x00 ∷ 0x3B ∷ []

-- WritePixel, up to an error of the writer: the bytes that it writes
unfoldable pub pixel_bytes : GoString → List ℕ
unfolding ext
pixel_bytes req_path =
    if str_eq (to_lower (ext req_path)) ext_gif then transparent_gif else transparent_png
