-- ===== src/Pixel/Tests.antt =====
-- The images (internal/pixel/pixel.go) on concrete paths.

use tripflare.Pixel.{ext_scan, ext, image_gif, content_type}
use tripflare.Base.{bytes, str_eq, to_lower, ◌≡◌, refl}

gif_example : content_type (bytes "/a.GIF") ≡ image_gif
unfolding content_type ext ext_scan to_lower str_eq
gif_example = refl
