-- ===== src/Browser/FileNames.antt =====
-- internal/s3api/browser.go: sanitizeFilename, over `path/filepath` on a system with '/'.
use telang.Common.{Bool, true, false, ◌&&◌, ◌||◌, [], ◌∷◌, Str, codes, ◌==◌, if◌then◌else◌}
use telang.S3.Router.{is_empty}

-- A path without the slashes at its end.
unfoldable pub strip_slashes : Str → Str
strip_slashes [] = []
strip_slashes (c ∷ s) =
    let rest = strip_slashes s in if c == b'/' && is_empty rest then [] else c ∷ rest

-- What stands behind the last slash.
unfoldable pub has_slash : Str → Bool
has_slash [] = false
has_slash (c ∷ s) = c == b'/' || has_slash s

unfoldable pub last_element : Str → Str
unfolding has_slash
last_element [] = []
last_element (c ∷ s) = let rest = last_element s in if c == b'/' || has_slash s then rest else c ∷ s

-- `filepath.Base`
unfoldable pub base : Str → Str
unfolding strip_slashes last_element
base [] = codes "."
base (c ∷ s) = let b = last_element (strip_slashes (c ∷ s)) in if is_empty b then codes "/" else b

-- `filepath.Ext`
unfoldable pub ext : Str → Str
unfolding has_slash
ext [] = []
ext (c ∷ s) =
    let rest = ext s in
    if is_empty rest
    then (if c == b'.' && (if has_slash s then false else true) then c ∷ s else [])
    else rest

-- `strings.TrimLeft(s, ".")`
unfoldable pub trim_left_dots : Str → Str
trim_left_dots [] = []
trim_left_dots (c ∷ s) = let rest = trim_left_dots s in if c == b'.' then rest else c ∷ s

-- `sanitizeFilename`, where `trim_space` is `strings.TrimSpace`.
unfoldable pub sanitize_filename : (Str → Str) → Str → Str
unfolding base trim_left_dots
sanitize_filename trim_space name = trim_left_dots (trim_space (base name))
