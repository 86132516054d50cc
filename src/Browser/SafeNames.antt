-- ===== src/Browser/SafeNames.antt =====
-- internal/s3api/browser.go: the names that sanitizeFilename lets through.
use telang.Common.{
  ℕ, ◌≡◌, ◌≢◌, refl, false, [], ◌∷◌, Str, codes, arith, ◌⊎◌, inl, inr, Bool-cases, Lacks,
}
use telang.S3.Router.{is_empty}
use telang.Browser.FileNames.{
  strip_slashes, has_slash, last_element, base, trim_left_dots, sanitize_filename,
}

Lacks-has_slash : (s : Str) → has_slash s ≡ false → Lacks b'/' s
unfolding has_slash
Lacks-has_slash [] h = tt
Lacks-has_slash (c ∷ s) h = ground (arith, Lacks-has_slash s)

last_element-Lacks : (s : Str) → Lacks b'/' (last_element s)
unfolding last_element
last_element-Lacks [] = tt
last_element-Lacks (c ∷ s) = ground (arith, last_element-Lacks s, Lacks-has_slash s)

-- A base is a lone slash, or has none.
base-Lacks : (s : Str) → (base s ≡ codes "/") ⊎ Lacks b'/' (base s)
unfolding base
base-Lacks [] = inr (ground arith)
base-Lacks (c ∷ s) = elim (Bool-cases (is_empty (last_element (strip_slashes (c ∷ s))))) [
  | inl e ↦ rw (e) (inl refl)
  | inr e ↦ rw (e) (inr (last_element-Lacks (strip_slashes (c ∷ s))))
]

trim_left_dots-Lacks : (c : ℕ) (s : Str) → Lacks c s → Lacks c (trim_left_dots s)
unfolding trim_left_dots
trim_left_dots-Lacks c [] h = tt
trim_left_dots-Lacks c (d ∷ s) (n, h) = ground (arith, trim_left_dots-Lacks c s h)

-- The name does not begin with a dot.
abbrev pub IsVisible : Str → Type 0
IsVisible [] = Unit
IsVisible (c ∷ s) = c ≢ b'.'

trim_left_dots-IsVisible : (s : Str) → IsVisible (trim_left_dots s)
unfolding trim_left_dots
trim_left_dots-IsVisible [] = tt
trim_left_dots-IsVisible (c ∷ s) = ground (arith, trim_left_dots-IsVisible s)

-- When trimming white space adds no slash, the result of sanitizeFilename does not begin with a
-- dot, and has no slash unless the base of the name is the lone slash.
pub sanitize_filename_lem :
    (trim_space : Str → Str) (name : Str)
    → ((s : Str) → Lacks b'/' s → Lacks b'/' (trim_space s))
    → IsVisible (sanitize_filename trim_space name)
      × ((base name ≡ codes "/") ⊎ Lacks b'/' (sanitize_filename trim_space name))
unfolding sanitize_filename
sanitize_filename_lem trim_space name h = (
  trim_left_dots-IsVisible (trim_space (base name)),
  elim (base-Lacks name) [
    | inl e ↦ inl e
    | inr l ↦ inr (trim_left_dots-Lacks b'/' (trim_space (base name)) (h (base name) l))
  ],
)
