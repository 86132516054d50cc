-- ===== src/S3/Paths.antt =====
-- internal/s3api/router.go: splitPath and validBucketName.
use telang.Common.{
  ℕ, suc, ◌≤◌, ◌≡◌, refl, Bool, true, false, ◌||◌, ◌&&◌, none, some, [], ◌∷◌, ◌++◌, Str, codes,
  length, take, drop, leb, ◌==◌, if◌then◌else◌, trim_prefix, has_prefix, index_byte, contains,
  arith, Lacks, index_byte-Lacks, index_byte-cut, Lacks-none, take-append, ◌⊎◌, inl, inr,
  Option-cases,
}

-- `splitPath`
unfoldable pub split_path : Str → Str × Str
unfolding trim_prefix index_byte
split_path path =
    let p = trim_prefix path (codes "/") in
    elim (index_byte p b'/') [ none ↦ (p, []) | some slash ↦ (take slash p, drop (suc slash) p) ]

-- `[a-z0-9]` and `[a-z0-9.\-]` of `bucketRE`
unfoldable pub is_alnum : ℕ → Bool
is_alnum c = (leb b'a' c && leb c b'z') || (leb b'0' c && leb c b'9')

unfoldable pub is_middle : ℕ → Bool
unfolding is_alnum
is_middle c = is_alnum c || c == b'.' || c == b'-'

-- `[a-z0-9.\-]*[a-z0-9]$` behind the first byte
unfoldable pub ends_well : Str → Bool
unfolding is_middle
ends_well [] = false
ends_well (c ∷ []) = is_alnum c
ends_well (c ∷ d ∷ s) = is_middle c && ends_well (d ∷ s)

-- `bucketRE.MatchString`
unfoldable pub bucket_re : Str → Bool
unfolding ends_well
bucket_re [] = false
bucket_re (c ∷ s) = is_alnum c && ends_well s && leb 2 (length s) && leb (length s) 62

-- `validBucketName`
unfoldable pub valid_bucket_name : Str → Bool
unfolding bucket_re
valid_bucket_name s =
    if bucket_re s then (if contains s (codes "..") then false else true) else false

-- For a bucket name without a slash, splitPath of "/", the bucket, "/" and the key gives that
-- bucket and key.
pub split_path-join :
    (bucket key : Str)
    → Lacks b'/' bucket
    → split_path (b'/' ∷ bucket ++ b'/' ∷ key) ≡ (bucket, key)
unfolding split_path
split_path-join bucket key h = rw (
  trimmed (bucket ++ b'/' ∷ key),
  index_byte-Lacks bucket key b'/' h,
  take-append (length bucket) bucket (b'/' ∷ key) refl,
  behind bucket b'/' key,
)
  where
    trimmed : (s : Str) → trim_prefix (b'/' ∷ s) (codes "/") ≡ s
    trimmed s = unfold trim_prefix has_prefix in refl

    behind : (s : Str) (c : ℕ) (t : Str) → drop (suc (length s)) (s ++ c ∷ t) ≡ t
    behind [] c t = refl
    behind (x ∷ s) c t = behind s c t

-- The bucket that splitPath finds in a path that begins with a slash has no slash, and behind the
-- first slash the path is the bucket, a slash and the key, or it is the bucket and the key is
-- empty.
pub split_path_lem :
    (p : Str)
    → Lacks b'/' (split_path (b'/' ∷ p)).0
      × (((split_path (b'/' ∷ p)).0 ++ b'/' ∷ (split_path (b'/' ∷ p)).1 ≡ p)
          ⊎ (((split_path (b'/' ∷ p)).0 ≡ p) × ((split_path (b'/' ∷ p)).1 ≡ [])))
unfolding split_path trim_prefix has_prefix
split_path_lem p = elim (Option-cases (index_byte p b'/')) [
  | inl e ↦ rw e (Lacks-none p b'/' e, inr (refl, refl))
  | inr (i, e) ↦ rw e ((index_byte-cut p b'/' i e).0, inl (index_byte-cut p b'/' i e).1)
]

abbrev AllMiddle : Str → Type 0
AllMiddle [] = Unit
AllMiddle (c ∷ s) = (is_middle c ≡ true) × AllMiddle s

ends_well-AllMiddle : (s : Str) → ends_well s ≡ true → AllMiddle s
unfolding ends_well
ends_well-AllMiddle [] h = tt
ends_well-AllMiddle (c ∷ []) h = ground arith
ends_well-AllMiddle (c ∷ d ∷ s) h = ground (arith, ends_well-AllMiddle (d ∷ s))

AllMiddle-Lacks : (s : Str) → AllMiddle s → Lacks b'/' s
unfolding is_middle
AllMiddle-Lacks [] h = tt
AllMiddle-Lacks (c ∷ s) (m, h) = (ground arith, AllMiddle-Lacks s h)

-- A bucket name that validBucketName accepts has 3 to 63 bytes, no slash and no two dots in a
-- row.
pub valid_bucket_name_sound :
    (s : Str)
    → valid_bucket_name s ≡ true
    → (3 ≤ length s) × (length s ≤ 63) × Lacks b'/' s × (contains s (codes "..") ≡ false)
unfolding valid_bucket_name
valid_bucket_name_sound [] h = ground arith
valid_bucket_name_sound (c ∷ s) h = ground (arith, AllMiddle-Lacks s, ends_well-AllMiddle s)
