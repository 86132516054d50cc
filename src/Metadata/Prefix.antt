-- ===== src/Metadata/Prefix.antt =====
-- The prefix test of `ListObjects`: `substr(key, 1, len(prefix)) = prefix`, where SQLite counts
-- characters and Go's `len` counts bytes.
use telang.Common.{
  ℕ, ◌≤◌, ◌<◌, ◌≡◌, refl, ap, false, ◌&&◌, [], ◌∷◌, ◌++◌, Str, str_eq, eq_of_str_eq, length, take,
  arith, Bool-cases, inl, inr, has_prefix, length-take, length-append,
}
use telang.Metadata.Order.{cmp_str}
use telang.Metadata.Store.{Object, byte_len, is_listed, is_gt}

abbrev pub IsAscii : Str → Type 0
IsAscii [] = Unit
IsAscii (c ∷ s) = (c < 128) × IsAscii s

byte_len-ascii : (s : Str) → IsAscii s → byte_len s ≡ length s
unfolding byte_len
byte_len-ascii [] h = refl
byte_len-ascii (c ∷ s) (a, h) = ground (arith, byte_len-ascii s h)

-- Every character has a byte at least, and one that is not ASCII has more.
length-le-byte_len : (s : Str) → length s ≤ byte_len s
unfolding byte_len
length-le-byte_len [] = omega arith
length-le-byte_len (c ∷ s) = ground (arith, length-le-byte_len s)

take_prefix : (key prefix : Str) → str_eq (take (length prefix) key) prefix ≡ has_prefix key prefix
unfolding str_eq has_prefix
take_prefix key [] = refl
take_prefix [] (p ∷ ps) = refl
take_prefix (c ∷ key) (p ∷ ps) = rw (take_prefix key ps)

-- With an ASCII prefix, the WHERE clause of ListObjects selects a row exactly if its bucket is
-- the one listed, its key lies behind `start_after`, and its key begins with the prefix.
pub is_listed-ascii :
    (bucket prefix start_after : Str) (o : Object)
    → IsAscii prefix
    → is_listed bucket prefix start_after o
      ≡ (str_eq o.bucket bucket && is_gt (cmp_str o.key start_after) && has_prefix o.key prefix)
unfolding is_listed
is_listed-ascii bucket prefix start_after o h =
    rw (byte_len-ascii prefix h, take_prefix o.key prefix)

-- With a prefix that has more bytes than characters, the WHERE clause of ListObjects selects no
-- row whose key is the prefix and at least one character behind it.
pub is_listed_misses :
    (bucket prefix start_after : Str) (o : Object) (c : ℕ) (behind : Str)
    → length prefix < byte_len prefix
    → o.key ≡ prefix ++ c ∷ behind
    → is_listed bucket prefix start_after o ≡ false
unfolding is_listed
is_listed_misses bucket prefix start_after o c behind longer e =
    let different : str_eq (take (byte_len prefix) o.key) prefix ≡ false = too_long in ground arith
  where
    too_long : str_eq (take (byte_len prefix) o.key) prefix ≡ false
    too_long = elim (Bool-cases (str_eq (take (byte_len prefix) o.key) prefix)) [
      | inl same ↦ absurd (
          omega (
            arith,
            ap length (eq_of_str_eq _ _ same),
            length-take (byte_len prefix) o.key,
            ap length e,
            length-append prefix (c ∷ behind),
          ))
      | inr other ↦ other
    ]
