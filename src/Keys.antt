-- ===== src/Keys.antt =====
-- internal/keys/keys.go: the per-bucket keys, in memory and in keys.toml.
use telang.Common.{
  ℕ, ◌≡◌, ◌≢◌, Bool, false, none, some, List, [], ◌∷◌, Str, length, ◌==◌, if◌then◌else◌, Result, ok,
  err, arith, Option-cases, Bool-cases, inl, inr, str_eq, str_eq_iff, eq_of_str_eq,
}
use telang.Common.Base64.{encode_base64}
use telang.Metadata.Order.{str_key}
use telang.Metadata.Table.{find, put, remove, find-put_self, find-put_ne, find-remove_ne}

abbrev pub key_len : ℕ
key_len = 32

pub record BucketKey : Type 0 where
  pub bucket : Str
  pub key : Str

abbrev pub name_of : BucketKey → Str
name_of r = r.bucket

-- A line of keys.toml: the name of the bucket, and its key in base64, both quoted by `%q`.
pub record KeyLine : Type 0 where
  pub bucket : Str
  pub text : Str

-- `Store`: the map, in the order of the names, and the lines that keys.toml holds below its two
-- lines of comment since the last flush that did not fail.
pub record KeyStore : Type 0 where
  pub keys : List BucketKey
  pub file : List KeyLine

-- The lines that `flushLocked` writes.
unfoldable pub key_lines : List BucketKey → List KeyLine
unfolding encode_base64
key_lines [] = []
key_lines (r ∷ rs) = record { bucket = r.bucket; text = encode_base64 r.key } ∷ key_lines rs

pub data KeyError : Type 0 where
  no_key key_exists flush_failed : KeyError
  bad_length : Str → KeyError

-- `Get`
unfoldable pub get_key : Str → KeyStore → Result KeyError Str
get_key bucket s = elim (find str_key name_of bucket s.keys) [
  | none ↦ err no_key
  | some r ↦ ok r.key
]

-- `Create`: `k` is what `rand.Read` gave and `written` says whether `flushLocked` succeeded. The
-- rename makes the file change whole or not at all.
unfoldable pub create_key : Str → Bool → Str → KeyStore → Result KeyError Str × KeyStore
create_key k written bucket s = elim (find str_key name_of bucket s.keys) [
  | some r ↦ (err key_exists, s)
  | none ↦
      let keys = put str_key name_of (record { bucket = bucket; key = k }) s.keys in
      if written
      then (ok k, record { keys = keys; file = key_lines keys })
      else (err flush_failed, record s { keys = remove str_key name_of bucket keys })
]

-- `Remove`: a failed flush puts the saved key back.
unfoldable pub remove_key : Bool → Str → KeyStore → Result KeyError (Unit {0}) × KeyStore
remove_key written bucket s = elim (find str_key name_of bucket s.keys) [
  | none ↦ (err no_key, s)
  | some r ↦
      let keys = remove str_key name_of bucket s.keys in
      if written then (ok tt, record { keys = keys; file = key_lines keys }) else (
        err flush_failed,
        record s { keys = put str_key name_of (record { bucket = bucket; key = r.key }) keys },
      )
]

-- The entries that `Load` reads, with the base64 of the file decoded: every key has 32 bytes.
unfoldable pub load_keys : List BucketKey → List BucketKey → Result KeyError (List BucketKey)
load_keys [] done = ok done
load_keys (r ∷ raw) done =
    let rest = load_keys raw (put str_key name_of r done) in
    if length r.key == key_len then rest else err (bad_length r.bucket)

-- Whether Create for one bucket succeeds or fails, Get of another bucket returns what it did
-- before.
get-create_key_ne :
    (k bucket other : Str) (written : Bool) (s : KeyStore)
    → other ≢ bucket
    → get_key other (create_key k written bucket s).1 ≡ get_key other s
unfolding get_key create_key
get-create_key_ne k bucket other written s h =
    let row : BucketKey = record { bucket = bucket; key = k } in
    let kept = find-put_ne str_key name_of other row s.keys h in
    let dropped = find-remove_ne str_key name_of other bucket (put str_key name_of row s.keys) h in
    ground (arith, kept, dropped)

-- A Remove whose write of the file fails leaves what Get returns for every bucket as it was.
pub get-remove_key_failed :
    (bucket other : Str) (s : KeyStore)
    → get_key other (remove_key false bucket s).1 ≡ get_key other s
unfolding get_key remove_key
get-remove_key_failed bucket other s = elim (Option-cases (find str_key name_of bucket s.keys)) [
  | inl e ↦ ground arith
  | inr (r, e) ↦
      let row : BucketKey = record { bucket = bucket; key = r.key } in
      let left = remove str_key name_of bucket s.keys in
      elim (Bool-cases (str_eq other bucket)) [
        | inl same ↦
            ground (arith, eq_of_str_eq other bucket same, find-put_self str_key name_of row left)
        | inr other_one ↦
            let ne : other ≢ bucket = λ q. cc (other_one, (str_eq_iff other bucket).1 q) in
            ground (
              arith,
              find-put_ne str_key name_of other row left ne,
              find-remove_ne str_key name_of other bucket s.keys ne,
            )
      ]
]
