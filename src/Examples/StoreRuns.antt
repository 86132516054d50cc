-- ===== src/Examples/StoreRuns.antt =====
-- The theorems about internal/metadata and internal/keys on small tables.
use telang.Common.{◌≡◌, refl, ◌∷◌, [], false, ◌&&◌, none, str_eq, codes, arith, has_prefix}
use telang.Metadata.Order.{cmp_str}
use telang.Metadata.Store.{Object, Db, put_object, get_object, is_listed, is_gt, byte_len}
use telang.Metadata.Laws.{get-put_object_ne}
use telang.Metadata.Prefix.{is_listed-ascii, is_listed_misses}
use telang.Metadata.Reachable.{empty_db}
use telang.Keys.{KeyStore, get_key, remove_key, get-remove_key_failed}

abbrev cat : Object
cat = record {
  bucket = codes "pets";
  key = codes "cat.jpg";
  size = 3;
  ciphertext_size = 36;
  etag = codes "e";
  content_type = [];
  message_id = 7;
  file_id = [];
  nonce = [];
  created_at = 0;
}

abbrev one_bucket : Db
one_bucket = record empty_db {
  buckets = record { name = codes "pets"; created_at = 1; enc_key_id = codes "pets" } ∷ [];
}

abbrev one_object : Db
one_object = record one_bucket { objects = cat ∷ [] }

get-put_object_ne_example :
    get_object (codes "pets") (codes "dog.jpg") (put_object 5 none cat one_bucket)
    ≡ get_object (codes "pets") (codes "dog.jpg") one_bucket
get-put_object_ne_example =
    get-put_object_ne 5 none cat one_bucket (codes "pets") (codes "dog.jpg") (λ e. ground arith)

is_listed-ascii_example : is_listed (codes "pets") (codes "ca") [] cat ≡ (
    str_eq cat.bucket (codes "pets")
    && is_gt (cmp_str cat.key [])
    && has_prefix cat.key (codes "ca"))
is_listed-ascii_example = is_listed-ascii (codes "pets") (codes "ca") [] cat (ground arith)

-- The key "é1", with the prefix "é" of two bytes.
is_listed_misses_example :
    is_listed (codes "pets") (233 ∷ []) [] (record cat { key = 233 ∷ codes "1" }) ≡ false
unfolding byte_len
is_listed_misses_example =
    is_listed_misses (codes "pets") (233 ∷ []) [] (record cat { key = 233 ∷ codes "1" }) 49 []
      (omega arith) refl

abbrev no_keys : KeyStore
no_keys = record { keys = []; file = [] }

abbrev one_key : KeyStore
one_key = record { keys = record { bucket = codes "pets"; key = codes "k" } ∷ []; file = [] }

get-remove_key_failed_example :
    get_key (codes "pets") (remove_key false (codes "pets") one_key).1
    ≡ get_key (codes "pets") one_key
get-remove_key_failed_example = get-remove_key_failed (codes "pets") (codes "pets") one_key
