-- ===== src/Examples/ServiceRuns.antt =====
-- A PUT and the GETs behind it, on a world of one bucket.
use telang.Common.{◌≡◌, refl, ◌++◌, ◌∷◌, [], false, Str, codes, take, drop, replicate, ok, arith}
use telang.Crypto.Stream.{eof}
use telang.Metadata.Reachable.{empty_db}
use telang.Metadata.Store.{Object}
use telang.Service.World.{World}
use telang.Service.Objects.{PutInput, put_object, get_object, get_object_range}
use telang.Service.RoundTrip.{get_object-put_object, get_object_range-put_object}
use telang.Service.Uploads.{AllSound}
use telang.Service.Ciphers.{put_object-AllSound}
use telang.Examples.Toy.{base, toy_external, toy_KeepsBlobs}

abbrev pub before : World Str
before = record {
  db = record empty_db {
    buckets = record { name = codes "pets"; created_at = 1; enc_key_id = codes "pets" } ∷ [];
  };
  keys = record { keys = record { bucket = codes "pets"; key = replicate 32 9 } ∷ []; file = [] };
  ciphers = [];
  ext = [];
}

abbrev pub input : PutInput
input = record { now = 5; base = base; index_fails = false }

abbrev pub stored : Object
stored = record {
  bucket = codes "pets";
  key = codes "cat";
  size = 6;
  ciphertext_size = 55;
  etag = codes "meow!!";
  content_type = [];
  message_id = 1;
  file_id = [];
  nonce = base;
  created_at = 5;
}

abbrev after : World Str
after =
    (put_object toy_external input (codes "pets") (codes "cat") [] 6
      (codes "meow!!" ++ codes "rest") before).1

was_put :
    put_object toy_external input
      (codes "pets")
      (codes "cat")
      []
      6
      (codes "meow!!" ++ codes "rest")
      before
    ≡ (ok stored, after)
unfolding put_object telang.Metadata.Store.get_bucket telang.Metadata.Table.find
    telang.Metadata.Order.cmp_str telang.Service.World.cipher_for telang.Keys.get_key
    telang.Crypto.Layout.new_cipher telang.Service.Objects.upload
    telang.Crypto.Layout.ciphertext_size telang.Service.Objects.new_object
was_put = refl

get_object-put_object_example :
    (get_object toy_external (codes "pets") (codes "cat") after).0
    ≡ ok (stored, (codes "meow!!", eof))
get_object-put_object_example =
    get_object-put_object toy_external toy_KeepsBlobs input (codes "pets") (codes "cat") []
      (codes "meow!!") (codes "rest") before after stored tt refl (omega arith) was_put

get_object_range-put_object_example :
    (get_object_range toy_external (codes "pets") (codes "cat") 1 4 after).0
    ≡ ok (stored, ok (take 4 (drop 1 (codes "meow!!"))))
get_object_range-put_object_example =
    get_object_range-put_object toy_external toy_KeepsBlobs input (codes "pets") (codes "cat") []
      (codes "meow!!") (codes "rest") 1 4 before after stored tt refl (omega arith) was_put
      (omega arith) (omega arith)

put_object-AllSound_example :
    AllSound
      (put_object toy_external input
        (codes "pets")
        (codes "cat")
        []
        6
        (codes "meow!!" ++ codes "rest")
        before).1.ciphers
put_object-AllSound_example =
    put_object-AllSound toy_external input (codes "pets") (codes "cat") [] 6
      (codes "meow!!" ++ codes "rest") before tt
