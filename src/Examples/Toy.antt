-- ===== src/Examples/Toy.antt =====
-- The cipher and the backend of the examples.
use telang.Common.{
  ◌-◌, ◌≡◌, sym, ap, some, none, [], ◌++◌, Str, length, take, replicate, ok, arith, length-append,
  take-append,
}
use telang.Crypto.Layout.{Aead, Cipher}
use telang.Service.World.{External, open_ciphertext, open_ciphertext_at}
use telang.Service.RoundTrip.{KeepsBlobs}

abbrev pub tag : Str
tag = replicate 16 0

-- An AEAD that hides nothing: the plaintext and a tag of zeros.
pub toy_opens : (plain : Str) → take (length (plain ++ tag) - 16) (plain ++ tag) ≡ plain
toy_opens plain =
    take-append (length (plain ++ tag) - 16) plain tag (omega (arith, length-append plain tag))

abbrev pub toy_aead : Aead
toy_aead = record {
  seal = λ nonce plain aad. plain ++ tag;
  open_sealed = λ nonce sealed aad. some (take (length sealed - 16) sealed);
  open_sealed-seal = λ nonce plain aad. ap some (toy_opens plain);
  length-seal = λ nonce plain aad. length-append plain tag;
}

abbrev pub toy_cipher : Cipher
toy_cipher = record { aead = toy_aead; frame_size = 4 }

abbrev pub base : Str
base = replicate 12 7

-- A backend that keeps the last blob.
abbrev pub toy_external : External Str
toy_external = record {
  max_object_size = 1000;
  put_blob = λ name size body end_ s.
      (ok (record { ref = record { message_id = 1; file_id = [] }; size = size }), body);
  get_blob = λ ref s. (ok s, s);
  delete_blob = λ ref s. [];
  cache = none;
  md5_hex = λ s. s;
  gcm = λ key. toy_aead;
  frame_size = 4;
}

pub toy_KeepsBlobs : KeepsBlobs toy_external
unfolding open_ciphertext open_ciphertext_at
toy_KeepsBlobs = record {
  reads = λ name body s s' put e. ap (λ (r : _ × Str). ok (r.1)) (sym e);
  reads_at = λ name body s s' put e. ap (λ (r : _ × Str). ok (r.1)) (sym e);
}
