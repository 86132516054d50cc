-- ===== src/Examples/UploadRuns.antt =====
-- The multipart uploads, the handlers, the listing and the index at concrete inputs.
use telang.Common.{
  true, ℕ, ◌≡◌, refl, false, [], ◌∷◌, ◌++◌, Option, some, none, Result, List, Str, codes, str_eq,
  ok, arith, pos,
}
use telang.Common.Decimal.{format_int}
use telang.Crypto.Stream.{eof}
use telang.Metadata.Reachable.{empty_db}
use telang.Metadata.Store.{Db, Object, MultipartUpload}
use telang.Metadata.Table.{find}
use telang.Metadata.Multipart.{get_multipart}
use telang.Metadata.Refinement.{
  put_op, get_op, delete_op, Holds, store_run, shelf_run, store_run-shelf_run,
}
use telang.S3.Listing.{Page, start_page, list_loop}
use telang.S3.ListLoop.{list_loop_total}
use telang.S3.Errors.{S3Error}
use telang.Service.World.{World}
use telang.Service.Objects.{PutInput, get_object}
use telang.Service.Uploads.{AllSound}
use telang.Multipart.Staging.{PartFile, Staging, RequestPart}
use telang.Multipart.Operations.{
  abort_multipart, PartInput, CreateInput, complete_multipart, create_multipart, upload_part,
  abort_multipart,
}
use telang.Multipart.Staged.{IsStaged, AreParts, content_of}
use telang.Multipart.ReadBack.{get_object-complete_multipart}
use telang.Multipart.Steps.{
  Reaches, start, then_step, create_step, upload_part_step, abort_step, Reaches-IsStaged,
}
use telang.Handlers.Bodies.{PutRequest, StageInput, works, put_body_size}
use telang.Handlers.Replies.{Reply}
use telang.Handlers.Objects
use telang.Handlers.Objects.{object_reply}
use telang.Handlers.Delivery.{get_object-put_object_200}
use telang.Examples.Toy.{toy_external, toy_KeepsBlobs}
use telang.Examples.ServiceRuns.{before, input, stored}

empty_Holds : Holds empty_db (λ b k. none)
unfolding find
empty_Holds = record { holds = λ b k. refl }

store_run-shelf_run_example :
    store_run
      (put_op 5 none stored
        ∷ get_op (codes "pets") (codes "cat")
        ∷ delete_op (codes "pets") (codes "cat")
        ∷ get_op (codes "pets") (codes "cat")
        ∷ [])
      empty_db
    ≡ shelf_run
        (put_op 5 none stored
          ∷ get_op (codes "pets") (codes "cat")
          ∷ delete_op (codes "pets") (codes "cat")
          ∷ get_op (codes "pets") (codes "cat")
          ∷ [])
        (λ b k. none)
store_run-shelf_run_example =
    store_run-shelf_run
      (put_op 5 none stored
        ∷ get_op (codes "pets") (codes "cat")
        ∷ delete_op (codes "pets") (codes "cat")
        ∷ get_op (codes "pets") (codes "cat")
        ∷ [])
      empty_db (λ b k. none) empty_Holds

abbrev one_object : Db
one_object = record empty_db { objects = stored ∷ [] }

list_loop_total_example :
    (p' : Page) × (list_loop one_object (codes "pets") [] [] 10 2 (start_page []) ≡ some p')
list_loop_total_example =
    list_loop_total one_object (codes "pets") [] [] 10 2 (start_page []) (omega arith)

-- An upload of one part, from an index and a staging directory that hold none.
abbrev no_parts : Staging Str
no_parts = record { world = before; files = [] }

no_parts-IsStaged : IsStaged toy_external (λ u. u) no_parts
unfolding find
no_parts-IsStaged = record {
  backed = λ u n m p a b. absurd (ground arith);
  owned = λ u n p b. absurd (ground arith);
  placed = λ u m a. absurd (ground arith);
}

abbrev create_input : CreateInput
create_input = record { id = codes "u"; now = 1; mkdir_fails = false }

abbrev part_input : PartInput
part_input = record {
  src = codes "meow!!";
  read_fails = false;
  write_fails = false;
  index_fails = false;
}

abbrev created : Staging Str
created =
    (create_multipart toy_external (λ u. u) create_input (codes "pets") (codes "cat") no_parts).1

abbrev one_part : Staging Str
one_part = (upload_part toy_external part_input (codes "u") 1 6 created).1

fresh :
    find telang.Metadata.Order.str_key telang.Metadata.Store.upload_key
      (codes "u")
      before.db.uploads
    ≡ none
unfolding find
fresh = refl

to_one_part : Reaches toy_external (λ u. u) str_eq no_parts one_part
to_one_part =
    then_step created one_part
      (then_step no_parts created start
        (create_step create_input (codes "pets") (codes "cat") fresh))
      (upload_part_step part_input (codes "u") 1 6 refl)

-- The abort whose rows stay, since DeleteMultipart fails.
abbrev half_aborted : Staging Str
half_aborted = (abort_multipart toy_external true (codes "u") one_part).1

to_half_aborted : Reaches toy_external (λ u. u) str_eq no_parts half_aborted
to_half_aborted = then_step one_part half_aborted to_one_part (abort_step true (codes "u"))

Reaches-IsStaged_example : IsStaged toy_external (λ u. u) half_aborted
Reaches-IsStaged_example =
    Reaches-IsStaged toy_external (λ u. u) (λ a b e. e) str_eq no_parts half_aborted
      no_parts-IsStaged to_half_aborted

one_part-IsStaged : IsStaged toy_external (λ u. u) one_part
one_part-IsStaged =
    Reaches-IsStaged toy_external (λ u. u) (λ a b e. e) str_eq no_parts one_part no_parts-IsStaged
      to_one_part

abbrev parts : List RequestPart
parts = record { part_number = pos 1; etag = codes "\"meow!!\"" } ∷ []

abbrev the_upload : MultipartUpload
the_upload = record {
  upload_id = codes "u";
  bucket = codes "pets";
  key = codes "cat";
  staging_dir = codes "u";
  created_at = 1;
}

abbrev completed : Object
completed = record stored { etag = [] ++ codes "-1" }

abbrev finished : Staging Str
finished =
    (complete_multipart toy_external str_eq false input (codes "pets") (codes "cat") (codes "u")
      parts [] one_part).1

is_upload : get_multipart (codes "u") one_part.world.db ≡ ok the_upload
unfolding get_multipart create_multipart upload_part find telang.Metadata.Store.get_bucket
    telang.Metadata.Order.cmp_str telang.Metadata.Multipart.create_multipart
    telang.Metadata.Table.put telang.Metadata.Multipart.upsert_part
is_upload = refl

is_finished :
    complete_multipart toy_external str_eq false input
      (codes "pets")
      (codes "cat")
      (codes "u")
      parts
      []
      one_part
    ≡ (ok completed, finished)
unfolding get_multipart create_multipart upload_part find telang.Metadata.Store.get_bucket
    telang.Metadata.Order.cmp_str telang.Metadata.Multipart.create_multipart
    telang.Metadata.Table.put telang.Metadata.Multipart.upsert_part complete_multipart str_eq
    telang.Multipart.Staging.collect telang.Multipart.Staging.part_of
    telang.Metadata.Multipart.list_parts telang.Multipart.Staging.trim_quotes
    telang.Service.World.cipher_for telang.Keys.get_key telang.Crypto.Layout.new_cipher
    telang.Service.Objects.upload telang.Crypto.Layout.ciphertext_size format_int
    telang.Metadata.Order.then_by telang.Multipart.Operations.finish
    telang.Multipart.Operations.deleted_world telang.Service.Objects.new_object
    telang.Multipart.Staging.trim_left_quotes telang.Multipart.Staging.trim_right_quotes
    telang.Multipart.Operations.record_part telang.Multipart.Staging.add_part
    telang.Multipart.Staging.hex_decode telang.SigV4.Text.hex_byte telang.SigV4.Text.unhex
    telang.Service.Objects.record_object telang.Multipart.Operations.combined_etag
    telang.Multipart.Operations.assemble
is_finished = refl

one_part-AllSound : AllSound one_part.world.ciphers
unfolding get_multipart create_multipart upload_part find telang.Metadata.Store.get_bucket
    telang.Metadata.Order.cmp_str telang.Metadata.Multipart.create_multipart
    telang.Metadata.Table.put telang.Metadata.Multipart.upsert_part
one_part-AllSound = tt

get_object-complete_multipart_example :
    (fs : List PartFile) × AreParts toy_external str_eq (codes "u") one_part.files parts fs
    × ((get_object toy_external (codes "pets") (codes "cat") finished.world).0
        ≡ ok (completed, (content_of fs, eof)))
get_object-complete_multipart_example =
    get_object-complete_multipart toy_external toy_KeepsBlobs str_eq (λ u. u) false input
      (codes "pets") (codes "cat") (codes "u") parts [] one_part finished the_upload completed
      one_part-IsStaged one_part-AllSound refl (omega arith) is_upload is_finished

abbrev cat_request : PutRequest
cat_request = record {
  decoded_content_length = [];
  content_length = pos 6;
  content_type = [];
  body = codes "meow!!" ++ codes "rest";
}

abbrev disk : StageInput
disk = record { mkdir_fails = false; create = works; copy = works; seek_fails = false }

abbrev toy_time : ℕ → Str
toy_time n = []

abbrev put_cat : Reply × World Str
put_cat =
    Objects.put_object toy_external toy_time disk input (codes "pets") (codes "cat") cat_request
      before

is_sized : ◌≡◌ {A = Result S3Error (Option ℕ)} (put_body_size cat_request) (ok (some 6))
unfolding put_body_size
is_sized = refl

was_ok : put_cat.0.status ≡ 200
unfolding Objects.put_object put_body_size telang.Service.Objects.put_object
    telang.Metadata.Store.get_bucket find telang.Metadata.Order.cmp_str
    telang.Service.World.cipher_for telang.Keys.get_key telang.Crypto.Layout.new_cipher
    telang.Service.Objects.upload telang.Crypto.Layout.ciphertext_size
    telang.Service.Objects.new_object telang.Handlers.Objects.stored_reply
was_ok = refl

get_object-put_object_200_example :
    (o : Object) × (o.size ≡ 6)
    × ((Objects.get_object toy_external toy_time (codes "pets") (codes "cat") [] put_cat.1).0
        ≡ record (object_reply toy_external toy_time 200 o) {
          content_length = format_int o.size;
          body = codes "meow!!";
        })
get_object-put_object_200_example =
    get_object-put_object_200 toy_external toy_time toy_KeepsBlobs disk input (codes "pets")
      (codes "cat") cat_request before put_cat.1 (some 6) put_cat.0 tt refl (omega arith) is_sized
      refl refl was_ok
