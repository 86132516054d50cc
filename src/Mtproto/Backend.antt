-- ===== src/Mtproto/Backend.antt =====
-- internal/storage/mtproto/mtproto.go: Put, Get, Exists and Delete.
use telang.Common.{
  ℕ, ◌*◌, Bool, true, false, Option, none, some, Str, codes, contains, ltb, if◌then◌else◌, Result,
  ok, err,
}
use telang.Common.Decimal.{format_int}
use telang.Crypto.Stream.{ReadError}
use telang.S3.Router.{is_empty}
use telang.Storage.Interface.{Ref, PutResult, StorageError, too_large, not_found, other_failure}
use telang.Mtproto.Messages.{
  Document, MessagesReply, UpdatesReply, messages_of, find_document, extract_document_message,
}

-- `MaxObjectSize`
abbrev pub max_object_size : ℕ
max_object_size = 2000 * 1024 * 1024

-- The client of the channel, whose package is not in the repository: each call with the state `S` it
-- meets and leaves. An error is its text, and `F` an uploaded file.
pub record Client (S F : Type 0) : Type 0 where
  pub upload : Str → ℕ → Str → ReadError → S → Result Str F × S
  -- `MessagesSendMedia`, with the file, its name and the random id.
  pub send_media : F → Str → ℕ → S → Result Str UpdatesReply × S
  pub get_messages : ℕ → S → Result Str MessagesReply × S
  pub delete_messages : ℕ → S → Result Str (Unit {0}) × S
  pub download : Document → S → Str × ReadError

module _ {S F : Type 0} (c : Client S F) where
  -- `resolveDocument` behind the call.
  unfoldable pub read_messages : Result Str MessagesReply → Result StorageError Document
  read_messages (err e) = err other_failure
  read_messages (ok reply) = elim (messages_of reply) [
    | none ↦ err other_failure
    | some ms ↦ elim (find_document ms) [ some d ↦ ok d | none ↦ err not_found ]
  ]

  -- `resolveDocument`
  unfoldable pub resolve_document : ℕ → S → Result StorageError Document × S
  unfolding read_messages
  resolve_document msg_id s = let (reply, s') = c.get_messages msg_id s in (read_messages reply, s')

  -- `Put` behind `MessagesSendMedia`.
  unfoldable pub sent_result : ℕ → Result Str UpdatesReply → Result StorageError PutResult
  sent_result size (err e) = err other_failure
  sent_result size (ok reply) = elim (extract_document_message reply) [
    | none ↦ err other_failure
    | some (msg_id, doc_id) ↦
        ok (record {
          ref = record { message_id = msg_id; file_id = format_int doc_id };
          size = size;
        })
  ]

  -- `Put` behind the upload. `random` is the random id, unless `rand.Read` fails.
  unfoldable pub send_file :
      Str → ℕ → Option ℕ → Result Str F × S → Result StorageError PutResult × S
  unfolding sent_result
  send_file name size random (err e, s) = (err other_failure, s)
  send_file name size none (ok file, s) = (err other_failure, s)
  send_file name size (some id) (ok file, s) =
      let (reply, s') = c.send_media file name id s in (sent_result size reply, s')

  -- `Put`, with the reader's bytes and how they end.
  unfoldable pub put : Option ℕ → Str → ℕ → Str → ReadError → S → Result StorageError PutResult × S
  unfolding send_file
  put random name size body end_ s =
      let name' = if is_empty name then codes "blob" else name in
      if ltb max_object_size size
      then (err too_large, s)
      else send_file name' size random (c.upload name' size body end_ s)

  unfoldable pub got : Result StorageError Document → S → Result StorageError (Str × ReadError)
  got (err e) s = err e
  got (ok d) s = ok (c.download d s)

  -- `Get`: the pipe delivers what the download writes.
  unfoldable pub get : Ref → S → Result StorageError (Str × ReadError) × S
  unfolding got
  get ref s = let (found, s') = resolve_document ref.message_id s in (got found s', s')

  unfoldable pub document_exists : Result StorageError Document → Result StorageError Bool
  document_exists (ok d) = ok true
  document_exists (err not_found) = ok false
  document_exists (err e) = err e

  -- `Exists`
  unfoldable pub exists : Ref → S → Result StorageError Bool × S
  unfolding document_exists
  exists ref s = let (found, s') = resolve_document ref.message_id s in (document_exists found, s')

  unfoldable pub deleted : Result Str (Unit {0}) → Result StorageError (Unit {0})
  deleted (ok u) = ok u
  deleted (err e) = if contains e (codes "MESSAGE_ID_INVALID") then ok tt else err other_failure

  -- `Delete`
  unfoldable pub delete : Ref → S → Result StorageError (Unit {0}) × S
  unfolding deleted
  delete ref s = let (gone, s') = c.delete_messages ref.message_id s in (deleted gone, s')
