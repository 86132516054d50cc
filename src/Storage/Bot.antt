-- ===== src/Storage/Bot.antt =====
-- internal/storage/bot/bot.go: the backend's operations over the calls of the Bot API.
use telang.Common.{
  ℕ, Bool, true, false, not, ◌&&◌, ◌||◌, Option, none, some, List, [], ◌∷◌, Str, codes, str_eq,
  length, take, ltb, leb, ◌==◌, if◌then◌else◌, Result, ok, err, contains, ◌*◌,
}
use telang.Common.Decimal.{format_int}
use telang.Storage.Interface.{
  Ref, PutResult, StorageError, too_large, not_found, throttled, unavailable, other_failure,
}
use telang.Storage.BotCalls.{CallError, api_error, Client, call_with_retry, call_form}

pub record Document : Type 0 where
  pub file_id : Str
  pub file_size : ℕ

pub record Message : Type 0 where
  pub message_id : ℕ
  pub document : Option Document

-- `http.Do` of a download: an error, or a status and the body.
pub data Download : Type 0 where
  no_answer : Download
  answer : ℕ → Str → Download

-- What `Backend` is given or calls: the chat as it is printed, `max_retry`, the client, the decoders of results, the
-- printer of a form and of a multipart body, and `strings.ToLower`.
pub record Bot (S : Type 0) : Type 0 where
  pub chat_id : Str
  pub max_retry : ℕ
  pub client : Client S
  pub download : Str → S → Download × S
  pub unmarshal_message : Str → Option Message
  pub unmarshal_file_path : Str → Option Str
  pub unmarshal_bool : Str → Option Bool
  pub unmarshal_is_bot : Str → Option Bool
  pub unmarshal_chat_type : Str → Option Str
  pub encode : List (Str × Str) → Str
  pub multipart : Str → Str → Str → Str
  pub to_lower : Str → Str

-- `MaxObjectSize`
abbrev pub max_object_size : ℕ
max_object_size = 20 * 1024 * 1024

-- `classify`
unfoldable pub classify : CallError → StorageError
classify (api_error code description retry_after) =
    if code == 429
    then throttled
    else if leb 500 code && ltb code 600
    then unavailable
    else other_failure
classify e = other_failure

-- The outcome of a download's status.
unfoldable pub read_download : Download → Result StorageError Str
read_download no_answer = err unavailable
read_download (answer status body) =
    if status == 404
    then err not_found
    else if status == 429
    then err throttled
    else if leb 500 status && ltb status 600
    then err unavailable
    else if status == 200
    then ok body
    else err other_failure

-- The result of `sendDocument`, where `cut` says that the writer of the body met an error.
unfoldable pub sent_message : Bool → Result CallError Message → Result StorageError PutResult
unfolding classify
sent_message cut (err e) = err (classify e)
sent_message cut (ok m) = if cut then err other_failure else elim m.document [
  | none ↦ err other_failure
  | some d ↦ ok (record {
    ref = record { message_id = m.message_id; file_id = d.file_id };
    size = d.file_size;
  })
]

module _ {S : Type 0} (b : Bot S) where
  -- `Put`: `CopyN` takes `size` bytes of what the reader delivers, and fails if they are fewer. The
  -- writer fails as well if the client closed the pipe before it had read all.
  unfoldable pub put : Str → ℕ → Str → S → Result StorageError PutResult × S
  unfolding sent_message
  put name size src s =
      let body =
        b.multipart b.chat_id (if length name == 0 then codes "blob" else name) (take size src) in
      let (r, rest, s') =
        call_with_retry b.client b.max_retry b.unmarshal_message (codes "sendDocument")
          (record { is_pipe = true; bytes = body }) s in
      if ltb max_object_size size
      then (err too_large, s)
      else (sent_message (ltb (length src) size || ltb 0 (length rest.bytes)) r, s')

  get_file : Str → S → Result CallError Str × S
  get_file file_id =
      call_form b.client b.max_retry b.unmarshal_file_path (codes "getFile")
        (b.encode ((codes "file_id", file_id) ∷ []))

  -- `Get`
  unfoldable pub get : Ref → S → Result StorageError Str × S
  unfolding get_file classify read_download
  get ref s =
      if length ref.file_id == 0
      then (err other_failure, s)
      else (let (r, s') = get_file ref.file_id s in
          elim r [
            | err e ↦ (err (classify e), s')
            | ok path ↦
                if length path == 0
                then (err other_failure, s')
                else (let (d, s'') = b.download path s' in (read_download d, s''))
          ])

  -- The descriptions by which Telegram says that a file is gone.
  unfoldable pub says_gone : CallError → Bool
  says_gone (api_error code description retry_after) =
      let d = b.to_lower description in
      code == 400
      && (contains d (codes "not found")
          || contains d (codes "invalid")
          || contains d (codes "wrong"))
  says_gone e = false

  -- `Exists`
  unfoldable pub exists : Ref → S → Result CallError Bool × S
  unfolding get_file says_gone
  exists ref s =
      if length ref.file_id == 0
      then (ok false, s)
      else (let (r, s') = get_file ref.file_id s in
          elim r [
            | ok path ↦ (ok (not (length path == 0)), s')
            | err e ↦ if says_gone e then (ok false, s') else (err e, s')
          ])

  unfoldable pub says_deleted : CallError → Bool
  says_deleted (api_error code description retry_after) =
      code == 400 && contains (b.to_lower description) (codes "not found")
  says_deleted e = false

  -- `Delete`
  unfoldable pub delete : Ref → S → Result CallError (Unit {0}) × S
  unfolding says_deleted
  delete ref s =
      let form =
        (codes "chat_id", b.chat_id) ∷ (codes "message_id", format_int ref.message_id) ∷ [] in
      let (r, s') =
        call_form b.client b.max_retry b.unmarshal_bool (codes "deleteMessage") (b.encode form) s in
      elim r [ ok _ ↦ (ok tt, s') | err e ↦ if says_deleted e then (ok tt, s') else (err e, s') ]

  -- `Probe`: whether the daemon may start.
  unfoldable pub probe : S → Bool × S
  probe s =
      let (me, s') = call_form b.client b.max_retry b.unmarshal_is_bot (codes "getMe") [] s in
      let (chat, s'') =
        call_form b.client b.max_retry b.unmarshal_chat_type (codes "getChat")
          (b.encode ((codes "chat_id", b.chat_id) ∷ [])) s' in
      elim me [
        | err e ↦ (false, s')
        | ok is_bot ↦
            if is_bot
            then elim chat [
              | err e ↦ (false, s'')
              | ok t ↦ (
                str_eq t (codes "channel")
                    || str_eq t (codes "supergroup")
                    || str_eq t (codes "group"),
                s'',
              )
            ]
            else (false, s')
      ]
