-- ===== src/Mtproto/Messages.antt =====
-- internal/storage/mtproto/mtproto.go: the answers of the Telegram client, and what is read of them.
use telang.Common.{ℕ, Option, none, some, List, [], ◌∷◌, Str}

-- `tg.Document`
pub record Document : Type 0 where
  pub id : ℕ
  pub access_hash : ℕ
  pub file_reference : Str

-- `tg.DocumentClass`, `tg.MessageMediaClass` and `tg.MessageClass`: the constructors that the
-- backend asks for, and the others.
pub data DocumentClass : Type 0 where
  document : Document → DocumentClass
  other_document : DocumentClass

pub data Media : Type 0 where
  media_document : DocumentClass → Media
  other_media : Media

pub data Message : Type 0 where
  message : ℕ → Media → Message
  other_message : Message

-- `tg.MessagesMessagesClass`
pub data MessagesReply : Type 0 where
  messages messages_slice channel_messages : List Message → MessagesReply
  other_messages : MessagesReply

-- `tg.UpdateClass` and `tg.UpdatesClass`. `UpdateMessageID` is one of the other updates.
pub data Update : Type 0 where
  new_channel_message : Message → Update
  other_update : Update

pub data UpdatesReply : Type 0 where
  updates updates_combined : List Update → UpdatesReply
  update_short : Update → UpdatesReply
  other_updates : UpdatesReply

-- The type assertions on a message: its id and its document.
unfoldable pub document_of : Message → Option (ℕ × Document)
document_of (message id (media_document (document d))) = some (id, d)
document_of _ = none

-- The loop of `resolveDocument`.
unfoldable pub find_document : List Message → Option Document
unfolding document_of
find_document [] = none
find_document (m ∷ ms) = elim (document_of m) [ some (id, d) ↦ some d | none ↦ find_document ms ]

-- The list that the type switch of `resolveDocument` takes.
unfoldable pub messages_of : MessagesReply → Option (List Message)
messages_of (messages ms) = some ms
messages_of (messages_slice ms) = some ms
messages_of (channel_messages ms) = some ms
messages_of other_messages = none

-- The loop of `extractDocumentMessage`.
unfoldable pub find_sent : List Update → Option (ℕ × ℕ)
unfolding document_of
find_sent [] = none
find_sent (other_update ∷ us) = find_sent us
find_sent (new_channel_message m ∷ us) = elim (document_of m) [
  | some (id, d) ↦ some (id, d.id)
  | none ↦ find_sent us
]

-- `extractDocumentMessage`
unfoldable pub extract_document_message : UpdatesReply → Option (ℕ × ℕ)
unfolding find_sent
extract_document_message (updates us) = find_sent us
extract_document_message (updates_combined us) = find_sent us
extract_document_message (update_short u) = find_sent (u ∷ [])
extract_document_message other_updates = none
