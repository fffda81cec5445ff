-- ===== src/Chat/Message.antt =====
-- src/modules/chat/message.service.ts and sequence.service.ts. An empty text is not an id: a parent is
-- given or not.
use multi_tenant_collaborati.Common.{
  ℕ, String, not, Option, none, some, List, ◌∷◌, is_some, ok, Action, pure, throw, gets, throw_if,
  modify, ◌>>=◌, ◌>>◌, AppError, app_error, forbidden_error, not_found_error, unprocessable_error,
}
use multi_tenant_collaborati.Chat.Row.{
  ChatMessageRow, CreateMessageData, ChannelSequence, message_created, ChatDb,
}
use multi_tenant_collaborati.Chat.Repository.{
  is_channel_member, next_sequence, find_by_client_message_id, find_message, new_message,
  list_by_channel, soft_delete_message,
}

pub record SendMessageInput : Type 0 where
  pub channel_id : ℕ
  pub sender_id : ℕ
  pub body : String
  pub body_parsed : Option String
  pub client_message_id : ℕ
  pub parent_message_id : Option ℕ

-- The database's error where a channel has no sequence.
abbrev pub no_sequence_error : AppError
no_sequence_error = app_error 500 "INTERNAL_ERROR"

abbrev pub take_sequence : Option (ℕ × List ChannelSequence) → Action ChatDb ℕ
take_sequence none db = throw no_sequence_error db
take_sequence (some (n, rows)) db = (ok n, record db { sequences = rows })

-- The check of the parent, if there is one: only one level of threads.
abbrev pub check_parent : Option ChatMessageRow → Action ChatDb (Unit {0})
check_parent none = throw not_found_error
check_parent (some parent) = do
  throw_if (is_some parent.deleted_at) (unprocessable_error "PARENT_DELETED")
  throw_if (is_some parent.parent_message_id) (unprocessable_error "THREADING_DEPTH_EXCEEDED")

unfoldable pub check_thread : ℕ → Option ℕ → Action ChatDb (Unit {0})
check_thread channel none db = (ok tt, db)
check_thread channel (some id) db = check_parent (find_message id channel db.messages) db

abbrev pub message_data : ℕ → SendMessageInput → ℕ → CreateMessageData
message_data org input sequence = record {
  org_id = org;
  channel_id = input.channel_id;
  sender_id = input.sender_id;
  client_message_id = input.client_message_id;
  sequence_number = sequence;
  body = input.body;
  body_parsed = input.body_parsed;
  parent_message_id = input.parent_message_id;
}

-- The insert with its outbox event.
unfoldable pub create_message : ℕ → ℕ → ℕ → SendMessageInput → ℕ → ChatDb → ChatDb
create_message new_id now org input sequence db = record db {
  messages = new_message new_id now (message_data org input sequence) ∷ db.messages;
  outbox = message_created new_id input.channel_id org input.sender_id sequence ∷ db.outbox;
}

unfoldable pub send_new : ℕ → ℕ → ℕ → SendMessageInput → Action ChatDb ChatMessageRow
send_new new_id now org input = do
  check_thread input.channel_id input.parent_message_id
  next ← gets (λ db. next_sequence input.channel_id db.sequences)
  sequence ← take_sequence next
  modify (create_message new_id now org input sequence)
  pure (new_message new_id now (message_data org input sequence))

abbrev pub existing_message :
    Option ChatMessageRow → Action ChatDb ChatMessageRow → Action ChatDb ChatMessageRow
existing_message (some message) send_it = pure message
existing_message none send_it = send_it

unfoldable pub send : ℕ → ℕ → ℕ → SendMessageInput → Action ChatDb ChatMessageRow
send new_id now org input = do
  is_member ← gets (λ db. is_channel_member input.channel_id input.sender_id db.members)
  throw_if (not is_member) (forbidden_error "NOT_CHANNEL_MEMBER")
  existing ←
      gets (λ db. find_by_client_message_id input.channel_id input.client_message_id db.messages)
  existing_message existing (send_new new_id now org input)

unfoldable pub list_messages : ℕ → ℕ → ℕ → Option ℕ → Action ChatDb (List ChatMessageRow)
list_messages channel user limit before = do
  is_member ← gets (λ db. is_channel_member channel user db.members)
  throw_if (not is_member) (forbidden_error "NOT_CHANNEL_MEMBER")
  gets (λ db. list_by_channel channel limit before db.messages)

-- `channelId` is not looked at.
unfoldable pub delete_message : ℕ → ℕ → ℕ → ℕ → ℕ → Action ChatDb (Unit {0})
delete_message now org message channel user db =
    let (deleted, rows) = soft_delete_message now org message user db.messages in
    throw_if (not deleted) not_found_error (record db { messages = rows })
