-- ===== src/Chat/Row.antt =====
-- The rows of src/modules/chat: ids are numbers, bodies texts, dates milliseconds since the epoch.
use multi_tenant_collaborati.Common.{ℕ, String, Option, List}
use multi_tenant_collaborati.Organization.Membership.{MembershipRow}

pub data ChannelType : Type 0 where
  direct group : ChannelType

pub record ChannelRow : Type 0 where
  pub id : ℕ
  pub org_id : ℕ
  pub channel_type : ChannelType
  pub name : Option String
  pub created_by : ℕ
  pub workspace_id : Option ℕ
  pub deleted_at : Option ℕ
  pub created_at : ℕ
  pub updated_at : ℕ

pub record ChannelMemberRow : Type 0 where
  pub channel_id : ℕ
  pub user_id : ℕ
  pub org_id : ℕ
  pub last_read_sequence : ℕ
  pub last_read_at : Option ℕ
  pub joined_at : ℕ
  pub removed_at : Option ℕ

pub record DirectChannelPairRow : Type 0 where
  pub org_id : ℕ
  pub user_a_id : ℕ
  pub user_b_id : ℕ
  pub channel_id : ℕ
  pub created_at : ℕ

-- `is_edited` and `edit_history` keep their defaults: nothing edits a message.
pub record ChatMessageRow : Type 0 where
  pub id : ℕ
  pub org_id : ℕ
  pub channel_id : ℕ
  pub sender_id : ℕ
  pub client_message_id : ℕ
  pub sequence_number : ℕ
  pub body : String
  pub body_parsed : Option String
  pub parent_message_id : Option ℕ
  pub deleted_at : Option ℕ
  pub created_at : ℕ

pub record CreateMessageData : Type 0 where
  pub org_id : ℕ
  pub channel_id : ℕ
  pub sender_id : ℕ
  pub client_message_id : ℕ
  pub sequence_number : ℕ
  pub body : String
  pub body_parsed : Option String
  pub parent_message_id : Option ℕ

-- A sequence of the database: the number that it gave last, 0 at first.
pub record ChannelSequence : Type 0 where
  pub channel_id : ℕ
  pub last_value : ℕ

-- The payload of a channel's event repeats columns of the channel, so only its id is kept.
pub data ChatEvent : Type 0 where
  channel_created : (channel org actor : ℕ) → ChatEvent
  message_created : (message channel org sender sequence_number : ℕ) → ChatEvent

pub record ChatDb : Type 0 where
  pub channels : List ChannelRow
  pub members : List ChannelMemberRow
  pub pairs : List DirectChannelPairRow
  pub sequences : List ChannelSequence
  pub messages : List ChatMessageRow
  pub memberships : List MembershipRow
  pub outbox : List ChatEvent
