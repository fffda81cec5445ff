-- ===== src/Chat/Repository.antt =====
-- src/modules/chat/channel.repository.ts and message.repository.ts.
use multi_tenant_collaborati.Common.{
  ℕ, suc, ◌||◌, String, Bool, true, false, not, ◌&&◌, Option, none, some, List, [], ◌∷◌, ◌==◌, ltb,
  if◌then◌else◌, is_none, select, oldest_first, limit_rows, select_first, update_where, any,
}
use multi_tenant_collaborati.Chat.Row.{
  ChannelType, ChannelRow, ChannelMemberRow, DirectChannelPairRow, ChatMessageRow,
  CreateMessageData, ChannelSequence,
}

unfoldable pub find_channel : ℕ → List ChannelRow → Option ChannelRow
find_channel id rows = select_first (λ c. c.id == id && is_none c.deleted_at) rows

-- `AND workspace_id = $2`, if a workspace is given.
abbrev pub in_workspace : Option ℕ → ChannelRow → Bool
in_workspace none c = true
in_workspace (some workspace) c = elim c.workspace_id [ none ↦ false | some w ↦ w == workspace ]

unfoldable pub channels_of_org : ℕ → Option ℕ → List ChannelRow → List ChannelRow
channels_of_org org workspace rows =
    oldest_first
      (select (λ c. c.org_id == org && (in_workspace workspace c && is_none c.deleted_at)) rows)

-- The row that the insert writes; `new_id` and `now` are the table's defaults.
abbrev pub new_channel : ℕ → ℕ → ℕ → ChannelType → ℕ → Option String → Option ℕ → ChannelRow
new_channel new_id now org type created_by' name' workspace = record {
  id = new_id;
  org_id = org;
  channel_type = type;
  name = name';
  created_by = created_by';
  workspace_id = workspace;
  deleted_at = none;
  created_at = now;
  updated_at = now;
}

abbrev pub is_member_key : ℕ → ℕ → ChannelMemberRow → Bool
is_member_key channel user m = m.channel_id == channel && m.user_id == user

-- `ON CONFLICT (channel_id, user_id) DO NOTHING`.
unfoldable pub add_channel_member : ℕ → ℕ → ℕ → ℕ → List ChannelMemberRow → List ChannelMemberRow
add_channel_member now channel user org rows =
    if any (is_member_key channel user) rows
    then rows
    else (record {
      channel_id = channel;
      user_id = user;
      org_id = org;
      last_read_sequence = 0;
      last_read_at = none;
      joined_at = now;
      removed_at = none;
    })
      ∷ rows

unfoldable pub is_channel_member : ℕ → ℕ → List ChannelMemberRow → Bool
is_channel_member channel user rows =
    any (λ m. is_member_key channel user m && is_none m.removed_at) rows

unfoldable pub get_members : ℕ → List ChannelMemberRow → List ChannelMemberRow
get_members channel rows = select (λ m. m.channel_id == channel && is_none m.removed_at) rows

abbrev pub is_pair : ℕ → ℕ → ℕ → DirectChannelPairRow → Bool
is_pair org a b p = p.org_id == org && (p.user_a_id == a && p.user_b_id == b)

-- `none` where the primary key or the check on the order of the users refuses the row.
unfoldable pub insert_direct_pair :
    ℕ → ℕ → ℕ → ℕ → ℕ → List DirectChannelPairRow → Option (List DirectChannelPairRow)
insert_direct_pair now org a b channel rows =
    if any (is_pair org a b) rows || not (ltb a b)
    then none
    else some (
        (record {
          org_id = org;
          user_a_id = a;
          user_b_id = b;
          channel_id = channel;
          created_at = now;
        })
        ∷ rows)

-- The join of the channels with the pairs of two users: the first row of it.
unfoldable pub join_pairs :
    ℕ → ℕ → ℕ → List DirectChannelPairRow → List ChannelRow → Option ChannelRow
unfolding find_channel
join_pairs org a b [] channels = none
join_pairs org a b (p ∷ pairs) channels =
    let rest = join_pairs org a b pairs channels in
    if is_pair org a b p
    then elim (find_channel p.channel_id channels) [ none ↦ rest | some c ↦ some c ]
    else rest

abbrev pub lesser : ℕ → ℕ → ℕ
lesser a b = if ltb a b then a else b

abbrev pub greater : ℕ → ℕ → ℕ
greater a b = if ltb a b then b else a

unfoldable pub find_direct_channel :
    ℕ → ℕ → ℕ → List DirectChannelPairRow → List ChannelRow → Option ChannelRow
unfolding join_pairs
find_direct_channel org a b pairs channels =
    join_pairs org (lesser a b) (greater a b) pairs channels

unfoldable pub update_last_read : ℕ → ℕ → ℕ → ℕ → List ChannelMemberRow → List ChannelMemberRow
update_last_read now channel user sequence rows =
    update_where (is_member_key channel user)
      (λ m. record m { last_read_sequence = sequence; last_read_at = some now }) rows

-- `CREATE SEQUENCE IF NOT EXISTS channel_seq_…`.
unfoldable pub create_channel_sequence : ℕ → List ChannelSequence → List ChannelSequence
create_channel_sequence channel rows =
    if any (λ s. s.channel_id == channel) rows
    then rows
    else (record { channel_id = channel; last_value = 0 }) ∷ rows

-- `nextval` of a channel's sequence, which fails where there is none.
unfoldable pub next_sequence : ℕ → List ChannelSequence → Option (ℕ × List ChannelSequence)
next_sequence channel [] = none
next_sequence channel (s ∷ rows) =
    let rest = next_sequence channel rows in
    if s.channel_id == channel
    then some (suc s.last_value, record s { last_value = suc s.last_value } ∷ rows)
    else elim rest [ none ↦ none | some (n, others) ↦ some (n, s ∷ others) ]

unfoldable pub find_by_client_message_id : ℕ → ℕ → List ChatMessageRow → Option ChatMessageRow
find_by_client_message_id channel client rows =
    select_first (λ m. m.channel_id == channel && m.client_message_id == client) rows

unfoldable pub find_message : ℕ → ℕ → List ChatMessageRow → Option ChatMessageRow
find_message id channel rows = select_first (λ m. m.id == id && m.channel_id == channel) rows

abbrev pub new_message : ℕ → ℕ → CreateMessageData → ChatMessageRow
new_message new_id now d = record {
  id = new_id;
  org_id = d.org_id;
  channel_id = d.channel_id;
  sender_id = d.sender_id;
  client_message_id = d.client_message_id;
  sequence_number = d.sequence_number;
  body = d.body;
  body_parsed = d.body_parsed;
  parent_message_id = d.parent_message_id;
  deleted_at = none;
  created_at = now;
}

-- `ORDER BY sequence_number DESC`.
abbrev pub insert_desc : ChatMessageRow → List ChatMessageRow → List ChatMessageRow
insert_desc m [] = m ∷ []
insert_desc m (x ∷ xs) =
    let rest = insert_desc m xs in
    if ltb m.sequence_number x.sequence_number then x ∷ rest else m ∷ x ∷ xs

abbrev pub sort_desc : List ChatMessageRow → List ChatMessageRow
sort_desc [] = []
sort_desc (m ∷ ms) = insert_desc m (sort_desc ms)

abbrev pub reverse_onto : List ChatMessageRow → List ChatMessageRow → List ChatMessageRow
reverse_onto [] out = out
reverse_onto (m ∷ ms) out = reverse_onto ms (m ∷ out)

abbrev pub is_before : Option ℕ → ChatMessageRow → Bool
is_before none m = true
is_before (some sequence) m = ltb m.sequence_number sequence

unfoldable pub list_by_channel : ℕ → ℕ → Option ℕ → List ChatMessageRow → List ChatMessageRow
list_by_channel channel limit before rows =
    reverse_onto
      (limit_rows limit (
        sort_desc (
          select (λ m. m.channel_id == channel && (is_before before m && is_none m.deleted_at))
            rows)))
      []

abbrev pub is_deletable : ℕ → ℕ → ℕ → ChatMessageRow → Bool
is_deletable org id sender m =
    m.id == id && (m.org_id == org && (m.sender_id == sender && is_none m.deleted_at))

-- Whether a row was deleted, and the rows.
unfoldable pub soft_delete_message :
    ℕ → ℕ → ℕ → ℕ → List ChatMessageRow → Bool × List ChatMessageRow
soft_delete_message now org id sender rows = (
  any (is_deletable org id sender) rows,
  update_where (is_deletable org id sender) (λ m. record m { deleted_at = some now }) rows,
)
