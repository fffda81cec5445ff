-- ===== src/Chat/Channel.antt =====
-- src/modules/chat/channel.service.ts. Whether a feature is enabled is an argument, the answer of
-- `isEnabled`. A transaction that throws leaves the tables as they were.
use multi_tenant_collaborati.Common.{
  ℕ, String, Bool, true, false, not, Option, none, some, List, [], ◌∷◌, ◌==◌, ltb, length, contains,
  if◌then◌else◌, Action, pure, throw, gets, or_throw, throw_if, modify, ◌>>=◌, ◌>>◌, app_error,
  bad_request_error, forbidden_error, not_found_error, unprocessable_error,
}
use multi_tenant_collaborati.Organization.Membership.{MembershipRow, find_membership}
use multi_tenant_collaborati.Chat.Row.{
  direct, group, ChannelRow, DirectChannelPairRow, channel_created, ChatDb,
}
use multi_tenant_collaborati.Chat.Repository.{
  find_channel, channels_of_org, new_channel, add_channel_member, is_channel_member,
  insert_direct_pair, find_direct_channel, create_channel_sequence, lesser, greater,
}

unfoldable pub write_outbox_event : ℕ → ℕ → ℕ → Action ChatDb (Unit {0})
write_outbox_event channel org actor =
    modify λ db. record db { outbox = channel_created channel org actor ∷ db.outbox }

-- `addMember` for each of the users.
unfoldable pub add_members : ℕ → ℕ → ℕ → List ℕ → ChatDb → ChatDb
unfolding add_channel_member
add_members now channel org [] db = db
add_members now channel org (user ∷ users) db =
    add_members now channel org users
      (record db { members = add_channel_member now channel user org db.members })

-- The statements of a transaction that writes a channel, its members and its sequence.
unfoldable pub write_channel : ℕ → ChannelRow → List ℕ → ChatDb → ChatDb
unfolding add_members create_channel_sequence
write_channel now channel users db =
    let added =
      add_members now channel.id channel.org_id users
        (record db { channels = channel ∷ db.channels }) in
    record added { sequences = create_channel_sequence channel.id added.sequences }

-- The channel of a pair that violates the primary key, with `created` false; else the violation is
-- thrown on, which the error handler answers with 409.
abbrev pub existing_pair : Option ChannelRow → Action ChatDb (ChannelRow × Bool)
existing_pair none = throw (app_error 409 "DUPLICATE_ENTRY")
existing_pair (some channel) = pure (channel, false)

-- The transaction, given what the insert into `direct_channel_pairs` leaves. Where it is refused, all
-- is rolled back and the pair's channel is looked up.
unfoldable pub open_direct :
    ℕ
    → ℕ
    → ChannelRow
    → ℕ
    → ℕ
    → Option (List DirectChannelPairRow)
    → Action ChatDb (ChannelRow × Bool)
open_direct now org channel creator other none = do
  existing ← gets (λ db. find_direct_channel org creator other db.pairs db.channels)
  existing_pair existing
open_direct now org channel creator other (some pairs') = do
  modify (write_channel now channel (creator ∷ other ∷ []))
  modify (λ db. record db { pairs = pairs' })
  write_outbox_event channel.id org creator
  pure (channel, true)

unfoldable pub create_direct : ℕ → ℕ → ℕ → ℕ → ℕ → Action ChatDb (ChannelRow × Bool)
create_direct new_id now org creator other = do
  throw_if (creator == other) (bad_request_error "CANNOT_DM_SELF")
  own ← gets (λ db. find_membership org creator db.memberships)
  or_throw own (forbidden_error "NOT_ORG_MEMBER")
  theirs ← gets (λ db. find_membership org other db.memberships)
  or_throw theirs not_found_error
  pairs' ← gets (λ db.
      insert_direct_pair now org (lesser creator other) (greater creator other) new_id db.pairs)
  open_direct now org (new_channel new_id now org direct creator none none) creator other pairs'

-- `[...new Set(ids)]`: each id where it stands first.
unfoldable pub distinct : List ℕ → List ℕ → List ℕ
distinct seen [] = []
distinct seen (id ∷ ids) =
    let rest = distinct (if contains id seen then seen else id ∷ seen) ids in
    if contains id seen then rest else id ∷ rest

unfoldable pub all_org_members : ℕ → List ℕ → List MembershipRow → Bool
all_org_members org [] rows = true
all_org_members org (user ∷ users) rows =
    let rest = all_org_members org users rows in
    elim (find_membership org user rows) [ none ↦ false | some _ ↦ rest ]

unfoldable pub create_group : Bool → ℕ → ℕ → ℕ → ℕ → String → List ℕ → Action ChatDb ChannelRow
create_group chat_enabled new_id now org creator name' member_ids = do
  throw_if (not chat_enabled) (forbidden_error "FEATURE_NOT_ENABLED")
  throw_if (ltb (length member_ids) 2) (unprocessable_error "INSUFFICIENT_MEMBERS")
  known ← gets (λ db. all_org_members org (distinct [] (creator ∷ member_ids)) db.memberships)
  throw_if (not known) (unprocessable_error "MEMBER_NOT_IN_ORG")
  modify (
      write_channel now (new_channel new_id now org group creator (some name') none)
        (distinct [] (creator ∷ member_ids)))
  write_outbox_event new_id org creator
  pure (new_channel new_id now org group creator (some name') none)

unfoldable pub get_channel : ℕ → ℕ → Action ChatDb ChannelRow
get_channel org channel = do
  found ← gets (λ db. find_channel channel db.channels)
  ch ← or_throw found not_found_error
  if ch.org_id == org then pure ch else throw not_found_error

unfoldable pub list_channels : ℕ → Option ℕ → ChatDb → List ChannelRow
list_channels org workspace db = channels_of_org org workspace db.channels

unfoldable pub create_workspace_channel : ℕ → ℕ → ℕ → ℕ → String → ℕ → Action ChatDb ChannelRow
create_workspace_channel new_id now org creator name' workspace = do
  own ← gets (λ db. find_membership org creator db.memberships)
  or_throw own (forbidden_error "NOT_ORG_MEMBER")
  modify (
      write_channel now (new_channel new_id now org group creator (some name') (some workspace))
        (creator ∷ []))
  write_outbox_event new_id org creator
  pure (new_channel new_id now org group creator (some name') (some workspace))

unfoldable pub assert_channel_member : ℕ → ℕ → Action ChatDb (Unit {0})
assert_channel_member channel user = do
  is_member ← gets (λ db. is_channel_member channel user db.members)
  throw_if (not is_member) (forbidden_error "NOT_CHANNEL_MEMBER")
