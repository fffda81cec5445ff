-- ===== src/Chat/Creation.antt =====
-- The requests of src/modules/chat/channel.service.ts leave the messages and the numbers given alone.
use multi_tenant_collaborati.Common.{
  ℕ, ◌≡◌, refl, ◌∙◌, ◌⊎◌, inl, inr, String, Bool, true, false, Option, none, some, List, [], ◌∷◌,
  arith, Bool-cases, Option-cases, ◌==◌, ltb, length,
}
use multi_tenant_collaborati.Organization.Membership.{MembershipRow, find_membership}
use multi_tenant_collaborati.Chat.Row.{ChannelRow, DirectChannelPairRow, ChatDb, direct, group}
use multi_tenant_collaborati.Chat.Repository.{
  new_channel, insert_direct_pair, find_direct_channel, lesser, greater,
}
use multi_tenant_collaborati.Chat.Channel.{
  add_members, write_channel, write_outbox_event, open_direct, create_direct, create_group,
  create_workspace_channel, distinct, all_org_members,
}
use multi_tenant_collaborati.Chat.Sequence.{
  IsNumbered, Extends, Extends-IsNumbered, create_channel_sequence-keeps,
}

add_members-Extends :
    (now channel org : ℕ) (users : List ℕ) (db : ChatDb)
    → ((add_members now channel org users db).messages ≡ db.messages)
      × ((add_members now channel org users db).sequences ≡ db.sequences)
unfolding add_members
add_members-Extends now channel org [] db = (refl, refl)
add_members-Extends now channel org (user ∷ users) db = add_members-Extends now channel org users _

write_channel-Extends :
    (now : ℕ) (channel : ChannelRow) (users : List ℕ) (db : ChatDb)
    → Extends db (write_channel now channel users db)
unfolding write_channel
write_channel-Extends now channel users db =
    let (messages, sequences) =
      add_members-Extends now channel.id channel.org_id users
        (record db { channels = channel ∷ db.channels }) in
    (
      messages,
      λ c n held. rw sequences (create_channel_sequence-keeps channel.id c n db.sequences held),
    )

-- What a request that creates a channel does to the messages: nothing, or what `write_channel` does.
abbrev pub Creates : ChatDb → ChatDb → Type 0
Creates db db' =
    (db' ≡ db)
    ⊎ ((now : ℕ) × (channel : ChannelRow) × (users : List ℕ) × (db'.messages
          ≡ (write_channel now channel users db).messages)
        × (db'.sequences ≡ (write_channel now channel users db).sequences))

pub Creates-IsNumbered : (db db' : ChatDb) → Creates db db' → IsNumbered db → IsNumbered db'
Creates-IsNumbered db db' (inl same) inv = rw same inv
Creates-IsNumbered db db' (inr (now, channel, users, messages, sequences)) inv =
    let (kept, later) = write_channel-Extends now channel users db in
    Extends-IsNumbered db db' (messages ∙ kept, λ c n held. rw sequences (later c n held)) inv

open_direct-Creates :
    (now org : ℕ) (channel : ChannelRow) (creator other : ℕ)
    (pairs' : Option (List DirectChannelPairRow)) (db : ChatDb)
    → Creates db (open_direct now org channel creator other pairs' db).1
unfolding open_direct write_outbox_event
open_direct-Creates now org channel creator other none db =
    elim (Option-cases (find_direct_channel org creator other db.pairs db.channels)) [
      | inl missing ↦ inl (ground arith)
      | inr (found, e) ↦ inl (ground arith)
    ]
open_direct-Creates now org channel creator other (some pairs') db =
    inr (now, channel, creator ∷ other ∷ [], refl, refl)

create_direct-refused_self :
    (new_id now org creator other : ℕ) (db : ChatDb)
    → (creator == other) ≡ true
    → (create_direct new_id now org creator other db).1 ≡ db
unfolding create_direct
create_direct-refused_self new_id now org creator other db same = ground arith

create_direct-refused_creator :
    (new_id now org creator other : ℕ) (db : ChatDb)
    → (creator == other) ≡ false
    → find_membership org creator db.memberships ≡ none
    → (create_direct new_id now org creator other db).1 ≡ db
unfolding create_direct
create_direct-refused_creator new_id now org creator other db two missing = ground arith

create_direct-refused_other :
    (new_id now org creator other : ℕ) (db : ChatDb) {own : MembershipRow}
    → (creator == other) ≡ false
    → find_membership org creator db.memberships ≡ some own
    → find_membership org other db.memberships ≡ none
    → (create_direct new_id now org creator other db).1 ≡ db
unfolding create_direct
create_direct-refused_other new_id now org creator other db two is missing = ground arith

pub create_direct-run :
    (new_id now org creator other : ℕ) (db : ChatDb) {own theirs : MembershipRow}
    → (creator == other) ≡ false
    → find_membership org creator db.memberships ≡ some own
    → find_membership org other db.memberships ≡ some theirs
    → create_direct new_id now org creator other db
      ≡ open_direct now org
          (new_channel new_id now org direct creator none none)
          creator
          other
          (insert_direct_pair now org
            (lesser creator other)
            (greater creator other)
            new_id
            db.pairs)
          db
unfolding create_direct
create_direct-run new_id now org creator other db two is are = ground arith

pub create_direct-Creates :
    (new_id now org creator other : ℕ) (db : ChatDb)
    → Creates db (create_direct new_id now org creator other db).1
create_direct-Creates new_id now org creator other db = elim (Bool-cases (creator == other)) [
  | inl same ↦ inl (create_direct-refused_self new_id now org creator other db same)
  | inr two ↦ elim (Option-cases (find_membership org creator db.memberships)) [
    | inl none' ↦ inl (create_direct-refused_creator new_id now org creator other db two none')
    | inr (own, is) ↦ elim (Option-cases (find_membership org other db.memberships)) [
      | inl none' ↦ inl (create_direct-refused_other new_id now org creator other db two is none')
      | inr (theirs, are) ↦ rw (create_direct-run new_id now org creator other db two is are) (
          open_direct-Creates now org (new_channel new_id now org direct creator none none) creator
            other
            (insert_direct_pair now org (lesser creator other) (greater creator other) new_id
              db.pairs)
            db)
    ]
  ]
]

pub create_workspace_channel-Creates :
    (new_id now org creator : ℕ) (name' : String) (workspace : ℕ) (db : ChatDb)
    → Creates db (create_workspace_channel new_id now org creator name' workspace db).1
unfolding create_workspace_channel write_outbox_event
create_workspace_channel-Creates new_id now org creator name' workspace db =
    elim (Option-cases (find_membership org creator db.memberships)) [
      | inl missing ↦ inl (ground arith)
      | inr (own, is) ↦ rw is (
          inr (
            now,
            new_channel new_id now org group creator (some name') (some workspace),
            creator ∷ [],
            refl,
            refl,
          ))
    ]

pub create_group-Creates :
    (chat_enabled : Bool) (new_id now org creator : ℕ) (name' : String) (ids : List ℕ) (db : ChatDb)
    → Creates db (create_group chat_enabled new_id now org creator name' ids db).1
unfolding create_group write_outbox_event
create_group-Creates false new_id now org creator name' ids db = inl refl
create_group-Creates true new_id now org creator name' ids db =
    let users = distinct [] (creator ∷ ids) in
    elim (Bool-cases (ltb (length ids) 2)) [
      | inl few ↦ inl (ground arith)
      | inr enough ↦ elim (Bool-cases (all_org_members org users db.memberships)) [
        | inl known ↦
            rw (enough, known)
              (inr (
                now,
                new_channel new_id now org group creator (some name') none,
                users,
                refl,
                refl,
              ))
        | inr unknown ↦ inl (ground arith)
      ]
    ]
