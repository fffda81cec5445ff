-- ===== src/Chat/Direct.antt =====
-- One direct channel for two users, and one message for a client's id: repeated requests to
-- src/modules/chat.
use multi_tenant_collaborati.Common.{
  ℕ, ◌≡◌, refl, ◌⊎◌, inl, inr, Bool, true, false, none, some, List, [], ◌∷◌, arith, Bool-cases,
  Option-cases, ok, ◌==◌, ==_refl, ltb, any,
}
use multi_tenant_collaborati.Organization.Membership.{MembershipRow, find_membership}
use multi_tenant_collaborati.Chat.Row.{ChannelRow, DirectChannelPairRow, ChatDb, direct}
use multi_tenant_collaborati.Chat.Repository.{
  new_channel, insert_direct_pair, find_direct_channel, find_channel, join_pairs, is_pair, lesser,
  greater,
}
use multi_tenant_collaborati.Chat.Channel.{
  add_members, write_channel, write_outbox_event, open_direct, create_direct,
}
use multi_tenant_collaborati.Chat.Creation.{create_direct-run}

lesser_comm : (a b : ℕ) → lesser a b ≡ lesser b a
lesser_comm a b = ground arith

greater_comm : (a b : ℕ) → greater a b ≡ greater b a
greater_comm a b = ground arith

find_direct_comm :
    (org a b : ℕ) (pairs : List DirectChannelPairRow) (channels : List ChannelRow)
    → find_direct_channel org a b pairs channels ≡ find_direct_channel org b a pairs channels
unfolding find_direct_channel
find_direct_comm org a b pairs channels = rw (lesser_comm a b, greater_comm a b) refl

-- A second request for a pair whose row is there: the insert is refused.
insert_direct_pair-taken :
    (now org a b channel : ℕ) (rows : List DirectChannelPairRow)
    → any (is_pair org a b) rows ≡ true
    → insert_direct_pair now org a b channel rows ≡ none
unfolding insert_direct_pair
insert_direct_pair-taken now org a b channel rows taken = rw taken refl

insert_direct_pair-cases :
    (now org a b channel : ℕ) (rows : List DirectChannelPairRow)
    → ltb a b ≡ true
    → (any (is_pair org a b) rows ≡ true × (insert_direct_pair now org a b channel rows ≡ none))
      ⊎ (insert_direct_pair now org a b channel rows
          ≡ some (
              (record {
                org_id = org;
                user_a_id = a;
                user_b_id = b;
                channel_id = channel;
                created_at = now;
              })
              ∷ rows))
unfolding insert_direct_pair
insert_direct_pair-cases now org a b channel rows ordered =
    elim (Bool-cases (any (is_pair org a b) rows)) [
      | inl taken ↦ inl (taken, rw taken refl)
      | inr free ↦ inr (rw (free, ordered) refl)
    ]

add_members-keeps :
    (now channel org : ℕ) (users : List ℕ) (db : ChatDb)
    → ((add_members now channel org users db).channels ≡ db.channels)
      × ((add_members now channel org users db).memberships ≡ db.memberships)
unfolding add_members
add_members-keeps now channel org [] db = (refl, refl)
add_members-keeps now channel org (user ∷ users) db = add_members-keeps now channel org users _

-- The tables after a direct channel was opened.
abbrev opened : ℕ → ℕ → ChannelRow → ℕ → ℕ → List DirectChannelPairRow → ChatDb → ChatDb
opened now org channel creator other pairs' db =
    (open_direct now org channel creator other (some pairs') db).1

opened-tables :
    (now org : ℕ) (channel : ChannelRow) (creator other : ℕ) (pairs' : List DirectChannelPairRow)
    (db : ChatDb)
    → (let after = opened now org channel creator other pairs' db in
        (after.channels ≡ channel ∷ db.channels)
        × (after.memberships ≡ db.memberships)
        × (after.pairs ≡ pairs'))
unfolding open_direct write_channel write_outbox_event
opened-tables now org channel creator other pairs' db =
    let (channels, memberships) =
      add_members-keeps now channel.id channel.org_id (creator ∷ other ∷ [])
        (record db { channels = channel ∷ db.channels }) in
    (channels, memberships, refl)

open_direct-none :
    (now org : ℕ) (channel : ChannelRow) (creator other : ℕ) (db : ChatDb) (ch : ChannelRow)
    → find_direct_channel org creator other db.pairs db.channels ≡ some ch
    → open_direct now org channel creator other none db ≡ (ok (ch, false), db)
unfolding open_direct
open_direct-none now org channel creator other db ch found = ground arith

-- A pair that is in the table, with its channel, is answered whoever asks.
create_direct-existing :
    (new_id now org a b : ℕ) (db : ChatDb) {own theirs : MembershipRow} (ch : ChannelRow)
    → (a == b) ≡ false
    → find_membership org a db.memberships ≡ some own
    → find_membership org b db.memberships ≡ some theirs
    → any (is_pair org (lesser a b) (greater a b)) db.pairs ≡ true
    → find_direct_channel org a b db.pairs db.channels ≡ some ch
    → create_direct new_id now org a b db ≡ (ok (ch, false), db)
create_direct-existing new_id now org a b db ch two own theirs taken found =
    rw
      (
        create_direct-run new_id now org a b db two own theirs,
        insert_direct_pair-taken now org (lesser a b) (greater a b) new_id db.pairs taken,
      )
      (open_direct-none now org (new_channel new_id now org direct a none none) a b db ch found)

find_direct_channel-new :
    (org a b : ℕ) (p : DirectChannelPairRow) (pairs : List DirectChannelPairRow) (ch : ChannelRow)
    (channels : List ChannelRow)
    → is_pair org (lesser a b) (greater a b) p ≡ true
    → p.channel_id ≡ ch.id
    → ch.deleted_at ≡ none
    → find_direct_channel org a b (p ∷ pairs) (ch ∷ channels) ≡ some ch
unfolding find_direct_channel join_pairs find_channel
find_direct_channel-new org a b p pairs ch channels hit id live =
    rw (hit, id, live, ==_refl ch.id) refl

-- What holds once a request for a direct channel succeeded.
record IsSettled (org a b : ℕ) (ch : ChannelRow) (db after : ChatDb) : Type 0 where
  memberships : after.memberships ≡ db.memberships
  taken : any (is_pair org (lesser a b) (greater a b)) after.pairs ≡ true
  found : find_direct_channel org a b after.pairs after.channels ≡ some ch

IsSettled-none :
    (now org a b : ℕ) (channel ch : ChannelRow) (created : Bool) (db : ChatDb)
    → any (is_pair org (lesser a b) (greater a b)) db.pairs ≡ true
    → (open_direct now org channel a b none db).0 ≡ ok (ch, created)
    → IsSettled org a b ch db (open_direct now org channel a b none db).1
unfolding open_direct
IsSettled-none now org a b channel ch created db taken done =
    elim (Option-cases (find_direct_channel org a b db.pairs db.channels)) [
      | inl missing ↦ absurd (ground arith)
      | inr (c, e) ↦ rw e (record { memberships = refl; taken = taken; found = ground arith })
    ]

IsSettled-some :
    (now org a b : ℕ) (channel ch : ChannelRow) (created : Bool) (p : DirectChannelPairRow)
    (db : ChatDb)
    → is_pair org (lesser a b) (greater a b) p ≡ true
    → p.channel_id ≡ channel.id
    → channel.deleted_at ≡ none
    → channel ≡ ch
    → IsSettled org a b ch db (opened now org channel a b (p ∷ db.pairs) db)
IsSettled-some now org a b channel ch created p db hit id live same =
    let (channels, memberships, pairs) = opened-tables now org channel a b (p ∷ db.pairs) db in
    record {
      memberships = memberships;
      taken = rw (pairs, hit) refl;
      found =
          rw (channels, pairs, ← same)
            (find_direct_channel-new org a b p db.pairs channel db.channels hit id live);
    }

open_direct-channel :
    (now org a b : ℕ) (channel ch : ChannelRow) (created : Bool)
    (pairs' : List DirectChannelPairRow) (db : ChatDb)
    → (open_direct now org channel a b (some pairs') db).0 ≡ ok (ch, created)
    → channel ≡ ch
unfolding open_direct write_outbox_event
open_direct-channel now org a b channel ch created pairs' db done = ground arith

is_pair_self :
    (now org a b channel : ℕ)
    → is_pair org a b (record {
      org_id = org;
      user_a_id = a;
      user_b_id = b;
      channel_id = channel;
      created_at = now;
    })
      ≡ true
is_pair_self now org a b channel = rw (==_refl org, ==_refl a, ==_refl b) refl

create_direct-IsSettled :
    (new_id now org a b : ℕ) (db : ChatDb) {own theirs : MembershipRow} (ch : ChannelRow)
    (created : Bool)
    → (a == b) ≡ false
    → find_membership org a db.memberships ≡ some own
    → find_membership org b db.memberships ≡ some theirs
    → (create_direct new_id now org a b db).0 ≡ ok (ch, created)
    → IsSettled org a b ch db (create_direct new_id now org a b db).1
create_direct-IsSettled new_id now org a b db ch created two is are done =
    let channel = new_channel new_id now org direct a none none in
    let run = create_direct-run new_id now org a b db two is are in
    elim (insert_direct_pair-cases now org (lesser a b) (greater a b) new_id db.pairs
      (ground arith)) [
        | inl (taken, refused) ↦
            rw (run, refused)
              (IsSettled-none now org a b channel ch created db taken (rw (run, refused) at done))
        | inr inserted ↦
            rw (run, inserted)
              (IsSettled-some now org a b channel ch created _ db
                (is_pair_self now org (lesser a b) (greater a b) new_id) refl refl
                (open_direct-channel now org a b channel ch created _ db
                  (rw (run, inserted) at done)))
      ]

-- Once a request for a direct channel of two members succeeded, a request of either of them for the
-- same pair returns the same channel as not created, and writes nothing.
pub create_direct_again :
    (new_id new_id' now now' org a b : ℕ) (db : ChatDb) (own theirs : MembershipRow)
    (ch : ChannelRow) (created : Bool)
    → (a == b) ≡ false
    → find_membership org a db.memberships ≡ some own
    → find_membership org b db.memberships ≡ some theirs
    → (create_direct new_id now org a b db).0 ≡ ok (ch, created)
    → (let after = (create_direct new_id now org a b db).1 in
        (create_direct new_id' now' org a b after ≡ (ok (ch, false), after))
        × (create_direct new_id' now' org b a after ≡ (ok (ch, false), after)))
create_direct_again new_id new_id' now now' org a b db own theirs ch created two is are done =
    let after = (create_direct new_id now org a b db).1 in
    let settled = create_direct-IsSettled new_id now org a b db ch created two is are done in
    let own_after : find_membership org a after.memberships ≡ some own =
      rw settled.memberships is in
    let their_after : find_membership org b after.memberships ≡ some theirs =
      rw settled.memberships are in
    (
      create_direct-existing new_id' now' org a b after ch two own_after their_after settled.taken
          settled.found,
      create_direct-existing new_id' now' org b a after ch (ground arith) their_after own_after
          (rw (lesser_comm b a, greater_comm b a) settled.taken)
          (rw (find_direct_comm org b a after.pairs after.channels) settled.found),
    )
