-- ===== src/Chat/Resend.antt =====
-- A message that a client sends again: `send` of src/modules/chat/message.service.ts.
use multi_tenant_collaborati.Common.{
  ℕ, ◌≡◌, refl, inl, inr, true, false, none, some, List, ◌∷◌, arith, Bool-cases, Option-cases,
  Result-cases, ok, err, AppError,
}
use multi_tenant_collaborati.Chat.Row.{ChatMessageRow, ChannelSequence, ChatDb}
use multi_tenant_collaborati.Chat.Repository.{
  next_sequence, find_by_client_message_id, is_channel_member,
}
use multi_tenant_collaborati.Chat.Message.{
  SendMessageInput, check_thread, create_message, send_new, send,
}
use multi_tenant_collaborati.Chat.Sequence.{check_thread-state}
use multi_tenant_collaborati.Chat.Repository.{new_message}
use multi_tenant_collaborati.Chat.Message.{message_data}
use multi_tenant_collaborati.Chat.Requests.{pair_eq}
use multi_tenant_collaborati.Common.{==_refl}

find_by_client-new :
    (new_id now org : ℕ) (input : SendMessageInput) (n : ℕ) (rows : List ChatMessageRow)
    → find_by_client_message_id input.channel_id input.client_message_id
        (new_message new_id now (message_data org input n) ∷ rows)
      ≡ some (new_message new_id now (message_data org input n))
unfolding find_by_client_message_id
find_by_client-new new_id now org input n rows =
    rw (==_refl input.channel_id, ==_refl input.client_message_id) refl

send-existing :
    (new_id now org : ℕ) (input : SendMessageInput) (db : ChatDb) (m : ChatMessageRow)
    → is_channel_member input.channel_id input.sender_id db.members ≡ true
    → find_by_client_message_id input.channel_id input.client_message_id db.messages ≡ some m
    → send new_id now org input db ≡ (ok m, db)
unfolding send
send-existing new_id now org input db m is found = ground arith

send-new :
    (new_id now org : ℕ) (input : SendMessageInput) (db : ChatDb)
    → is_channel_member input.channel_id input.sender_id db.members ≡ true
    → find_by_client_message_id input.channel_id input.client_message_id db.messages ≡ none
    → send new_id now org input db ≡ send_new new_id now org input db
unfolding send
send-new new_id now org input db is missing = ground arith

send-stranger :
    (new_id now org : ℕ) (input : SendMessageInput) (db : ChatDb) (m : ChatMessageRow)
    → is_channel_member input.channel_id input.sender_id db.members ≡ false
    → (send new_id now org input db).0 ≡ ok m
    → ⊥
unfolding send
send-stranger new_id now org input db m is done = ground arith

send_new-run :
    (new_id now org : ℕ) (input : SendMessageInput) (db : ChatDb) {n : ℕ}
    {rows' : List ChannelSequence}
    → check_thread input.channel_id input.parent_message_id db ≡ (ok tt, db)
    → next_sequence input.channel_id db.sequences ≡ some (n, rows')
    → send_new new_id now org input db ≡ (
      ok (new_message new_id now (message_data org input n)),
      create_message new_id now org input n (record db { sequences = rows' }),
    )
unfolding send_new
send_new-run new_id now org input db step next = ground arith

send_new-fails :
    (new_id now org : ℕ) (input : SendMessageInput) (db : ChatDb) (m : ChatMessageRow)
    → check_thread input.channel_id input.parent_message_id db ≡ (ok tt, db)
    → next_sequence input.channel_id db.sequences ≡ none
    → (send_new new_id now org input db).0 ≡ ok m
    → ⊥
unfolding send_new
send_new-fails new_id now org input db m step missing done = ground arith

send_new-throws :
    (new_id now org : ℕ) (input : SendMessageInput) (db : ChatDb) (m : ChatMessageRow)
    (e : AppError)
    → check_thread input.channel_id input.parent_message_id db ≡ (err e, db)
    → (send_new new_id now org input db).0 ≡ ok m
    → ⊥
unfolding send_new
send_new-throws new_id now org input db m e step done = ground arith

-- A new message that was sent is found by its client's id, and the members are as before.
record IsStored (input : SendMessageInput) (m : ChatMessageRow) (db after : ChatDb) : Type 0 where
  members : after.members ≡ db.members
  found : find_by_client_message_id input.channel_id input.client_message_id after.messages ≡ some m

ok_injective : {x y : ChatMessageRow} → ok x ≡ ok y → x ≡ y
ok_injective e = ground arith

create_message-IsStored :
    (new_id now org : ℕ) (input : SendMessageInput) (n : ℕ) (rows' : List ChannelSequence)
    (db : ChatDb) (m : ChatMessageRow)
    → new_message new_id now (message_data org input n) ≡ m
    → IsStored input m db (create_message new_id now org input n (record db { sequences = rows' }))
unfolding create_message
create_message-IsStored new_id now org input n rows' db m same = record {
  members = refl;
  found = rw (← same) (find_by_client-new new_id now org input n db.messages);
}

send_new-IsStored :
    (new_id now org : ℕ) (input : SendMessageInput) (db : ChatDb) (m : ChatMessageRow)
    → (send_new new_id now org input db).0 ≡ ok m
    → IsStored input m db (send_new new_id now org input db).1
send_new-IsStored new_id now org input db m done =
    let checked = check_thread input.channel_id input.parent_message_id db in
    let same = check_thread-state input.channel_id input.parent_message_id db in
    elim (Result-cases checked.0) [
      | inl (_, passed) ↦
          let step : check_thread input.channel_id input.parent_message_id db ≡ (ok tt, db) =
            pair_eq checked passed same in
          elim (Option-cases (next_sequence input.channel_id db.sequences)) [
            | inl missing ↦ absurd (send_new-fails new_id now org input db m step missing done)
            | inr ((n, rows'), next) ↦
                let run = send_new-run new_id now org input db step next in
                let sent : new_message new_id now (message_data org input n) ≡ m =
                  ok_injective (rw run at done) in
                rw run (create_message-IsStored new_id now org input n rows' db m sent)
          ]
      | inr (e, refused) ↦
          let step : check_thread input.channel_id input.parent_message_id db ≡ (err e, db) =
            pair_eq checked refused same in
          absurd (send_new-throws new_id now org input db m e step done)
    ]

-- A message that was sent, sent again with the same client's id to the same channel: the same message
-- is returned and nothing is written.
pub send_again :
    (new_id new_id' now now' org : ℕ) (input : SendMessageInput) (db : ChatDb) (m : ChatMessageRow)
    → (send new_id now org input db).0 ≡ ok m
    → (let after = (send new_id now org input db).1 in
        send new_id' now' org input after ≡ (ok m, after))
send_again new_id new_id' now now' org input db m done =
    elim (Bool-cases (is_channel_member input.channel_id input.sender_id db.members)) [
      | inr other ↦ absurd (send-stranger new_id now org input db m other done)
      | inl is ↦
          elim (Option-cases
            (find_by_client_message_id input.channel_id input.client_message_id db.messages)) [
              | inr (old, found) ↦
                  let run = send-existing new_id now org input db old is found in
                  let same : old ≡ m = ok_injective (rw run at done) in
                  rw run (rw (← same) (send-existing new_id' now' org input db old is found))
              | inl missing ↦
                  let run = send-new new_id now org input db is missing in
                  let stored = send_new-IsStored new_id now org input db m (rw run at done) in
                  rw run (
                    send-existing new_id' now' org input (send_new new_id now org input db).1 m
                      (rw stored.members is) stored.found)
            ]
    ]
