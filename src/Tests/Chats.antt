-- ===== src/Tests/Chats.antt =====
-- A direct channel of two members and the messages in it.
use mathlib.Core.List.Memᴰ
use multi_tenant_collaborati.Common.{◌≡◌, refl, true, false, none, some, List, [], ◌∷◌, ok}
use multi_tenant_collaborati.Organization.Membership.{MembershipRow, find_membership}
use multi_tenant_collaborati.Chat.Row.{ChatMessageRow, ChatDb, direct}
use multi_tenant_collaborati.Chat.Repository.{
  new_channel, new_message, add_channel_member, is_channel_member, create_channel_sequence,
  next_sequence, find_by_client_message_id, insert_direct_pair,
}
use multi_tenant_collaborati.Chat.Message.{
  SendMessageInput, check_thread, message_data, create_message, send_new, send,
}
use multi_tenant_collaborati.Chat.Channel.{
  write_channel, write_outbox_event, open_direct, create_direct,
}
use multi_tenant_collaborati.Chat.Sequence.{IsNumbered}
use multi_tenant_collaborati.Chat.Requests.{
  ChatRequest, direct_request, send_request, delete_request, serve_all, serve_all-IsNumbered,
}
use multi_tenant_collaborati.Chat.Resend.{send_again}
use multi_tenant_collaborati.Chat.Direct.{create_direct_again}
use multi_tenant_collaborati.Tests.Organizations.{owner}

abbrev colleague : MembershipRow
colleague = record owner { id = 2; user_id = 5 }

abbrev office : ChatDb
office = record {
  channels = [];
  members = [];
  pairs = [];
  sequences = [];
  messages = [];
  memberships = owner ∷ colleague ∷ [];
  outbox = [];
}

office-IsNumbered : IsNumbered office
office-IsNumbered = record {
  given = λ m w. absurd (Memᴰ.not-nil w);
  unique = λ a b wa wb ec es. absurd (Memᴰ.not-nil wa);
  threaded = λ m id w e. absurd (Memᴰ.not-nil w);
}

abbrev hello : SendMessageInput
hello = record {
  channel_id = 30;
  sender_id = 2;
  body = "hello";
  body_parsed = none;
  client_message_id = 70;
  parent_message_id = none;
}

abbrev reply : SendMessageInput
reply = record hello { sender_id = 5; client_message_id = 71; parent_message_id = some 31 }

abbrev conversation : List ChatRequest
conversation =
    direct_request 30 4 1 2 5
    ∷ send_request 31 5 1 hello
    ∷ send_request 32 6 1 reply
    ∷ delete_request 7 1 31 30 2
    ∷ []

serve_all-IsNumbered_example : IsNumbered (serve_all conversation office)
serve_all-IsNumbered_example = serve_all-IsNumbered conversation office office-IsNumbered

owner_found : find_membership 1 2 office.memberships ≡ some owner
unfolding find_membership
owner_found = refl

colleague_found : find_membership 1 5 office.memberships ≡ some colleague
unfolding find_membership
colleague_found = refl

direct_succeeds :
    (create_direct 30 4 1 2 5 office).0 ≡ ok (new_channel 30 4 1 direct 2 none none, true)
unfolding create_direct open_direct write_channel write_outbox_event find_membership
    insert_direct_pair
direct_succeeds = refl

create_direct_again_example :
    let after = (create_direct 30 4 1 2 5 office).1 in
    let channel = new_channel 30 4 1 direct 2 none none in
    (create_direct 33 9 1 2 5 after ≡ (ok (channel, false), after))
    × (create_direct 33 9 1 5 2 after ≡ (ok (channel, false), after))
create_direct_again_example =
    create_direct_again 30 33 4 9 1 2 5 office owner colleague
      (new_channel 30 4 1 direct 2 none none) true refl owner_found colleague_found direct_succeeds

abbrev opened : ChatDb
opened = record office {
  channels = new_channel 30 4 1 direct 2 none none ∷ [];
  members = add_channel_member 4 30 2 1 [];
  sequences = create_channel_sequence 30 [];
}

abbrev hello_row : ChatMessageRow
hello_row = new_message 31 5 (message_data 1 hello 1)

hello_sent : (send 31 5 1 hello opened).0 ≡ ok hello_row
unfolding send send_new check_thread is_channel_member find_by_client_message_id next_sequence
    create_channel_sequence add_channel_member create_message
hello_sent = refl

send_again_example :
    let after = (send 31 5 1 hello opened).1 in send 34 8 1 hello after ≡ (ok hello_row, after)
send_again_example = send_again 31 34 5 8 1 hello opened hello_row hello_sent
