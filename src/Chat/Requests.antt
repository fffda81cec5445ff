-- ===== src/Chat/Requests.antt =====
-- Any sequence of requests to src/modules/chat.
use multi_tenant_collaborati.Common.{
  ℕ, ◌≡◌, refl, sym, ap, ◌∙◌, inl, inr, String, Bool, true, false, none, some, List, [], ◌∷◌, Memᴰ,
  arith, if◌then◌else◌, Bool-cases, Option-cases, Result-cases, ok, err, Result, AppError,
  mem-update_where, update_where-mem,
}
use multi_tenant_collaborati.Chat.Row.{ChatMessageRow, ChannelSequence, ChatDb}
use multi_tenant_collaborati.Chat.Repository.{
  next_sequence, is_deletable, soft_delete_message, find_by_client_message_id, is_channel_member,
}
use multi_tenant_collaborati.Chat.Message.{
  SendMessageInput, check_thread, create_message, send_new, send, delete_message,
}
use multi_tenant_collaborati.Chat.Channel.{create_direct, create_group, create_workspace_channel}
use multi_tenant_collaborati.Chat.Sequence.{
  IsNumbered, check_thread-Threaded, check_thread-state, create_message-IsNumbered,
}
use multi_tenant_collaborati.Chat.Creation.{
  Creates-IsNumbered, create_direct-Creates, create_group-Creates, create_workspace_channel-Creates,
}

pub pair_eq :
    (x : Result (Unit {0}) × ChatDb) {r : Result (Unit {0})} {db : ChatDb}
    → x.0 ≡ r
    → x.1 ≡ db
    → x ≡ (r, db)
pair_eq x er es = λ i. (er i, es i)

pub send_new-refused :
    (new_id now org : ℕ) (input : SendMessageInput) (db : ChatDb) (e : AppError)
    → check_thread input.channel_id input.parent_message_id db ≡ (err e, db)
    → (send_new new_id now org input db).1 ≡ db
unfolding send_new
send_new-refused new_id now org input db e step = ground arith

pub send_new-missing :
    (new_id now org : ℕ) (input : SendMessageInput) (db : ChatDb)
    → check_thread input.channel_id input.parent_message_id db ≡ (ok tt, db)
    → next_sequence input.channel_id db.sequences ≡ none
    → (send_new new_id now org input db).1 ≡ db
unfolding send_new
send_new-missing new_id now org input db step missing = ground arith

send_new-sent :
    (new_id now org : ℕ) (input : SendMessageInput) (db : ChatDb) {n : ℕ}
    {rows' : List ChannelSequence}
    → check_thread input.channel_id input.parent_message_id db ≡ (ok tt, db)
    → next_sequence input.channel_id db.sequences ≡ some (n, rows')
    → (send_new new_id now org input db).1
      ≡ create_message new_id now org input n (record db { sequences = rows' })
unfolding send_new
send_new-sent new_id now org input db step next = ground arith

send_new-IsNumbered :
    (new_id now org : ℕ) (input : SendMessageInput) (db : ChatDb)
    → IsNumbered db
    → IsNumbered (send_new new_id now org input db).1
send_new-IsNumbered new_id now org input db inv =
    let checked = check_thread input.channel_id input.parent_message_id db in
    let same = check_thread-state input.channel_id input.parent_message_id db in
    elim (Result-cases (check_thread input.channel_id input.parent_message_id db).0) [
      | inl (done, passed) ↦
          let step : check_thread input.channel_id input.parent_message_id db ≡ (ok tt, db) =
            pair_eq checked passed same in
          elim (Option-cases (next_sequence input.channel_id db.sequences)) [
            | inl missing ↦ rw (send_new-missing new_id now org input db step missing) inv
            | inr ((n, rows'), next) ↦ rw (send_new-sent new_id now org input db step next) (
                create_message-IsNumbered new_id now org input n rows' db next
                  (check_thread-Threaded input.channel_id input.parent_message_id db passed) inv)
          ]
      | inr (e, refused) ↦
          let step : check_thread input.channel_id input.parent_message_id db ≡ (err e, db) =
            pair_eq checked refused same in
          rw (send_new-refused new_id now org input db e step) inv
    ]

send-IsNumbered :
    (new_id now org : ℕ) (input : SendMessageInput) (db : ChatDb)
    → IsNumbered db
    → IsNumbered (send new_id now org input db).1
unfolding send
send-IsNumbered new_id now org input db inv =
    elim (Bool-cases (is_channel_member input.channel_id input.sender_id db.members)) [
      | inl is ↦
          elim (Option-cases
            (find_by_client_message_id input.channel_id input.client_message_id db.messages)) [
              | inl new ↦ rw (is, new) (send_new-IsNumbered new_id now org input db inv)
              | inr (m, old) ↦ rw (is, old) inv
            ]
      | inr other ↦ rw other inv
    ]

abbrev marked : ℕ → ChatMessageRow → ChatMessageRow
marked now m = record m { deleted_at = some now }

-- A row after a deletion comes from a row that differs in `deleted_at` only.
deleted-from :
    (now org id sender : ℕ) (rows : List ChatMessageRow) (m : ChatMessageRow)
    → Memᴰ m (soft_delete_message now org id sender rows).1
    → (x : ChatMessageRow) × Memᴰ x rows
      × (m ≡ (if is_deletable org id sender x then marked now x else x))
unfolding soft_delete_message
deleted-from now org id sender rows m w =
    mem-update_where (is_deletable org id sender) (marked now) rows m w

deleted-to :
    (now org id sender : ℕ) (rows : List ChatMessageRow) (x : ChatMessageRow)
    → Memᴰ x rows
    → Memᴰ
        (if is_deletable org id sender x then marked now x else x)
        (soft_delete_message now org id sender rows).1
unfolding soft_delete_message
deleted-to now org id sender rows x w =
    update_where-mem (is_deletable org id sender) (marked now) rows x w

record IsMarked (m x : ChatMessageRow) : Type 0 where
  ids : m.id ≡ x.id
  channels : m.channel_id ≡ x.channel_id
  numbers : m.sequence_number ≡ x.sequence_number
  parents : m.parent_message_id ≡ x.parent_message_id

marked-IsMarked :
    (b : Bool) (now : ℕ) (x : ChatMessageRow) → IsMarked (if b then marked now x else x) x
marked-IsMarked true now x = record { ids = refl; channels = refl; numbers = refl; parents = refl }
marked-IsMarked false now x = record { ids = refl; channels = refl; numbers = refl; parents = refl }

soft_delete-IsNumbered :
    (now org id sender : ℕ) (db : ChatDb)
    → IsNumbered db
    → IsNumbered (record db { messages = (soft_delete_message now org id sender db.messages).1 })
soft_delete-IsNumbered now org id sender db inv =
    let fits = λ (x : ChatMessageRow). marked-IsMarked (is_deletable org id sender x) now x in
    record {
      given = λ m w.
          let (x, wx, is) = deleted-from now org id sender db.messages m w in
          let (n, held, le) = inv.given x wx in
          rw is (n, rw (fits x).channels held, rw (fits x).numbers le);
      unique = λ a b wa wb ec es.
          let (x, wx, isx) = deleted-from now org id sender db.messages a wa in
          let (y, wy, isy) = deleted-from now org id sender db.messages b wb in
          let channel : x.channel_id ≡ y.channel_id =
            sym (fits x).channels
            ∙ (sym (ap (λ (r : ChatMessageRow). r.channel_id) isx)
                ∙ (ec ∙ (ap (λ (r : ChatMessageRow). r.channel_id) isy ∙ (fits y).channels))) in
          let number : x.sequence_number ≡ y.sequence_number =
            sym (fits x).numbers
            ∙ (sym (ap (λ (r : ChatMessageRow). r.sequence_number) isx)
                ∙ (es ∙ (ap (λ (r : ChatMessageRow). r.sequence_number) isy ∙ (fits y).numbers))) in
          let same : x ≡ y = inv.unique x y wx wy channel number in
          isx
          ∙ (ap (λ (r : ChatMessageRow). if is_deletable org id sender r then marked now r else r)
                same
              ∙ sym isy);
      threaded = λ m k w e.
          let (x, wx, is) = deleted-from now org id sender db.messages m w in
          let parent : x.parent_message_id ≡ some k =
            sym (fits x).parents
            ∙ (sym (ap (λ (r : ChatMessageRow). r.parent_message_id) is) ∙ e) in
          let channel = ap (λ (r : ChatMessageRow). r.channel_id) is ∙ (fits x).channels in
          let (p, wp, ids, channels, top) = inv.threaded x k wx parent in
          (
            (if is_deletable org id sender p then marked now p else p),
            deleted-to now org id sender db.messages p wp,
            (fits p).ids ∙ ids,
            (fits p).channels ∙ (channels ∙ sym channel),
            (fits p).parents ∙ top,
          );
    }

delete_message-IsNumbered :
    (now org message channel user : ℕ) (db : ChatDb)
    → IsNumbered db
    → IsNumbered (delete_message now org message channel user db).1
unfolding delete_message
delete_message-IsNumbered now org message channel user db inv =
    let kept = soft_delete-IsNumbered now org message user db inv in
    elim (Bool-cases (soft_delete_message now org message user db.messages).0) [
      | inl hit ↦ rw hit kept
      | inr miss ↦ rw miss kept
    ]

-- A request with the id and the time that the database gives.
pub data ChatRequest : Type 0 where
  send_request : ℕ → ℕ → ℕ → SendMessageInput → ChatRequest
  delete_request : ℕ → ℕ → ℕ → ℕ → ℕ → ChatRequest
  direct_request : ℕ → ℕ → ℕ → ℕ → ℕ → ChatRequest
  group_request : Bool → ℕ → ℕ → ℕ → ℕ → String → List ℕ → ChatRequest
  workspace_request : ℕ → ℕ → ℕ → ℕ → String → ℕ → ChatRequest

unfoldable pub serve : ChatRequest → ChatDb → ChatDb
serve (send_request new_id now org input) db = (send new_id now org input db).1
serve (delete_request now org message channel user) db =
    (delete_message now org message channel user db).1
serve (direct_request new_id now org creator other) db =
    (create_direct new_id now org creator other db).1
serve (group_request enabled new_id now org creator name' ids) db =
    (create_group enabled new_id now org creator name' ids db).1
serve (workspace_request new_id now org creator name' workspace) db =
    (create_workspace_channel new_id now org creator name' workspace db).1

unfoldable pub serve_all : List ChatRequest → ChatDb → ChatDb
unfolding serve
serve_all [] db = db
serve_all (r ∷ requests) db = serve_all requests (serve r db)

serve-IsNumbered : (r : ChatRequest) (db : ChatDb) → IsNumbered db → IsNumbered (serve r db)
unfolding serve
serve-IsNumbered (send_request new_id now org input) db inv =
    send-IsNumbered new_id now org input db inv
serve-IsNumbered (delete_request now org message channel user) db inv =
    delete_message-IsNumbered now org message channel user db inv
serve-IsNumbered (direct_request new_id now org creator other) db inv =
    Creates-IsNumbered db _ (create_direct-Creates new_id now org creator other db) inv
serve-IsNumbered (group_request enabled new_id now org creator name' ids) db inv =
    Creates-IsNumbered db _ (create_group-Creates enabled new_id now org creator name' ids db) inv
serve-IsNumbered (workspace_request new_id now org creator name' workspace) db inv =
    Creates-IsNumbered db _
      (create_workspace_channel-Creates new_id now org creator name' workspace db) inv

-- Any sequence of requests that send and delete messages and create channels keeps this: in a channel
-- no two messages have the same sequence number, each number is one that the channel's sequence gave,
-- and a reply is to a message of the same channel that is no reply itself.
pub serve_all-IsNumbered :
    (requests : List ChatRequest) (db : ChatDb) → IsNumbered db → IsNumbered (serve_all requests db)
unfolding serve_all
serve_all-IsNumbered [] db inv = inv
serve_all-IsNumbered (r ∷ requests) db inv =
    serve_all-IsNumbered requests (serve r db) (serve-IsNumbered r db inv)
