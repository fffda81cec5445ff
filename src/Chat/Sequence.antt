-- ===== src/Chat/Sequence.antt =====
-- The numbers and threads of the messages that src/modules/chat/message.service.ts writes.
use multi_tenant_collaborati.Common.{
  ℕ, suc, ◌<◌, ◌≤◌, subst, ◌≡◌, refl, sym, ap, ◌∙◌, inl, inr, true, false, ◌&&◌, Option, none, some,
  List, [], ◌∷◌, Memᴰ, Memᴰ-cons, arith, ◌==◌, ==_refl, if◌then◌else◌, any, Bool-cases,
  Option-cases, mem-select_first, ok,
}
use multi_tenant_collaborati.Chat.Row.{ChatMessageRow, ChannelSequence, ChatDb}
use multi_tenant_collaborati.Chat.Repository.{
  next_sequence, create_channel_sequence, find_message, new_message,
}
use multi_tenant_collaborati.Chat.Message.{
  SendMessageInput, check_thread, message_data, create_message,
}

-- The last number that the sequence of a channel gave, if there is a sequence.
unfoldable pub last_of : ℕ → List ChannelSequence → Option ℕ
last_of channel [] = none
last_of channel (s ∷ rows) =
    let rest = last_of channel rows in if s.channel_id == channel then some s.last_value else rest

-- A message's number is one that its channel's sequence gave, no other message of the channel has it,
-- and a reply is to a message of the same channel that is no reply itself.
pub record IsNumbered (db : ChatDb) : Type 0 where
  pub given :
      (m : ChatMessageRow)
      → Memᴰ m db.messages
      → (n : ℕ) × (last_of m.channel_id db.sequences ≡ some n) × (m.sequence_number ≤ n)
  pub unique :
      (a b : ChatMessageRow)
      → Memᴰ a db.messages
      → Memᴰ b db.messages
      → a.channel_id ≡ b.channel_id
      → a.sequence_number ≡ b.sequence_number
      → a ≡ b
  pub threaded :
      (m : ChatMessageRow) (id : ℕ)
      → Memᴰ m db.messages
      → m.parent_message_id ≡ some id
      → (p : ChatMessageRow) × Memᴰ p db.messages
        × (p.id ≡ id)
        × (p.channel_id ≡ m.channel_id)
        × (p.parent_message_id ≡ none)

-- The next number of a channel is one more than the last, and the other channels keep theirs.
pub next_sequence_lem :
    (channel : ℕ) (rows : List ChannelSequence) {n : ℕ} {rows' : List ChannelSequence}
    → next_sequence channel rows ≡ some (n, rows')
    → ((last : ℕ) × (last_of channel rows ≡ some last) × (n ≡ suc last))
      × ((c : ℕ) → last_of c rows' ≡ (if c == channel then some n else last_of c rows))
unfolding next_sequence last_of
next_sequence_lem channel [] e = absurd (ground arith)
next_sequence_lem channel (s ∷ rows) {n} {rows'} e = elim (Bool-cases (s.channel_id == channel)) [
  | inl hit ↦
      let same : s.channel_id ≡ channel = ground arith in
      ((s.last_value, rw hit refl, ground arith), λ c. ground arith)
  | inr miss ↦ elim (Option-cases (next_sequence channel rows)) [
    | inl stuck ↦ absurd (ground arith)
    | inr ((k, others), found) ↦
        let ((last, held, next), all) = next_sequence_lem channel rows found in
        ((last, rw miss held, ground arith), λ c. ground (arith, all c))
  ]
]

last_of-absent :
    (c n : ℕ) (rows : List ChannelSequence)
    → any (λ s. s.channel_id == c) rows ≡ false
    → last_of c rows ≡ some n
    → ⊥
unfolding last_of
last_of-absent c n [] absent held = ground arith
last_of-absent c n (s ∷ rows) absent held = last_of-absent c n rows (ground arith) (ground arith)

below_next :
    (m : ChatMessageRow) (channel n last : ℕ) (db : ChatDb)
    → ((k : ℕ) × (last_of m.channel_id db.sequences ≡ some k) × (m.sequence_number ≤ k))
    → m.channel_id ≡ channel
    → last_of channel db.sequences ≡ some last
    → n ≡ suc last
    → m.sequence_number < n
below_next m channel n last db (k, given, le) same held next =
    let at : last_of channel db.sequences ≡ some k = rw same at given in ground arith

pub create_channel_sequence-keeps :
    (channel c n : ℕ) (rows : List ChannelSequence)
    → last_of c rows ≡ some n
    → last_of c (create_channel_sequence channel rows) ≡ some n
unfolding create_channel_sequence last_of
create_channel_sequence-keeps channel c n rows held =
    elim (Bool-cases (any (λ s. s.channel_id == channel) rows)) [
      | inl there ↦ rw there held
      | inr new ↦ elim (Bool-cases (channel == c)) [
        | inl same ↦
            let e : channel ≡ c = ground arith in
            absurd (last_of-absent c n rows (rw e at new) held)
        | inr other ↦ rw (new, other) held
      ]
    ]

-- A change that adds no message and keeps the sequences keeps the numbering.
abbrev pub Extends : ChatDb → ChatDb → Type 0
Extends db db' =
    (db'.messages ≡ db.messages)
    × ((c n : ℕ) → last_of c db.sequences ≡ some n → last_of c db'.sequences ≡ some n)

pub Extends-IsNumbered : (db db' : ChatDb) → Extends db db' → IsNumbered db → IsNumbered db'
Extends-IsNumbered db db' (same, keeps) inv = record {
  given = λ m w.
      let (n, held, le) = inv.given m (subst (λ rows. Memᴰ m rows) same w) in
      (n, keeps m.channel_id n held, le);
  unique = λ a b wa wb.
      inv.unique a b (subst (λ rows. Memᴰ a rows) same wa) (subst (λ rows. Memᴰ b rows) same wb);
  threaded = λ m id w e.
      let (p, wp, ids, channels, top) = inv.threaded m id (subst (λ rows. Memᴰ m rows) same w) e in
      (p, subst (λ rows. Memᴰ p rows) (sym same) wp, ids, channels, top);
}

-- What the check of a thread lets through.
abbrev Threaded : ℕ → Option ℕ → List ChatMessageRow → Type 0
Threaded channel parent rows =
    (id : ℕ)
    → parent ≡ some id
    → (p : ChatMessageRow) × Memᴰ p rows
      × (p.id ≡ id)
      × (p.channel_id ≡ channel)
      × (p.parent_message_id ≡ none)

-- The numbers after `nextval`, for a message that was numbered before.
given_later :
    (m : ChatMessageRow) (channel n last : ℕ) (rows rows' : List ChannelSequence)
    → ((k : ℕ) × (last_of m.channel_id rows ≡ some k) × (m.sequence_number ≤ k))
    → last_of channel rows ≡ some last
    → n ≡ suc last
    → ((c : ℕ) → last_of c rows' ≡ (if c == channel then some n else last_of c rows))
    → (k : ℕ) × (last_of m.channel_id rows' ≡ some k) × (m.sequence_number ≤ k)
given_later m channel n last rows rows' (k, given, le) held is all =
    let now = all m.channel_id in
    elim (Bool-cases (m.channel_id == channel)) [
      | inl same ↦
          let e : m.channel_id ≡ channel = ground arith in
          let at : last_of channel rows ≡ some k = rw e at given in (n, ground arith, ground arith)
      | inr other ↦ (k, ground arith, le)
    ]

-- The table after an insert of a numbered message.
pub create_message-IsNumbered :
    (new_id now org : ℕ) (input : SendMessageInput) (n : ℕ) (rows' : List ChannelSequence)
    (db : ChatDb)
    → next_sequence input.channel_id db.sequences ≡ some (n, rows')
    → Threaded input.channel_id input.parent_message_id db.messages
    → IsNumbered db
    → IsNumbered (create_message new_id now org input n (record db { sequences = rows' }))
unfolding create_message
create_message-IsNumbered new_id now org input n rows' db next thread inv =
    let ((last, held, is), all) = next_sequence_lem input.channel_id db.sequences next in
    let row = new_message new_id now (message_data org input n) in
    let older =
      λ (m : ChatMessageRow) (w : Memᴰ m db.messages) (e : m.channel_id ≡ input.channel_id).
        below_next m input.channel_id n last db (inv.given m w) e held is in
    let channel_of =
      λ (m : ChatMessageRow) (e : m ≡ row). ap (λ (r : ChatMessageRow). r.channel_id) e in
    let number_of =
      λ (m : ChatMessageRow) (e : m ≡ row). ap (λ (r : ChatMessageRow). r.sequence_number) e in
    record {
      given = λ m w. elim ((Memᴰ-cons m row db.messages).0 w) [
        | inl new ↦
            let now_held = all input.channel_id in
            let number = number_of m new in
            (n, rw (channel_of m new) (ground (arith, ==_refl input.channel_id)), ground arith)
        | inr old ↦
            given_later m input.channel_id n last db.sequences rows' (inv.given m old) held is all
      ];
      unique = λ a b wa wb ec es. elim ((Memᴰ-cons a row db.messages).0 wa) [
        | inl na ↦ elim ((Memᴰ-cons b row db.messages).0 wb) [
          | inl nb ↦ na ∙ sym nb
          | inr ob ↦
              let less = older b ob (sym ec ∙ channel_of a na) in
              let number = number_of a na in absurd (ground arith)
        ]
        | inr oa ↦ elim ((Memᴰ-cons b row db.messages).0 wb) [
          | inl nb ↦
              let less = older a oa (ec ∙ channel_of b nb) in
              let number = number_of b nb in absurd (ground arith)
          | inr ob ↦ inv.unique a b oa ob ec es
        ]
      ];
      threaded = λ m id w e. elim ((Memᴰ-cons m row db.messages).0 w) [
        | inl new ↦
            let parent = ap (λ (r : ChatMessageRow). r.parent_message_id) new in
            let (p, wp, ids, channels, top) = thread id (sym parent ∙ e) in
            (p, Memᴰ.tail wp, ids, channels ∙ sym (channel_of m new), top)
        | inr old ↦
            let (p, wp, ids, channels, top) = inv.threaded m id old e in
            (p, Memᴰ.tail wp, ids, channels, top)
      ];
    }

found_message :
    (id channel : ℕ) (rows : List ChatMessageRow) (p : ChatMessageRow)
    → find_message id channel rows ≡ some p
    → Memᴰ p rows × ((p.id == id && p.channel_id == channel) ≡ true)
unfolding find_message
found_message id channel rows p found = mem-select_first _ rows found

-- The check of a thread that passes has found the parent.
pub check_thread-Threaded :
    (channel : ℕ) (parent : Option ℕ) (db : ChatDb)
    → (check_thread channel parent db).0 ≡ ok tt
    → Threaded channel parent db.messages
unfolding check_thread
check_thread-Threaded channel none db passed id e = absurd (ground arith)
check_thread-Threaded channel (some k) db passed id e =
    elim (Option-cases (find_message k channel db.messages)) [
      | inl missing ↦ absurd (ground arith)
      | inr (p, found) ↦
          let (w, fits) = found_message k channel db.messages p found in
          elim (Option-cases p.parent_message_id) [
            | inl top ↦ (p, w, ground arith, ground arith, top)
            | inr (q, reply) ↦ absurd (ground arith)
          ]
    ]

pub check_thread-state :
    (channel : ℕ) (parent : Option ℕ) (db : ChatDb) → (check_thread channel parent db).1 ≡ db
unfolding check_thread
check_thread-state channel none db = refl
check_thread-state channel (some k) db = elim (Option-cases (find_message k channel db.messages)) [
  | inl missing ↦ rw missing refl
  | inr (p, found) ↦ rw found (ground arith)
]
