-- ===== src/Organization/Invitation.antt =====
-- src/modules/organization/services/invitation.service.ts. The token of an invitation is an HMAC of
-- its payload and a token's hash is library code: the first is an argument, the second a parameter.
use multi_tenant_collaborati.Common.{
  ℕ, ◌+◌, String, Bool, true, false, not, ◌&&◌, Option, none, some, List, [], ◌∷◌, ◌==◌,
  if◌then◌else◌, ltb, leb, Action, pure, throw, gets, or_throw, throw_if, modify, ◌>>=◌, ◌>>◌,
  app_error, not_found_error, forbidden_error, select_first, update_where, any,
}
use text.Mathlib.Text.{◌==◌ as str_eq}
use multi_tenant_collaborati.Organization.Membership.{Role, create_membership, count_active_members}
use multi_tenant_collaborati.Organization.Row.{active, org_status_eq, find_by_id}
use multi_tenant_collaborati.Auth.Row.{UserRow, Provider, AuthDb}
use multi_tenant_collaborati.Auth.Repository.{find_user_by_email, new_user, create_user_preferences}
use multi_tenant_collaborati.Auth.Token.{TokenPair, Drawn, issue_token_pair}

pub data InvitationStatus : Type 0 where
  pending accepted expired revoked : InvitationStatus

pub record InvitationRow : Type 0 where
  pub id : ℕ
  pub org_id : ℕ
  pub invited_by : ℕ
  pub email : String
  pub role : Role
  pub token_hash : ℕ
  pub status : InvitationStatus
  pub expires_at : ℕ
  pub accepted_at : Option ℕ
  pub revoked_at : Option ℕ
  pub created_at : ℕ

-- The payload of the outbox event, by its event type.
pub data InvitationEvent : Type 0 where
  invitation_created : (token : ℕ) → InvitationEvent
  member_joined : (role : Role) → InvitationEvent
  invitation_revoked : InvitationEvent

pub record OutboxRow : Type 0 where
  pub org_id : ℕ
  pub entity_id : ℕ
  pub actor_user_id : ℕ
  pub payload : InvitationEvent

pub record PreferenceRow : Type 0 where
  pub org_id : ℕ
  pub user_id : ℕ
  pub event_type : String

pub record InvitationDb : Type 0 where
  pub auth : AuthDb
  pub invitations : List InvitationRow
  pub notification_preferences : List PreferenceRow
  pub outbox : List OutboxRow

-- Seven days in milliseconds.
abbrev pub invitation_ttl_ms : ℕ
invitation_ttl_ms = 604800000

abbrev pub is_pending : InvitationStatus → Bool
is_pending pending = true
is_pending _ = false

unfoldable pub write_outbox_event : OutboxRow → InvitationDb → InvitationDb
write_outbox_event row db = record db { outbox = row ∷ db.outbox }

abbrev pub notification_event_types : List String
notification_event_types =
    "task.assigned" ∷ "task.updated" ∷ "task.status_changed" ∷ "task.commented" ∷ "task.mentioned"
    ∷ "task.due_soon" ∷ "message.received" ∷ "mention.created" ∷ "member.joined" ∷ "member.removed"
    ∷ "file.quarantined" ∷ "org.suspended" ∷ "payment.failed" ∷ "invitation.created" ∷ []

-- `INSERT … ON CONFLICT (org_id, user_id, event_type) DO NOTHING`.
unfoldable pub seed_preference : ℕ → ℕ → String → List PreferenceRow → List PreferenceRow
seed_preference org user event_type' rows =
    if any (λ p. p.org_id == org && (p.user_id == user && str_eq p.event_type event_type')) rows
    then rows
    else record { org_id = org; user_id = user; event_type = event_type' } ∷ rows

unfoldable pub seed_all : ℕ → ℕ → List String → List PreferenceRow → List PreferenceRow
seed_all org user [] rows = rows
seed_all org user (e ∷ es) rows = seed_all org user es (seed_preference org user e rows)

unfoldable pub seed_notification_preferences : ℕ → ℕ → InvitationDb → InvitationDb
seed_notification_preferences org user db = record db {
  notification_preferences = seed_all org user notification_event_types db.notification_preferences;
}

abbrev pub set_invitation : ℕ → (InvitationRow → InvitationRow) → InvitationDb → InvitationDb
set_invitation id f db = record db { invitations = update_where (λ i. i.id == id) f db.invitations }

abbrev pub is_pending_for : ℕ → String → InvitationRow → Bool
is_pending_for org email i = i.org_id == org && (str_eq i.email email && is_pending i.status)

-- The statements on the tables that the invitations share with the logins.
unfoldable pub add_member : ℕ → ℕ → InvitationRow → ℕ → InvitationDb → InvitationDb
add_member new_id now i user db = record db {
  auth = record db.auth {
    memberships =
        create_membership new_id now
          (record {
            org_id = i.org_id;
            user_id = user;
            role = i.role;
            invited_by = some i.invited_by;
            joined_at = some now;
          })
          db.auth.memberships;
  };
}

unfoldable pub mark_accepted : ℕ → InvitationRow → InvitationDb → InvitationDb
mark_accepted now i =
    set_invitation i.id (λ x. record x { status = accepted; accepted_at = some now })

unfoldable pub revoke_invitation : ℕ → ℕ → ℕ → ℕ → Action InvitationDb (Unit {0})
revoke_invitation now org id by = do
  found ←
      gets (λ db. any (λ i. i.id == id && (i.org_id == org && is_pending i.status)) db.invitations)
  throw_if (not found) not_found_error
  modify (λ db. record db {
    invitations =
        update_where (λ i. i.id == id && (i.org_id == org && is_pending i.status))
          (λ i. record i { status = revoked; revoked_at = some now }) db.invitations;
  })
  modify (
      write_outbox_event
        (record { org_id = org; entity_id = id; actor_user_id = by; payload = invitation_revoked }))

module _ (normalize name_of : String → String) (hash_token : ℕ → ℕ) (access_ttl : ℕ) where
  unfoldable pub invite : ℕ → ℕ → ℕ → ℕ → ℕ → String → Role → Action InvitationDb InvitationRow
  invite new_id now token org by email' role' = do
    found ← gets (λ db. find_by_id org db.auth.organizations)
    o ← or_throw found not_found_error
    throw_if (not (org_status_eq o.status active)) (forbidden_error "ORG_NOT_ACTIVE")
    count ← gets (λ db. count_active_members org db.auth.memberships)
    throw_if (leb o.max_members count) (forbidden_error "PLAN_MEMBER_LIMIT_EXCEEDED")
    waiting ← gets (λ db. any (is_pending_for org (normalize email')) db.invitations)
    throw_if waiting (forbidden_error "INVITATION_ALREADY_PENDING")
    let i : InvitationRow = record {
      id = new_id;
      org_id = org;
      invited_by = by;
      email = normalize email';
      role = role';
      token_hash = hash_token token;
      status = pending;
      expires_at = now + invitation_ttl_ms;
      accepted_at = none;
      revoked_at = none;
      created_at = now;
    } in
        modify (λ db. record db { invitations = i ∷ db.invitations })
        >> modify (
            write_outbox_event (record {
              org_id = org;
              entity_id = i.id;
              actor_user_id = by;
              payload = invitation_created token;
            }))
        >> pure i

  -- The user of the invitation's address, who is created if there is none; `name_of` is the part of
  -- the address before the `@`.
  unfoldable pub find_or_create_user : ℕ → ℕ → InvitationRow → Action InvitationDb UserRow
  find_or_create_user new_user_id now i db =
      elim (find_user_by_email normalize i.email db.auth.users) [
        | some u ↦ pure u db
        | none ↦
            let u = new_user normalize new_user_id now (record {
              email = i.email;
              name = name_of i.email;
              password_hash = none;
              email_verified = some true;
              avatar_url = none;
            }) in
            pure u (record db {
              auth = record db.auth {
                users = u ∷ db.auth.users;
                preferences = create_user_preferences now u.id db.auth.preferences;
                providers =
                    record {
                      user_id = u.id;
                      provider = Provider.email;
                      provider_user_id = i.email;
                      org_id = none;
                    }
                    ∷ db.auth.providers;
              };
            })
      ]

  unfoldable pub issue_for : ℕ → Drawn → ℕ → InvitationRow → UserRow → Action InvitationDb TokenPair
  issue_for now drawn family i u db =
      let (r, auth') =
        issue_token_pair hash_token access_ttl now drawn family u.id (some i.org_id) i.role
          u.is_platform_admin none db.auth in
      (r, record db { auth = auth' })

  -- What a pending invitation in time does.
  unfoldable pub accept_pending :
      ℕ → ℕ → ℕ → Drawn → ℕ → InvitationRow → Action InvitationDb (TokenPair × ℕ)
  accept_pending new_user_id new_id now drawn family i = do
    u ← find_or_create_user new_user_id now i
    modify (add_member new_id now i u.id)
    modify (seed_notification_preferences i.org_id u.id)
    modify (mark_accepted now i)
    modify (
        write_outbox_event (record {
          org_id = i.org_id;
          entity_id = u.id;
          actor_user_id = u.id;
          payload = member_joined i.role;
        }))
    tokens ← issue_for now drawn family i u
    pure (tokens, u.id)

  unfoldable pub accept_row :
      ℕ → ℕ → ℕ → Drawn → ℕ → InvitationRow → Action InvitationDb (TokenPair × ℕ)
  accept_row new_user_id new_id now drawn family i = do
    throw_if (not (is_pending i.status)) (app_error 410 "INVITATION_GONE")
    if ltb i.expires_at now
        then (modify (set_invitation i.id (λ x. record x { status = expired }))
            >> throw (app_error 410 "INVITATION_EXPIRED"))
        else accept_pending new_user_id new_id now drawn family i

  unfoldable pub accept_invitation : ℕ → ℕ → ℕ → Drawn → ℕ → ℕ → Action InvitationDb (TokenPair × ℕ)
  accept_invitation new_user_id new_id now drawn family token = do
    found ← gets (λ db. select_first (λ i. i.token_hash == hash_token token) db.invitations)
    i ← or_throw found not_found_error
    accept_row new_user_id new_id now drawn family i
