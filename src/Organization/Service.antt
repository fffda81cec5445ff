-- ===== src/Organization/Service.antt =====
-- src/modules/organization/services/organization.service.ts: the requests on one organization.
use multi_tenant_collaborati.Common.{
  ℕ, String, not, ◌||◌, Option, none, some, List, ◌∷◌, if◌then◌else◌, Action, pure, throw, gets,
  or_throw, throw_if, modify, ◌>>=◌, ◌>>◌, not_found_error, forbidden_error, conflict_error,
}
use multi_tenant_collaborati.Organization.Row.{
  OrgRow, OrgStatus, active, suspended, offboarding, UpdateOrgData, org_status_eq, find_by_id,
  update, update_status,
}

-- The payload of the outbox event, by its event type.
pub data OrgEvent : Type 0 where
  org_suspended : (reason : String) → OrgEvent
  org_reactivated org_offboarding_started : OrgEvent

pub record OutboxRow : Type 0 where
  pub org_id : ℕ
  pub actor_user_id : Option ℕ
  pub payload : OrgEvent

pub record OrgDb : Type 0 where
  pub organizations : List OrgRow
  pub outbox : List OutboxRow
  pub audit : List OutboxRow

unfoldable pub get_org : ℕ → Action OrgDb OrgRow
get_org org = do
  found ← gets (λ db. find_by_id org db.organizations)
  or_throw found not_found_error

abbrev pub set_status : ℕ → OrgStatus → Option ℕ → Action OrgDb (Unit {0})
set_status org status started =
    modify
      λ db. record db { organizations = update_status org status started none db.organizations }

-- The outbox event and, after it, the audit log.
abbrev pub announce : ℕ → Option ℕ → OrgEvent → Action OrgDb (Unit {0})
announce org actor event =
    let row : OutboxRow = record { org_id = org; actor_user_id = actor; payload = event } in
    modify (λ db. record db { outbox = row ∷ db.outbox })
    >> modify (λ db. record db { audit = row ∷ db.audit })

unfoldable pub suspend_org : ℕ → String → Option ℕ → Action OrgDb (Unit {0})
suspend_org org reason actor = do
  o ← get_org org
  if org_status_eq o.status active
      then set_status org suspended none >> announce org actor (org_suspended reason)
      else pure tt

unfoldable pub reactivate_org : ℕ → Option ℕ → Action OrgDb (Unit {0})
reactivate_org org actor = do
  o ← get_org org
  throw_if (not (org_status_eq o.status suspended)) (forbidden_error "INVALID_STATUS_TRANSITION")
  set_status org active none
  announce org actor org_reactivated

unfoldable pub start_offboarding : ℕ → ℕ → Option ℕ → Action OrgDb (Unit {0})
start_offboarding now org actor = do
  o ← get_org org
  throw_if (not (org_status_eq o.status active || org_status_eq o.status suspended))
      (forbidden_error "INVALID_STATUS_TRANSITION")
  set_status org offboarding (some now)
  announce org actor org_offboarding_started

-- No row of this version: the organization is gone, or it has another version.
unfoldable pub updated_or_conflict : ℕ → Option OrgRow → Action OrgDb OrgRow
updated_or_conflict org (some o) = pure o
updated_or_conflict org none = do existing ← get_org org; throw (conflict_error "VERSION_CONFLICT")

unfoldable pub update_org : ℕ → UpdateOrgData → ℕ → Action OrgDb OrgRow
update_org org d expected db =
    let (updated, rows) = update org d expected db.organizations in
    updated_or_conflict org updated (record db { organizations = rows })
