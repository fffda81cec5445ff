-- ===== src/Payment/Grace.antt =====
-- src/modules/payment/workers/payment.worker.ts: the grace period of an organization whose payment
-- failed. Dates are milliseconds since the epoch.
use multi_tenant_collaborati.Common.{
  ℕ, ◌+◌, ◌*◌, String, Bool, true, not, ◌&&◌, ◌||◌, Option, none, some, List, ◌∷◌, ◌==◌, ltb,
  if◌then◌else◌, is_some, update_where, Result,
}
use multi_tenant_collaborati.Organization.Row.{OrgRow, active, suspended, org_status_eq, find_by_id}
use multi_tenant_collaborati.Organization.Service.{OrgDb, suspend_org, reactivate_org}

-- The payload of `org.grace_period_started`.
pub record GraceStarted : Type 0 where
  pub org_id : ℕ
  pub grace_period_ends_at : ℕ

-- A delayed job `check-grace-period`.
pub record GraceCheck : Type 0 where
  pub org_id : ℕ
  pub due_at : ℕ

pub record GraceDb : Type 0 where
  pub orgs : OrgDb
  pub events : List GraceStarted
  pub checks : List GraceCheck

abbrev pub grace_ms : ℕ
grace_ms = 7 * 24 * 60 * 60 * 1000

abbrev pub set_organizations : List OrgRow → GraceDb → GraceDb
set_organizations rows db = record db { orgs = record db.orgs { organizations = rows } }

-- `… SET grace_period_ends_at = NOW() + INTERVAL '7 days' WHERE id = $1 AND status = 'active'`.
unfoldable pub start_grace : ℕ → ℕ → List OrgRow → List OrgRow
start_grace now org rows =
    update_where (λ o. o.id == org && org_status_eq o.status active)
      (λ o. record o { grace_period_ends_at = some (now + grace_ms) }) rows

-- `… SET grace_period_ends_at = NULL WHERE id = $1`.
unfoldable pub clear_grace : ℕ → List OrgRow → List OrgRow
clear_grace org rows =
    update_where (λ o. o.id == org) (λ o. record o { grace_period_ends_at = none }) rows

abbrev pub begin_grace : ℕ → ℕ → GraceDb → GraceDb
begin_grace now org db = record db {
  orgs = record db.orgs { organizations = start_grace now org db.orgs.organizations };
  events = (record { org_id = org; grace_period_ends_at = now + grace_ms }) ∷ db.events;
  checks = (record { org_id = org; due_at = now + grace_ms }) ∷ db.checks;
}

abbrev pub fail_org : ℕ → ℕ → Option OrgRow → GraceDb → GraceDb
fail_org now org none db = db
fail_org now org (some o) db =
    if org_status_eq o.status suspended || is_some o.grace_period_ends_at
    then db
    else begin_grace now org db

unfoldable pub handle_payment_failure : ℕ → ℕ → GraceDb → GraceDb
handle_payment_failure now org db = fail_org now org (find_by_id org db.orgs.organizations) db

abbrev pub expiry_reason : String
expiry_reason = "Payment failure — grace period expired"

-- `!org.grace_period_ends_at || org.grace_period_ends_at > new Date()`.
abbrev pub not_expired : ℕ → Option ℕ → Bool
not_expired now none = true
not_expired now (some ends_at) = ltb now ends_at

abbrev pub on_orgs : Result (Unit {0}) × OrgDb → GraceDb → GraceDb
on_orgs (_, orgs') db = record db { orgs = orgs' }

abbrev pub check_org : ℕ → ℕ → Option OrgRow → GraceDb → GraceDb
check_org now org none db = db
check_org now org (some o) db =
    if not (org_status_eq o.status active) || not_expired now o.grace_period_ends_at
    then db
    else on_orgs (suspend_org org expiry_reason none db.orgs) db

unfoldable pub check_grace_period : ℕ → ℕ → GraceDb → GraceDb
check_grace_period now org db = check_org now org (find_by_id org db.orgs.organizations) db

abbrev pub reactivated : ℕ → OrgRow → GraceDb → GraceDb
reactivated org o db =
    if org_status_eq o.status suspended then on_orgs (reactivate_org org none db.orgs) db else db

abbrev pub capture_org : ℕ → Option OrgRow → GraceDb → GraceDb
capture_org org none db = db
capture_org org (some o) db =
    let after = reactivated org o db in
    set_organizations (clear_grace org after.orgs.organizations) after

-- The job `payment-captured`. Nothing under src/ adds it to the queue.
unfoldable pub handle_payment_captured : ℕ → GraceDb → GraceDb
handle_payment_captured org db = capture_org org (find_by_id org db.orgs.organizations) db

pub data PaymentJob : Type 0 where
  payment_failure check_grace payment_captured unknown : PaymentJob

unfoldable pub payment_worker_job : ℕ → PaymentJob → ℕ → GraceDb → GraceDb
payment_worker_job now payment_failure org db = handle_payment_failure now org db
payment_worker_job now check_grace org db = check_grace_period now org db
payment_worker_job now payment_captured org db = handle_payment_captured org db
payment_worker_job now unknown org db = db
