-- ===== src/Payment/Suspension.antt =====
-- When src/modules/payment/workers/payment.worker.ts suspends an organization.
use multi_tenant_collaborati.Common.{
  ℕ, ◌+◌, ◌≤◌, ◌<◌, ◌≡◌, refl, ◌∙◌, String, true, false, ◌&&◌, Option, none, some, List, arith,
  ◌==◌, ltb, mem-select_first, select_first-update_hit,
}
use multi_tenant_collaborati.Organization.Row.{
  OrgRow, OrgStatus, active, suspended, org_status_eq, is_live_org, find_by_id, update_status,
}
use multi_tenant_collaborati.Organization.Service.{OrgDb, get_org, suspend_org}
use multi_tenant_collaborati.Payment.Grace.{
  GraceDb, set_organizations, grace_ms, start_grace, clear_grace, handle_payment_failure,
  expiry_reason, not_expired, check_grace_period, handle_payment_captured,
}
use multi_tenant_collaborati.Payment.Row.{PaymentDb}
use multi_tenant_collaborati.Payment.Webhook.{UuidText}
use multi_tenant_collaborati.Payment.Between.{PaymentStep, run_steps, run_steps-IsActive}

-- The organization's row, and what it says of the grace period.
abbrev pub OrgIs : ℕ → OrgStatus → Option ℕ → GraceDb → Type 0
OrgIs org status ends_at db =
    (o : OrgRow) × (find_by_id org db.orgs.organizations ≡ some o)
    × (o.status ≡ status)
    × (o.grace_period_ends_at ≡ ends_at)

find-start_grace :
    (now org : ℕ) (rows : List OrgRow) (o : OrgRow)
    → find_by_id org rows ≡ some o
    → o.status ≡ active
    → find_by_id org (start_grace now org rows)
      ≡ some (record o { grace_period_ends_at = some (now + grace_ms) })
unfolding find_by_id start_grace
find-start_grace now org rows o found is =
    let (_, live) = mem-select_first (is_live_org org) rows found in
    select_first-update_hit (is_live_org org)
      (λ (x : OrgRow). x.id == org && org_status_eq x.status active)
      (λ (x : OrgRow). record x { grace_period_ends_at = some (now + grace_ms) }) rows o (λ x. refl)
      found (ground arith)

find-clear_grace :
    (org : ℕ) (rows : List OrgRow) (o : OrgRow)
    → find_by_id org rows ≡ some o
    → find_by_id org (clear_grace org rows) ≡ some (record o { grace_period_ends_at = none })
unfolding find_by_id clear_grace
find-clear_grace org rows o found =
    let (_, live) = mem-select_first (is_live_org org) rows found in
    select_first-update_hit (is_live_org org) (λ (x : OrgRow). x.id == org)
      (λ (x : OrgRow). record x { grace_period_ends_at = none }) rows o (λ x. refl) found
      (ground arith)

failure-starts_grace :
    (now org : ℕ) (db : GraceDb)
    → OrgIs org active none db
    → OrgIs org active (some (now + grace_ms)) (handle_payment_failure now org db)
unfolding handle_payment_failure
failure-starts_grace now org db (o, found, is, free) =
    rw (found, is, free) (_, find-start_grace now org db.orgs.organizations o found is, is, refl)

captured-clears_grace :
    (org : ℕ) (ends_at : Option ℕ) (db : GraceDb)
    → OrgIs org active ends_at db
    → OrgIs org active none (handle_payment_captured org db)
unfolding handle_payment_captured
captured-clears_grace org ends_at db (o, found, is, _) =
    rw (found, is) (_, find-clear_grace org db.orgs.organizations o found, is, refl)

check-not_expired :
    (now org : ℕ) (ends_at : Option ℕ) (db : GraceDb)
    → OrgIs org active ends_at db
    → not_expired now ends_at ≡ true
    → check_grace_period now org db ≡ db
unfolding check_grace_period
check-not_expired now org ends_at db (o, found, is, at) early = rw (found, is, at, early) refl

suspend_org-rows :
    (org : ℕ) (reason : String) (actor : Option ℕ) (db : OrgDb) (o : OrgRow)
    → find_by_id org db.organizations ≡ some o
    → o.status ≡ active
    → (suspend_org org reason actor db).1.organizations
      ≡ update_status org suspended none none db.organizations
unfolding suspend_org get_org
suspend_org-rows org reason actor db o found is = ground arith

find-suspended :
    (org : ℕ) (rows : List OrgRow) (o : OrgRow)
    → find_by_id org rows ≡ some o
    → (o' : OrgRow) × (find_by_id org (update_status org suspended none none rows) ≡ some o')
      × (o'.status ≡ suspended)
      × (o'.grace_period_ends_at ≡ o.grace_period_ends_at)
unfolding find_by_id update_status
find-suspended org rows o found =
    let (_, live) = mem-select_first (is_live_org org) rows found in
    (
      record o { status = suspended },
      select_first-update_hit (is_live_org org) (is_live_org org)
          (λ (x : OrgRow). record x { status = suspended }) rows o (λ x. refl) found live,
      refl,
      refl,
    )

check-expired :
    (now org : ℕ) (ends_at : ℕ) (db : GraceDb)
    → OrgIs org active (some ends_at) db
    → ends_at ≤ now
    → OrgIs org suspended (some ends_at) (check_grace_period now org db)
unfolding check_grace_period
check-expired now org ends_at db (o, found, is, at) late =
    let over : ltb now ends_at ≡ false = ground arith in
    let rows = suspend_org-rows org expiry_reason none db.orgs o found is in
    let (o', found', status, grace) = find-suspended org db.orgs.organizations o found in
    rw (found, is, at, over) (o', rw rows found', status, grace ∙ at)

-- Payments on the same table of organizations.
unfoldable pub pay : (UuidText → Option ℕ) → List PaymentStep → PaymentDb → GraceDb → GraceDb
unfolding run_steps
pay parse_uuid steps payments db =
    set_organizations
      (run_steps parse_uuid steps
        (record payments { organizations = db.orgs.organizations })).organizations
      db

pay-OrgIs :
    (parse_uuid : UuidText → Option ℕ) (steps : List PaymentStep) (payments : PaymentDb) (org : ℕ)
    (ends_at : Option ℕ) (db : GraceDb)
    → OrgIs org active ends_at db
    → OrgIs org active ends_at (pay parse_uuid steps payments db)
unfolding pay
pay-OrgIs parse_uuid steps payments org ends_at db h =
    run_steps-IsActive parse_uuid steps org ends_at
      (record payments { organizations = db.orgs.organizations }) h

-- An active organization without a grace period, and a job `handle-payment-failure` for it at `now`. A
-- job `check-grace-period` before seven days are over does nothing. One at their end or later suspends
-- the organization, whatever verifications by clients and webhooks of Razorpay came in between, also
-- those that captured a payment. Only after a job `payment-captured`, a check at any time leaves the
-- organization active without a grace period.
pub grace_period_decides :
    (parse_uuid : UuidText → Option ℕ) (steps : List PaymentStep) (payments : PaymentDb)
    (now early late any_time org : ℕ) (db : GraceDb)
    → OrgIs org active none db
    → early < now + 604800000
    → now + 604800000 ≤ late
    → (let after = handle_payment_failure now org db in
        (check_grace_period early org after ≡ after)
        × OrgIs org suspended
            (some (now + 604800000))
            (check_grace_period late org (pay parse_uuid steps payments after))
        × OrgIs org active none
            (check_grace_period any_time org (handle_payment_captured org after)))
grace_period_decides parse_uuid steps payments now early late any_time org db start before over =
    let after = handle_payment_failure now org db in
    let ends_at = some (now + grace_ms) in
    let graced = failure-starts_grace now org db start in
    let cleared = captured-clears_grace org ends_at after graced in
    (
      check-not_expired early org ends_at after graced (ground arith),
      check-expired late org (now + grace_ms) (pay parse_uuid steps payments after)
          (pay-OrgIs parse_uuid steps payments org ends_at after graced) over,
      rw (check-not_expired any_time org none (handle_payment_captured org after) cleared refl)
          cleared,
    )
