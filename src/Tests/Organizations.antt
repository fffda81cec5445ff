-- ===== src/Tests/Organizations.antt =====
-- The life of an organization, and an invitation to it.
use multi_tenant_collaborati.Common.{
  ℕ, ◌+◌, ◌≤◌, ◌≡◌, refl, true, none, some, List, [], ◌∷◌, arith, ok, err, app_error,
}
use multi_tenant_collaborati.Organization.Row.{OrgRow, active, suspended, offboarding, find_by_id}
use multi_tenant_collaborati.Organization.Membership.{
  MembershipStatus, member, org_owner, MembershipRow, count_active_members,
}
use multi_tenant_collaborati.Organization.Service.{OrgDb}
use multi_tenant_collaborati.Organization.Lifecycle.{
  OrgRequest, suspend, reactivate, offboard, run_all, OrgPath, lifecycle,
}
use multi_tenant_collaborati.Organization.Invitation.{
  InvitationRow, InvitationDb, pending, accept_invitation,
}
use multi_tenant_collaborati.Payment.Grace.{
  GraceDb, handle_payment_failure, check_grace_period, handle_payment_captured,
}
use multi_tenant_collaborati.Payment.Suspension.{OrgIs, pay, grace_period_decides}
use multi_tenant_collaborati.Payment.Between.{PaymentStep, verification, delivery}
use multi_tenant_collaborati.Payment.Webhook.{captured_event}
use multi_tenant_collaborati.Organization.Joining.{accept_once}
use multi_tenant_collaborati.Auth.Repository.{find_user_by_email}
use multi_tenant_collaborati.Auth.Token.{TokenPair, Drawn}
use multi_tenant_collaborati.Tests.Accounts.{accounts, user, same_text, same_hash, drawn_next}
use multi_tenant_collaborati.Tests.Payments.{organization, ordered, no_uuid}

abbrev registry : OrgDb
registry = record { organizations = organization ∷ []; outbox = []; audit = [] }

abbrev closing : OrgRow
closing = record organization { status = offboarding }

abbrev closing_registry : OrgDb
closing_registry = record registry { organizations = closing ∷ [] }

found_active : find_by_id 1 registry.organizations ≡ some organization
unfolding find_by_id
found_active = refl

found_closing : find_by_id 1 closing_registry.organizations ≡ some closing
unfolding find_by_id
found_closing = refl

abbrev requests : List OrgRequest
requests = suspend 1 "unpaid" none ∷ reactivate 1 none ∷ offboard 9 1 none ∷ []

lifecycle_example :
    (o' : OrgRow) × (find_by_id 1 (run_all requests registry).organizations ≡ some o')
    × OrgPath active o'.status
lifecycle_example = lifecycle requests 1 registry organization found_active

abbrev late_payer : GraceDb
late_payer = record { orgs = registry; events = []; checks = [] }

late_payer-OrgIs : OrgIs 1 active none late_payer
late_payer-OrgIs = (organization, found_active, refl, refl)

-- The client verifies order 500 two milliseconds later, and the capture is delivered as well.
abbrev late_payments : List PaymentStep
late_payments =
    verification 30 7 1 500 9 true
    ∷ delivery 8 (captured_event (record { id = 9; order_id = some 500 }))
    ∷ []

grace_period_decides_example :
    let after = handle_payment_failure 5 1 late_payer in
    (check_grace_period 604800004 1 after ≡ after)
    × OrgIs 1 suspended
        (some (5 + 604800000))
        (check_grace_period 604800005 1 (pay no_uuid late_payments ordered after))
    × OrgIs 1 active none (check_grace_period 900000000 1 (handle_payment_captured 1 after))
grace_period_decides_example =
    grace_period_decides no_uuid late_payments ordered 5 604800004 604800005 900000000 1 late_payer
      late_payer-OrgIs (ground arith) (ground arith)

abbrev pub owner : MembershipRow
owner = record {
  id = 1;
  org_id = 1;
  user_id = 2;
  role = org_owner;
  status = MembershipStatus.active;
  invited_by = none;
  joined_at = some 0;
  removed_at = none;
  deleted_at = none;
  created_at = 0;
  updated_at = 0;
}

abbrev invitation : InvitationRow
invitation = record {
  id = 5;
  org_id = 1;
  invited_by = 2;
  email = "ada@example.org";
  role = member;
  token_hash = 90;
  status = pending;
  expires_at = 9000;
  accepted_at = none;
  revoked_at = none;
  created_at = 0;
}

abbrev one_seat : OrgRow
one_seat = record organization { max_members = 1 }

abbrev inviting : InvitationDb
inviting = record {
  auth = record accounts { organizations = one_seat ∷ []; memberships = owner ∷ [] };
  invitations = invitation ∷ [];
  notification_preferences = [];
  outbox = [];
}

accept_once_example :
    let (r, after) =
      accept_invitation same_text same_text same_hash 900 30 31 5000 drawn_next 3 90 inviting in
    ((p : TokenPair × ℕ) × (r ≡ ok p))
    × ((new_user_id' new_id' later : ℕ) (drawn' : Drawn) (family' : ℕ)
        → accept_invitation same_text same_text same_hash 900 new_user_id' new_id' later drawn'
            family' 90 after
          ≡ (err (app_error 410 "INVITATION_GONE"), after))
accept_once_example =
    accept_once same_text same_text same_hash 900 30 31 5000 drawn_next 3 90 invitation inviting
      refl refl (ground arith)

invited_found : find_user_by_email same_text "ada@example.org" inviting.auth.users ≡ some user
unfolding find_user_by_email
invited_found = refl

one_seat_found : find_by_id 1 inviting.auth.organizations ≡ some one_seat
unfolding find_by_id
one_seat_found = refl

seat_taken : 1 ≤ count_active_members 1 inviting.auth.memberships
unfolding count_active_members
seat_taken = omega arith
