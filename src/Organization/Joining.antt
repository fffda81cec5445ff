-- ===== src/Organization/Joining.antt =====
-- What accepting an invitation does.
use multi_tenant_collaborati.Common.{
  ℕ, suc, ◌≤◌, ◌<◌, ◌≡◌, refl, ap, ◌∙◌, String, true, false, some, ◌==◌, ==_refl, ltb, arith, inl,
  inr, Result-cases, ok, err, app_error, select_first, update_where, select_first-update_hit, any,
}
use multi_tenant_collaborati.Organization.Row.{OrgRow, find_by_id}
use multi_tenant_collaborati.Organization.Membership.{
  create_membership, count_active_members, is_member_row,
}
use multi_tenant_collaborati.Organization.Invitation.{
  InvitationRow, InvitationDb, accepted, is_pending, find_or_create_user, add_member,
  seed_notification_preferences, mark_accepted, write_outbox_event, issue_for, accept_pending,
  accept_row, accept_invitation,
}
use multi_tenant_collaborati.Auth.Row.{UserRow}
use multi_tenant_collaborati.Auth.Repository.{find_user_by_email}
use multi_tenant_collaborati.Auth.Token.{Drawn, TokenPair, issue_token_pair, create_refresh_token}

abbrev as_accepted : ℕ → InvitationRow → InvitationRow
as_accepted now i = record i { status = accepted; accepted_at = some now }

module _ (normalize name_of : String → String) (hash_token : ℕ → ℕ) (access_ttl : ℕ) where
  find_or_create_user_lem :
      (new_user_id now : ℕ) (i : InvitationRow) (db : InvitationDb)
      → let (r, after) =
          find_or_create_user normalize name_of hash_token access_ttl new_user_id now i db in
        ((u : UserRow) × (r ≡ ok u)) × (after.invitations ≡ db.invitations)
  unfolding find_or_create_user
  find_or_create_user_lem new_user_id now i db =
      elim (Result-cases
        (find_or_create_user normalize name_of hash_token access_ttl new_user_id now i db).0) [
          | inl fine ↦ (fine, ground arith)
          | inr (x, bad) ↦ absurd (ground arith)
        ]

  -- The request once the user is known.
  accept_for :
      (new_user_id new_id now : ℕ) (drawn : Drawn) (family : ℕ) (i : InvitationRow) (u : UserRow)
      (db db' : InvitationDb)
      → (find_or_create_user normalize name_of hash_token access_ttl new_user_id now i db).0 ≡ ok u
      → (find_or_create_user normalize name_of hash_token access_ttl new_user_id now i db).1 ≡ db'
      → let (r, after) =
          accept_pending normalize name_of hash_token access_ttl new_user_id new_id now drawn family
            i db in
        ((p : TokenPair × ℕ) × (r ≡ ok p))
        × (after.invitations ≡ update_where (λ x. x.id == i.id) (as_accepted now) db'.invitations)
        × (after.auth.memberships ≡ (add_member new_id now i u.id db').auth.memberships)
  unfolding accept_pending add_member seed_notification_preferences mark_accepted write_outbox_event
      issue_for issue_token_pair create_refresh_token
  accept_for new_user_id new_id now drawn family i u db db' user state =
      elim (Result-cases
        (accept_pending normalize name_of hash_token access_ttl new_user_id new_id now drawn family
          i db).0) [
            | inl fine ↦ (fine, ground arith, ground arith)
            | inr (x, bad) ↦ absurd (ground arith)
          ]

  accept_pending_lem :
      (new_user_id new_id now : ℕ) (drawn : Drawn) (family : ℕ) (i : InvitationRow)
      (db : InvitationDb)
      → let (r, after) =
          accept_pending normalize name_of hash_token access_ttl new_user_id new_id now drawn family
            i db in
        ((p : TokenPair × ℕ) × (r ≡ ok p))
        × (after.invitations ≡ update_where (λ x. x.id == i.id) (as_accepted now) db.invitations)
  accept_pending_lem new_user_id new_id now drawn family i db =
      let ((u, run), same) = find_or_create_user_lem new_user_id now i db in
      let (p, rows, members) = accept_for new_user_id new_id now drawn family i u db _ run refl in
      (p, rows ∙ ap (update_where (λ x. x.id == i.id) (as_accepted now)) same)

  accept_in_time :
      (new_user_id new_id now : ℕ) (drawn : Drawn) (family token : ℕ) (i : InvitationRow)
      (db : InvitationDb)
      → select_first (λ x. x.token_hash == hash_token token) db.invitations ≡ some i
      → is_pending i.status ≡ true
      → ltb i.expires_at now ≡ false
      → accept_invitation normalize name_of hash_token access_ttl new_user_id new_id now drawn
          family token db
        ≡ accept_pending normalize name_of hash_token access_ttl new_user_id new_id now drawn family
            i db
  unfolding accept_invitation accept_row
  accept_in_time new_user_id new_id now drawn family token i db e p t = ground arith

  accept_used :
      (new_user_id new_id now : ℕ) (drawn : Drawn) (family token : ℕ) (i : InvitationRow)
      (db : InvitationDb)
      → select_first (λ x. x.token_hash == hash_token token) db.invitations ≡ some i
      → is_pending i.status ≡ false
      → accept_invitation normalize name_of hash_token access_ttl new_user_id new_id now drawn
          family token db
        ≡ (err (app_error 410 "INVITATION_GONE"), db)
  unfolding accept_invitation accept_row
  accept_used new_user_id new_id now drawn family token i db e p = ground arith

  -- Accepting a pending invitation that has not expired succeeds, and its token is used up: accepting
  -- with it again, at any time, is answered 410 and writes nothing.
  pub accept_once :
      (new_user_id new_id now : ℕ) (drawn : Drawn) (family token : ℕ) (i : InvitationRow)
      (db : InvitationDb)
      → select_first (λ x. x.token_hash == hash_token token) db.invitations ≡ some i
      → is_pending i.status ≡ true
      → now ≤ i.expires_at
      → let (r, after) =
          accept_invitation normalize name_of hash_token access_ttl new_user_id new_id now drawn
            family token db in
        ((p : TokenPair × ℕ) × (r ≡ ok p))
        × ((new_user_id' new_id' later : ℕ) (drawn' : Drawn) (family' : ℕ)
            → accept_invitation normalize name_of hash_token access_ttl new_user_id' new_id' later
                drawn' family' token after
              ≡ (err (app_error 410 "INVITATION_GONE"), after))
  accept_once new_user_id new_id now drawn family token i db e p t =
      let (done, rows) = accept_pending_lem new_user_id new_id now drawn family i db in
      let found =
        select_first-update_hit (λ x. x.token_hash == hash_token token) (λ x. x.id == i.id)
          (as_accepted now) db.invitations i (λ x. refl) e (==_refl i.id) in
      rw (accept_in_time new_user_id new_id now drawn family token i db e p (ground arith)) (
        done,
        λ new_user_id' new_id' later drawn' family'.
            accept_used new_user_id' new_id' later drawn' family' token (as_accepted now i) _
              (rw rows found) refl,
      )

  find_or_create_user-found :
      (new_user_id now : ℕ) (i : InvitationRow) (db : InvitationDb) (u : UserRow)
      → find_user_by_email normalize i.email db.auth.users ≡ some u
      → find_or_create_user normalize name_of hash_token access_ttl new_user_id now i db
        ≡ (ok u, db)
  unfolding find_or_create_user
  find_or_create_user-found new_user_id now i db u e = ground arith

  count_after_join :
      (new_id now : ℕ) (i : InvitationRow) (user : ℕ) (db : InvitationDb)
      → any (is_member_row i.org_id user) db.auth.memberships ≡ false
      → count_active_members i.org_id (add_member new_id now i user db).auth.memberships
        ≡ suc (count_active_members i.org_id db.auth.memberships)
  unfolding count_active_members add_member create_membership
  count_after_join new_id now i user db new = ground (arith, ==_refl i.org_id)

  -- Accepting a pending invitation in time adds a member even when the organization has as many active
  -- members as its plan allows: the limit is checked when the invitation is sent and not here. The
  -- invited person has an account and no membership row yet.
  pub accept_passes_limit :
      (new_user_id new_id now : ℕ) (drawn : Drawn) (family token : ℕ) (i : InvitationRow)
      (u : UserRow) (o : OrgRow) (db : InvitationDb)
      → select_first (λ x. x.token_hash == hash_token token) db.invitations ≡ some i
      → is_pending i.status ≡ true
      → now ≤ i.expires_at
      → find_user_by_email normalize i.email db.auth.users ≡ some u
      → any (is_member_row i.org_id u.id) db.auth.memberships ≡ false
      → find_by_id i.org_id db.auth.organizations ≡ some o
      → o.max_members ≤ count_active_members i.org_id db.auth.memberships
      → let (r, after) =
          accept_invitation normalize name_of hash_token access_ttl new_user_id new_id now drawn
            family token db in
        ((p : TokenPair × ℕ) × (r ≡ ok p))
        × (o.max_members < count_active_members i.org_id after.auth.memberships)
  accept_passes_limit new_user_id new_id now drawn family token i u o db e p t user new org full =
      let known = find_or_create_user-found new_user_id now i db u user in
      let (done, rows, members) =
        accept_for new_user_id new_id now drawn family i u db db (ap (λ x. x.0) known)
          (ap (λ x. x.1) known) in
      let counted = count_after_join new_id now i u.id db new in
      rw (accept_in_time new_user_id new_id now drawn family token i db e p (ground arith))
        (done, rw (members, counted) (omega (arith, full)))
