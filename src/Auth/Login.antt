-- ===== src/Auth/Login.antt =====
-- Who can log in, and when an account is locked.
use multi_tenant_collaborati.Common.{
  ℕ, ◌+◌, ◌≤◌, ◌<◌, ◌≡◌, ◌≢◌, refl, String, Bool, true, false, Option, none, some, List, ◌==◌,
  ==_refl, arith, Bool-cases, Option-cases, inl, inr, ◌⊎◌, AppError, ok, err, unauthorized_error,
  forbidden_error, select_first-update_hit,
}
use multi_tenant_collaborati.Organization.Membership.{Role, member}
use multi_tenant_collaborati.Auth.Row.{UserRow, AuthDb}
use multi_tenant_collaborati.Auth.Repository.{
  find_user_by_email, increment_failed_login_attempts, lock_user,
}
use multi_tenant_collaborati.Auth.Token.{Drawn, TokenPair, active_role, issue_token_pair}
use multi_tenant_collaborati.Auth.Account.{
  SafeUser, lock_duration_ms, lockout_attempts, is_locked, fail_login, refuse_login, login_role,
  check_account, accept_login, password_valid, login,
}

check_locked :
    (now : ℕ) (u : UserRow) (db : AuthDb)
    → u.email_verified ≡ true
    → is_locked now u ≡ true
    → check_account now u db ≡ (err (forbidden_error "ACCOUNT_LOCKED"), db)
unfolding check_account
check_locked now u db v l = rw (v, l) refl

check_passes :
    (now : ℕ) (u : UserRow) (db : AuthDb)
    → u.email_verified ≡ true
    → is_locked now u ≡ false
    → check_account now u db ≡ (ok tt, db)
unfolding check_account
check_passes now u db v l = rw (v, l) refl

-- What the account's checks let pass.
check_sound :
    (now : ℕ) (u : UserRow) (db : AuthDb)
    → ((check_account now u db ≡ (ok tt, db))
        × (u.email_verified ≡ true)
        × (is_locked now u ≡ false))
      ⊎ ((e : _) × (check_account now u db ≡ (err e, db)))
unfolding check_account
check_sound now u db = elim (Bool-cases u.email_verified) [
  | inr unverified ↦ inr (forbidden_error "EMAIL_NOT_VERIFIED", rw unverified refl)
  | inl verified ↦ elim (Bool-cases (is_locked now u)) [
    | inl locked ↦ inr (forbidden_error "ACCOUNT_LOCKED", rw (verified, locked) refl)
    | inr open_now ↦ inl (rw (verified, open_now) refl, verified, open_now)
  ]
]

-- A lockout: the row of the user after the failure that reaches the threshold.
abbrev locked_row : ℕ → UserRow → UserRow
locked_row now u = record u {
  failed_login_attempts = u.failed_login_attempts + 1;
  locked_until = some (now + lock_duration_ms);
}

fail_login_users :
    (now : ℕ) (u : UserRow) (org : Option ℕ) (db : AuthDb)
    → lockout_attempts org db.organizations ≤ u.failed_login_attempts + 1
    → (fail_login now u org db).users
      ≡ lock_user u.id (now + lock_duration_ms) (increment_failed_login_attempts u.id db.users)
unfolding fail_login
fail_login_users now u org db full = ground arith

module _ (normalize : String → String) where
  find_counted :
      (email' : String) (u : UserRow) (rows : List UserRow)
      → find_user_by_email normalize email' rows ≡ some u
      → find_user_by_email normalize email' (increment_failed_login_attempts u.id rows)
        ≡ some (record u { failed_login_attempts = u.failed_login_attempts + 1 })
  unfolding find_user_by_email increment_failed_login_attempts
  find_counted email' u rows e =
      select_first-update_hit _ (λ x. x.id == u.id)
        (λ x. record x { failed_login_attempts = x.failed_login_attempts + 1 }) rows u (λ x. refl) e
        (==_refl u.id)

  find_locked :
      (email' : String) (until : ℕ) (u : UserRow) (rows : List UserRow)
      → find_user_by_email normalize email' rows ≡ some u
      → find_user_by_email normalize email' (lock_user u.id until rows)
        ≡ some (record u { locked_until = some until })
  unfolding find_user_by_email lock_user
  find_locked email' until u rows e =
      select_first-update_hit _ (λ x. x.id == u.id) (λ x. record x { locked_until = some until })
        rows u (λ x. refl) e (==_refl u.id)

  find_failed :
      (now : ℕ) (email' : String) (u : UserRow) (org : Option ℕ) (db : AuthDb)
      → find_user_by_email normalize email' db.users ≡ some u
      → lockout_attempts org db.organizations ≤ u.failed_login_attempts + 1
      → find_user_by_email normalize email' (fail_login now u org db).users
        ≡ some (locked_row now u)
  find_failed now email' u org db e full = rw (fail_login_users now u org db full) (
      find_locked email' (now + lock_duration_ms)
        (record u { failed_login_attempts = u.failed_login_attempts + 1 }) _
        (find_counted email' u db.users e))

  module _ (hash_token : ℕ → ℕ) (access_ttl : ℕ) (verify_password : String → String → Bool) where
    login_locked :
        (now : ℕ) (drawn : Drawn) (family : ℕ) (email' password : String) (org : Option ℕ)
        (u : UserRow) (db : AuthDb)
        → find_user_by_email normalize (normalize email') db.users ≡ some u
        → u.email_verified ≡ true
        → is_locked now u ≡ true
        → login normalize hash_token access_ttl verify_password now drawn family email' password org
            db
          ≡ (err (forbidden_error "ACCOUNT_LOCKED"), db)
    unfolding login
    login_locked now drawn family email' password org u db e v l =
        let step = check_locked now u db v l in ground arith

    login_wrong :
        (now : ℕ) (drawn : Drawn) (family : ℕ) (email' password : String) (org : Option ℕ)
        (u : UserRow) (db : AuthDb)
        → find_user_by_email normalize (normalize email') db.users ≡ some u
        → u.email_verified ≡ true
        → is_locked now u ≡ false
        → password_valid normalize hash_token access_ttl verify_password password u ≡ false
        → login normalize hash_token access_ttl verify_password now drawn family email' password org
            db
          ≡ refuse_login now u org db
    unfolding login
    login_wrong now drawn family email' password org u db e v l w =
        let step = check_passes now u db v l in ground arith

    -- A wrong password that brings the failures of an open, verified account to the threshold (that of
    -- the organization named, or five) is answered with ACCOUNT_LOCKED, and during the next thirty
    -- minutes every login of the user, whatever its password and organization, is answered with
    -- ACCOUNT_LOCKED and writes nothing.
    pub lockout :
        (now later : ℕ) (drawn drawn' : Drawn) (family family' : ℕ)
        (email' password password' : String) (org org' : Option ℕ) (u : UserRow) (db : AuthDb)
        → find_user_by_email normalize (normalize email') db.users ≡ some u
        → u.email_verified ≡ true
        → is_locked now u ≡ false
        → password_valid normalize hash_token access_ttl verify_password password u ≡ false
        → lockout_attempts org db.organizations ≤ u.failed_login_attempts + 1
        → later < now + lock_duration_ms
        → let (r, after) =
            login normalize hash_token access_ttl verify_password now drawn family email' password
              org db in
          (r ≡ err (forbidden_error "ACCOUNT_LOCKED"))
          × (login normalize hash_token access_ttl verify_password later drawn' family' email'
                password' org' after
              ≡ (err (forbidden_error "ACCOUNT_LOCKED"), after))
    unfolding refuse_login
    lockout now later drawn drawn' family family' email' password password' org org' u db e v l w
          full soon =
        rw (login_wrong now drawn family email' password org u db e v l w) (
          ground arith,
          login_locked later drawn' family' email' password' org' (locked_row now u) _
              (find_failed now (normalize email') u org db e full) v (ground arith),
        )

    login_missing :
        (now : ℕ) (drawn : Drawn) (family : ℕ) (email' password : String) (org : Option ℕ)
        (db : AuthDb)
        → find_user_by_email normalize (normalize email') db.users ≡ none
        → login normalize hash_token access_ttl verify_password now drawn family email' password org
            db
          ≡ (err (unauthorized_error "INVALID_CREDENTIALS"), db)
    unfolding login
    login_missing now drawn family email' password org db e = ground arith

    login_refused :
        (now : ℕ) (drawn : Drawn) (family : ℕ) (email' password : String) (org : Option ℕ)
        (u : UserRow) (db : AuthDb) (x : AppError)
        → find_user_by_email normalize (normalize email') db.users ≡ some u
        → check_account now u db ≡ (err x, db)
        → login normalize hash_token access_ttl verify_password now drawn family email' password org
            db
          ≡ (err x, db)
    unfolding login
    login_refused now drawn family email' password org u db x e c = ground arith

    login_right :
        (now : ℕ) (drawn : Drawn) (family : ℕ) (email' password : String) (org : Option ℕ)
        (u : UserRow) (db : AuthDb)
        → find_user_by_email normalize (normalize email') db.users ≡ some u
        → check_account now u db ≡ (ok tt, db)
        → password_valid normalize hash_token access_ttl verify_password password u ≡ true
        → login normalize hash_token access_ttl verify_password now drawn family email' password org
            db
          ≡ accept_login normalize hash_token access_ttl now drawn family u org db
    unfolding login
    login_right now drawn family email' password org u db e c w = ground arith

    refuse_login_fails :
        (now : ℕ) (u : UserRow) (org : Option ℕ) (db : AuthDb) (r : TokenPair × SafeUser)
        → (refuse_login now u org db).0 ≢ ok r
    unfolding refuse_login
    refuse_login_fails now u org db r h = ground arith

    -- The session's organization with the role there, which an active membership gives.
    abbrev pub HasRole : AuthDb → UserRow → Option ℕ → Role → Type 0
    HasRole db u org role =
        ((org ≡ none) × (role ≡ member))
        ⊎ ((o : ℕ) × (org ≡ some o) × (active_role u.id o db.memberships ≡ some role))

    accept_login_sound :
        (now : ℕ) (drawn : Drawn) (family : ℕ) (u : UserRow) (org : Option ℕ) (db : AuthDb)
        (tokens : TokenPair) (safe : SafeUser)
        → (accept_login normalize hash_token access_ttl now drawn family u org db).0
          ≡ ok (tokens, safe)
        → (tokens.access_token.sub ≡ u.id) × HasRole db u org tokens.access_token.role
    unfolding accept_login login_role issue_token_pair
    accept_login_sound now drawn family u none db tokens safe r =
        (ground arith, inl (refl, ground arith))
    accept_login_sound now drawn family u (some o) db tokens safe r =
        elim (Option-cases (active_role u.id o db.memberships)) [
          | inl no_role ↦ absurd (ground arith)
          | inr (role, e) ↦ (ground arith, inr (o, refl, ground arith))
        ]

    -- A login that succeeds names a user whose email is verified, who is not locked now and whose
    -- password it gives; the access token is for that user, with the role of an active membership in
    -- the organization that the login names, or as a plain member of none.
    pub login_sound :
        (now : ℕ) (drawn : Drawn) (family : ℕ) (email' password : String) (org : Option ℕ)
        (db : AuthDb) (tokens : TokenPair) (safe : SafeUser)
        → (login normalize hash_token access_ttl verify_password now drawn family email' password
            org db).0
          ≡ ok (tokens, safe)
        → (u : UserRow) × (find_user_by_email normalize (normalize email') db.users ≡ some u)
          × (u.email_verified ≡ true)
          × (is_locked now u ≡ false)
          × (password_valid normalize hash_token access_ttl verify_password password u ≡ true)
          × (tokens.access_token.sub ≡ u.id)
          × HasRole db u org tokens.access_token.role
    login_sound now drawn family email' password org db tokens safe r =
        elim (Option-cases (find_user_by_email normalize (normalize email') db.users)) [
          | inl missing ↦
              absurd (ground (arith, login_missing now drawn family email' password org db missing))
          | inr (u, e) ↦ elim (check_sound now u db) [
            | inr (x, c) ↦
                absurd
                  (ground (arith, login_refused now drawn family email' password org u db x e c))
            | inl (c, v, l) ↦
                elim (Bool-cases
                  (password_valid normalize hash_token access_ttl verify_password password u)) [
                    | inr wrong ↦
                        let run =
                          login_wrong now drawn family email' password org u db e v l wrong in
                        absurd (refuse_login_fails now u org db (tokens, safe) (rw run at r))
                    | inl right ↦
                        let run = login_right now drawn family email' password org u db e c right in
                        let (sub, role) =
                          accept_login_sound now drawn family u org db tokens safe (rw run at r) in
                        (u, e, v, l, right, sub, role)
                  ]
          ]
        ]
