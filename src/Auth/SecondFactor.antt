-- ===== src/Auth/SecondFactor.antt =====
-- What src/modules/auth/services/mfa.service.ts and magic-link.service.ts accept, and how often.
use multi_tenant_collaborati.Common.{
  ℕ, ◌+◌, ◌-◌, ◌<◌, ◌≡◌, refl, ◌⊎◌, inl, inr, mem-select_first, String, Bool, true, Option, none,
  some, List, [], ◌∷◌, arith, if◌then◌else◌, Bool-cases, ltb, select_first-update_hit, ok, err,
  unauthorized_error, redis_get, redis_get-set, redis_get-del, redis_del,
}
use multi_tenant_collaborati.Organization.Membership.{Role, member}
use multi_tenant_collaborati.Auth.Row.{UserRow, AuthDb}
use multi_tenant_collaborati.Auth.Repository.{
  find_user_by_id, find_user_by_email, update_user, is_live_user,
}
use multi_tenant_collaborati.Auth.Token.{Drawn, TokenPair, issue_token_pair}
use multi_tenant_collaborati.Auth.Mfa.{
  enable_totp, verify_user_totp, use_code, accept_code, verify_backup_code,
}
use multi_tenant_collaborati.Auth.MagicLink.{
  MagicLink, MagicDb, request_link, store_link, on_auth, verify_email, verify_link,
}
use multi_tenant_collaborati.Crypto.{Cipher, encrypt}
use multi_tenant_collaborati.Crypto.RoundTrip.{IsCipher, decrypt-encrypt}

-- The row of a user after an update that keeps its id and its deletion.
find_user-update :
    (user : ℕ) (f : UserRow → UserRow) (rows : List UserRow) (row : UserRow)
    → ((u : UserRow) → is_live_user user (f u) ≡ is_live_user user u)
    → find_user_by_id user rows ≡ some row
    → find_user_by_id user (update_user user f rows) ≡ some (f row)
unfolding find_user_by_id update_user
find_user-update user f rows row keeps found =
    let (_, live) = mem-select_first (is_live_user user) rows found in
    select_first-update_hit (is_live_user user) (is_live_user user) f rows row keeps found live

module _ {Bytes : Type 0} (cipher : Cipher Bytes) (verify_totp : String → String → Bool) where
  -- After a live user enabled TOTP with a secret, the codes that are accepted are those of that
  -- secret, for a cipher and Base64 as documented.
  pub verify_user_totp-enable_totp :
      (key iv : Bytes) (user : ℕ) (secret token : String) (db : AuthDb) (row : UserRow)
      → IsCipher cipher
      → find_user_by_id user db.users ≡ some row
      → verify_user_totp cipher key verify_totp user token
          (enable_totp cipher key iv user secret db)
        ≡ some (verify_totp token secret)
  unfolding verify_user_totp enable_totp
  verify_user_totp-enable_totp key iv user secret token db row laws found =
      rw
        (
          find_user-update user
              (λ u. record u {
                totp_secret = some (encrypt cipher key iv secret);
                totp_enabled = true;
              })
              db.users row (λ u. refl) found,
          decrypt-encrypt cipher key iv secret laws,
        )
        refl

module _ (bcrypt_compare : List ℕ → String → Bool) where
  -- How many of the stored hashes a code fits.
  unfoldable pub fitting : List ℕ → List String → ℕ
  fitting code [] = 0
  fitting code (hash ∷ hashes) = (if bcrypt_compare code hash then 1 else 0) + fitting code hashes

  use_code-fitting :
      (code : List ℕ) (hashes : List String)
      → (use_code bcrypt_compare code hashes ≡ none × (fitting code hashes ≡ 0))
        ⊎ ((left : List String) × (use_code bcrypt_compare code hashes ≡ some left)
            × (fitting code hashes ≡ fitting code left + 1))
  unfolding use_code fitting
  use_code-fitting code [] = inl (refl, refl)
  use_code-fitting code (hash ∷ hashes) = elim (Bool-cases (bcrypt_compare code hash)) [
    | inl fits ↦ inr (hashes, rw fits refl, rw fits (omega arith))
    | inr other ↦ elim (use_code-fitting code hashes) [
      | inl (e, n) ↦ inl (rw (other, e) refl, rw other (omega (arith, n)))
      | inr (left, e, n) ↦ inr (hash ∷ left, rw (other, e) refl, rw other (omega (arith, n)))
    ]
  ]

  verify_backup_code-run :
      (user : ℕ) (code : List ℕ) (db : AuthDb) (row : UserRow)
      → find_user_by_id user db.users ≡ some row
      → verify_backup_code bcrypt_compare user code db
        ≡ accept_code bcrypt_compare user (use_code bcrypt_compare code row.mfa_backup_codes) db
  unfolding verify_backup_code
  verify_backup_code-run user code db row found = rw found refl

  -- A code of a live user is accepted exactly when it fits a stored hash, and each use removes one:
  -- a code that fits one hash is accepted once.
  pub backup_code_used :
      (user : ℕ) (code : List ℕ) (db : AuthDb) (row : UserRow)
      → find_user_by_id user db.users ≡ some row
      → (let (accepted, after) = verify_backup_code bcrypt_compare user code db in
          (accepted ≡ ltb 0 (fitting code row.mfa_backup_codes))
          × ((row' : UserRow) × (find_user_by_id user after.users ≡ some row')
              × (fitting code row'.mfa_backup_codes ≡ fitting code row.mfa_backup_codes - 1)))
  backup_code_used user code db row found =
      rw (verify_backup_code-run user code db row found)
        elim (use_code-fitting code row.mfa_backup_codes) [
          | inl (e, n) ↦ rw e (ground arith, (row, found, omega (arith, n)))
          | inr (left, e, n) ↦ rw e (
            ground arith,
            (
              record row { mfa_backup_codes = left },
              find_user-update user (λ u. record u { mfa_backup_codes = left }) db.users row
                  (λ u. refl) found,
              omega (arith, n),
            ),
          )
        ]

module _ (normalize : String → String) (hash_token : ℕ → ℕ) (access_ttl : ℕ) where
  issue_token_pair-claims :
      (now : ℕ) (drawn : Drawn) (family user : ℕ) (org : Option ℕ) (role : Role) (admin : Bool)
      (db : AuthDb)
      → (pair : TokenPair) × ((issue_token_pair hash_token access_ttl now drawn family user org role
            admin none db).0
          ≡ ok pair)
        × (pair.access_token.sub ≡ user)
        × (pair.access_token.org_id ≡ org)
        × (pair.access_token.role ≡ role)
  unfolding issue_token_pair
  issue_token_pair-claims now drawn family user org role admin db = (_, refl, refl, refl, refl)

  stored_link :
      (now later token : ℕ) (email : String) (org : Option ℕ) (user : UserRow) (db : MagicDb)
      → later < now + 900000
      → redis_get later
          (hash_token token)
          (store_link normalize hash_token now token email org (some user) db).links
        ≡ some (record { user_id = user.id; org_id = org })
  stored_link now later token email org user db soon =
      redis_get-set later (hash_token token) _ (now + 900000) db.links soon

  request_link-run :
      (now token : ℕ) (email : String) (org : Option ℕ) (user : UserRow) (db : MagicDb)
      → find_user_by_email normalize (normalize email) db.auth.users ≡ some user
      → request_link normalize hash_token now token email org db
        ≡ store_link normalize hash_token now token email org (some user) db
  unfolding request_link
  request_link-run now token email org user db found = rw found refl

  -- What an exchange of a stored link does, with the link read from Redis.
  verify_link-run :
      (now : ℕ) (drawn : Drawn) (family token : ℕ) (link : MagicLink) (user : UserRow)
      (db : MagicDb)
      → redis_get now (hash_token token) db.links ≡ some link
      → find_user_by_id link.user_id db.auth.users ≡ some user
      → verify_link hash_token access_ttl now drawn family token db
        ≡ on_auth
            (issue_token_pair hash_token access_ttl now drawn family link.user_id link.org_id member
              user.is_platform_admin none)
            (record db {
              links = redis_del (hash_token token) db.links;
              auth = verify_email now user db.auth;
            })
  unfolding verify_link
  verify_link-run now drawn family token link user db held found = rw (held, found) refl

  verify_link-gone :
      (now : ℕ) (drawn : Drawn) (family token : ℕ) (db : MagicDb)
      → redis_get now (hash_token token) db.links ≡ none
      → verify_link hash_token access_ttl now drawn family token db
        ≡ (err (unauthorized_error "INVALID_OR_EXPIRED_TOKEN"), db)
  unfolding verify_link
  verify_link-gone now drawn family token db gone = rw gone refl

  -- A magic link that a live user requests for an organization is exchanged within fifteen minutes
  -- for a session as member of that organization, whatever the memberships are, and only once.
  pub magic_link_once :
      (now later again token : ℕ) (drawn drawn' : Drawn) (family family' : ℕ) (email : String)
      (org : Option ℕ) (user : UserRow) (db : MagicDb)
      → find_user_by_email normalize (normalize email) db.auth.users ≡ some user
      → find_user_by_id user.id db.auth.users ≡ some user
      → later < now + 900000
      → (let (answer, after) =
            verify_link hash_token access_ttl later drawn family token
              (request_link normalize hash_token now token email org db) in
          ((pair : TokenPair) × (answer ≡ ok pair)
            × (pair.access_token.sub ≡ user.id)
            × (pair.access_token.org_id ≡ org)
            × (pair.access_token.role ≡ member))
          × (verify_link hash_token access_ttl again drawn' family' token after
              ≡ (err (unauthorized_error "INVALID_OR_EXPIRED_TOKEN"), after)))
  magic_link_once now later again token drawn drawn' family family' email org user db by_email by_id
        soon =
      let link : MagicLink = record { user_id = user.id; org_id = org } in
      let stored = store_link normalize hash_token now token email org (some user) db in
      rw
        (
          request_link-run now token email org user db by_email,
          verify_link-run later drawn family token link user stored
              (stored_link now later token email org user db soon) by_id,
        )
        (
          issue_token_pair-claims later drawn family user.id org member user.is_platform_admin
              (verify_email later user db.auth),
          verify_link-gone again drawn' family' token _
              (redis_get-del again (hash_token token) stored.links),
        )
