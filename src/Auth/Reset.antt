-- ===== src/Auth/Reset.antt =====
-- What a password reset and a logout end: the one-time token, the refresh tokens and the access tokens.
use multi_tenant_collaborati.Common.{
  ℕ, ◌+◌, ◌*◌, ◌/◌, ◌<◌, ◌≡◌, ◌≢◌, refl, subst, String, Bool, true, not, ◌&&◌, Option, none, some,
  List, ◌==◌, arith, Memᴰ, ok, err, unauthorized_error, select_first, select_first-update_where,
  mem-select_first, mem-update_where, redis_get, redis_get-set, redis_get-del,
}
use multi_tenant_collaborati.Auth.Row.{UserRow, RefreshTokenRow, AuthDb, CachedUser}
use multi_tenant_collaborati.Auth.Repository.{
  is_live_user, update_user, revoked, revoke_all_user_tokens,
}
use multi_tenant_collaborati.Auth.Token.{Claims, blacklist_token, revoke_tokens}
use multi_tenant_collaborati.Auth.Account.{confirm_password_reset, reset_password, logout}
use multi_tenant_collaborati.Auth.Middleware.{
  authenticate, admit_claims, resolve_user, find_cached, RequestUser,
}

admit_blacklisted :
    (now : ℕ) (claims : Claims) (db : AuthDb)
    → redis_get now claims.jti db.blacklist ≡ some tt
    → admit_claims true now claims db ≡ (err (unauthorized_error "TOKEN_BLACKLISTED"), db)
unfolding admit_claims
admit_blacklisted now claims db e = rw e refl

revoke_all-revokes :
    (now user : ℕ) (rows : List RefreshTokenRow) (x : RefreshTokenRow)
    → Memᴰ x (revoke_all_user_tokens now user rows)
    → x.user_id ≡ user
    → x.is_revoked ≡ true
unfolding revoke_all_user_tokens
revoke_all-revokes now user rows x m same =
    let (old, mo, e) =
      mem-update_where (λ t. t.user_id == user && not t.is_revoked) (revoked now) rows x m in
    ground arith

-- The middleware refuses a token of a user whose password changed after the token was issued.
find_cached_reset :
    (now user : ℕ) (new_hash : String) (u : UserRow) (rows : List UserRow)
    → select_first (λ x. x.id == user) rows ≡ some u
    → u.deleted_at ≡ none
    → (c : CachedUser) × (find_cached user (
          update_user user
            (λ x. record x { password_hash = some new_hash; password_changed_at = some now })
            rows)
        ≡ some c)
      × (c.password_changed_at ≡ some now)
unfolding find_cached update_user
find_cached_reset now user new_hash u rows e live =
    let (m, h) = mem-select_first (λ x. x.id == user) rows e in
    let found =
      select_first-update_where (λ x. x.id == user) (is_live_user user)
        (λ x. record x { password_hash = some new_hash; password_changed_at = some now }) rows u
        (λ x. refl) e in
    (record { id = u.id; status = u.status; password_changed_at = some now }, ground arith, refl)

resolve_uncached :
    (redis : Bool) (now id : ℕ) (db : AuthDb) (c : CachedUser)
    → redis_get now id db.user_cache ≡ none
    → find_cached id db.users ≡ some c
    → (resolve_user redis now id db).0 ≡ ok c
unfolding resolve_user
resolve_uncached redis now id db c cold e = ground arith

admit_changed :
    (redis : Bool) (now changed iat : ℕ) (claims : Claims) (c : CachedUser) (db : AuthDb)
    (r : RequestUser)
    → (resolve_user redis now claims.sub db).0 ≡ ok c
    → c.password_changed_at ≡ some changed
    → claims.iat ≡ some iat
    → iat < changed / 1000
    → (admit_claims redis now claims db).0 ≢ ok r
unfolding admit_claims
admit_changed redis now changed iat claims c db r e p i early h = ground arith

module _ (normalize : String → String) (hash_token : ℕ → ℕ) (access_ttl : ℕ) where
  confirm_found :
      (now token user : ℕ) (new_hash : String) (db : AuthDb)
      → redis_get now (hash_token token) db.pwd_reset ≡ some user
      → confirm_password_reset normalize hash_token access_ttl now token new_hash db ≡ (
        ok tt,
        reset_password normalize hash_token access_ttl now (hash_token token) new_hash user db,
      )
  unfolding confirm_password_reset
  confirm_found now token user new_hash db e = ground arith

  confirm_missing :
      (now token : ℕ) (new_hash : String) (db : AuthDb)
      → redis_get now (hash_token token) db.pwd_reset ≡ none
      → confirm_password_reset normalize hash_token access_ttl now token new_hash db
        ≡ (err (unauthorized_error "INVALID_OR_EXPIRED_TOKEN"), db)
  unfolding confirm_password_reset
  confirm_missing now token new_hash db e = ground arith

  reset_password_lem :
      (now hash user : ℕ) (new_hash : String) (db : AuthDb)
      → let after = reset_password normalize hash_token access_ttl now hash new_hash user db in
        ((later : ℕ) → redis_get later hash after.pwd_reset ≡ none)
        × ((later : ℕ) → redis_get later user after.user_cache ≡ none)
        × (after.refresh_tokens ≡ revoke_all_user_tokens now user db.refresh_tokens)
        × (after.users
            ≡ update_user user
                (λ u. record u { password_hash = some new_hash; password_changed_at = some now })
                db.users)
  unfolding reset_password
  reset_password_lem now hash user new_hash db = (
    λ later. redis_get-del later hash db.pwd_reset,
    λ later. redis_get-del later user db.user_cache,
    refl,
    refl,
  )

  -- A password reset with a live token succeeds, works once, since the same token is then refused with
  -- 401 at any time and changes nothing, and leaves no refresh token of the user unrevoked.
  pub password_reset_once :
      (now token user : ℕ) (new_hash : String) (db : AuthDb)
      → redis_get now (hash_token token) db.pwd_reset ≡ some user
      → let (r, after) =
          confirm_password_reset normalize hash_token access_ttl now token new_hash db in
        (r ≡ ok tt)
        × ((later : ℕ) (other_hash : String)
            → confirm_password_reset normalize hash_token access_ttl later token other_hash after
              ≡ (err (unauthorized_error "INVALID_OR_EXPIRED_TOKEN"), after))
        × ((x : RefreshTokenRow)
            → Memᴰ x after.refresh_tokens
            → x.user_id ≡ user
            → x.is_revoked ≡ true)
  password_reset_once now token user new_hash db e =
      let (gone, cold, tokens, users) =
        reset_password_lem now (hash_token token) user new_hash db in
      rw (confirm_found now token user new_hash db e) (
        refl,
        λ later other_hash. confirm_missing later token other_hash _ (gone later),
        λ x m same.
            revoke_all-revokes now user db.refresh_tokens x (subst (λ rows. Memᴰ x rows) tokens m)
              same,
      )

  logout_blacklists :
      (now later raw jti remaining : ℕ) (db : AuthDb)
      → later < now + remaining * 1000
      → redis_get later jti
          (logout normalize hash_token access_ttl now raw jti remaining db).blacklist
        ≡ some tt
  unfolding logout revoke_tokens blacklist_token
  logout_blacklists now later raw jti remaining db soon =
      redis_get-set later jti tt (now + remaining * 1000) _ soon

  module _ {Token : Type 0} (verify_token : ℕ → Token → Option Claims) where
    authenticate_ok :
        (redis : Bool) (now : ℕ) (text : Token) (claims : Claims) (db : AuthDb)
        → verify_token now text ≡ some claims
        → authenticate verify_token redis now (some text) db ≡ admit_claims redis now claims db
    unfolding authenticate
    authenticate_ok redis now text claims db v = ground arith

    -- After a password reset, no access token that was issued to the user in an earlier second
    -- authenticates a request, whether or not Redis answers, even if the user was cached before.
    pub reset_ends_sessions :
        (now later token user iat : ℕ) (new_hash : String) (redis : Bool) (text : Token)
        (claims : Claims) (u : UserRow) (db : AuthDb) (r : RequestUser)
        → redis_get now (hash_token token) db.pwd_reset ≡ some user
        → select_first (λ x. x.id == user) db.users ≡ some u
        → u.deleted_at ≡ none
        → verify_token later text ≡ some claims
        → claims.sub ≡ user
        → claims.iat ≡ some iat
        → iat < now / 1000
        → let after =
            (confirm_password_reset normalize hash_token access_ttl now token new_hash db).1 in
          (authenticate verify_token redis later (some text) after).0 ≢ ok r
    reset_ends_sessions now later token user iat new_hash redis text claims u db r e found live v
          sub issued early =
        let (gone, cold, tokens, users) =
          reset_password_lem now (hash_token token) user new_hash db in
        let after =
          reset_password normalize hash_token access_ttl now (hash_token token) new_hash user db in
        let (c, cached, changed) = find_cached_reset now user new_hash u db.users found live in
        let resolved = resolve_uncached redis later user after c (cold later) (rw users cached) in
        rw
          (
            confirm_found now token user new_hash db e,
            authenticate_ok redis later text claims after v,
          )
          (admit_changed redis later now iat claims c after r (rw sub resolved) changed issued
            early)

    -- After a logout, the access token of the session is refused with TOKEN_BLACKLISTED while Redis
    -- answers and the remaining life of the token that was given has not passed; nothing is written.
    pub logout_ends_access :
        (now later raw jti remaining : ℕ) (text : Token) (claims : Claims) (db : AuthDb)
        → verify_token later text ≡ some claims
        → claims.jti ≡ jti
        → later < now + remaining * 1000
        → let after = logout normalize hash_token access_ttl now raw jti remaining db in
          authenticate verify_token true later (some text) after
          ≡ (err (unauthorized_error "TOKEN_BLACKLISTED"), after)
    logout_ends_access now later raw jti remaining text claims db v same soon =
        let after = logout normalize hash_token access_ttl now raw jti remaining db in
        let listed = logout_blacklists now later raw jti remaining db soon in
        rw (authenticate_ok true later text claims after v)
          (admit_blacklisted later claims after (rw same listed))
