-- ===== src/Auth/Rotation.antt =====
-- What `refreshTokenPair` does with a token that was used before.
use multi_tenant_collaborati.Common.{
  ℕ, subst, ap, ◌∙◌, ◌+◌, ◌*◌, ◌≡◌, ◌≢◌, refl, true, false, none, some, List, ◌∷◌, ◌==◌,
  if◌then◌else◌, arith, Option-cases, inl, inr, Memᴰ, ok, err, unauthorized_error,
  select_first-update_where, mem-update_where, redis_get, redis_get-set_other,
}
use multi_tenant_collaborati.Auth.Row.{RefreshTokenRow, AuthDb}
use multi_tenant_collaborati.Auth.Repository.{
  find_refresh_token, revoked, update_refresh_token_jti, revoke_refresh_token, revoke_token_family,
}
use multi_tenant_collaborati.Auth.Token.{
  Drawn, TokenPair, refresh_token_pair, refresh_row, refresh_live, rotate, reuse_detected,
  blacklist_token,
}

-- The row of a token after its rotation.
abbrev rotated_row : ℕ → Drawn → RefreshTokenRow → RefreshTokenRow
rotated_row now drawn t =
    if t.id == drawn.row_id
    then record (revoked now t) { last_access_token_jti = some drawn.jti }
    else revoked now t

module _ (hash_token : ℕ → ℕ) (access_ttl : ℕ) where
  find_revoked :
      (now h : ℕ) (t : RefreshTokenRow) (rows : List RefreshTokenRow)
      → find_refresh_token h rows ≡ some t
      → find_refresh_token h (revoke_refresh_token now t.id rows) ≡ some (revoked now t)
  unfolding find_refresh_token revoke_refresh_token
  find_revoked now h t rows e = ground (
    arith,
    select_first-update_where (λ x. x.token_hash == h) (λ x. x.id == t.id) (revoked now) rows t
        (λ x. refl) e,
  )

  find_after_insert :
      (h : ℕ) (new t : RefreshTokenRow) (rows : List RefreshTokenRow)
      → find_refresh_token h rows ≡ some t
      → new.token_hash ≢ h
      → find_refresh_token h (new ∷ rows) ≡ some t
  unfolding find_refresh_token
  find_after_insert h new t rows e other = ground arith

  find_after_jti :
      (h id jti : ℕ) (t : RefreshTokenRow) (rows : List RefreshTokenRow)
      → find_refresh_token h rows ≡ some t
      → find_refresh_token h (update_refresh_token_jti id jti rows)
        ≡ some (if t.id == id then record t { last_access_token_jti = some jti } else t)
  unfolding find_refresh_token update_refresh_token_jti
  find_after_jti h id jti t rows e =
      select_first-update_where (λ x. x.token_hash == h) (λ x. x.id == id)
        (λ x. record x { last_access_token_jti = some jti }) rows t (λ x. refl) e

  find_rotated :
      (now h : ℕ) (drawn : Drawn) (t : RefreshTokenRow) (db : AuthDb)
      → find_refresh_token h db.refresh_tokens ≡ some t
      → hash_token drawn.refresh_token ≢ h
      → find_refresh_token h (rotate hash_token access_ttl now drawn t db).refresh_tokens
        ≡ some (rotated_row now drawn t)
  unfolding rotate
  find_rotated now h drawn t db e other =
      find_after_jti h drawn.row_id drawn.jti (revoked now t) _
        (find_after_insert h _ (revoked now t) _ (find_revoked now h t db.refresh_tokens e) other)

  refresh_ok :
      (now raw : ℕ) (drawn : Drawn) (t : RefreshTokenRow) (db : AuthDb) (pair : TokenPair)
      → find_refresh_token (hash_token raw) db.refresh_tokens ≡ some t
      → t.is_revoked ≡ false
      → (refresh_token_pair hash_token access_ttl now drawn raw db).0 ≡ ok pair
      → (refresh_token_pair hash_token access_ttl now drawn raw db).1
        ≡ rotate hash_token access_ttl now drawn t db
  unfolding refresh_token_pair refresh_row refresh_live
  refresh_ok now raw drawn t db pair e live r = ground arith

  refresh_revoked :
      (now raw : ℕ) (drawn : Drawn) (t : RefreshTokenRow) (db : AuthDb)
      → find_refresh_token (hash_token raw) db.refresh_tokens ≡ some t
      → t.is_revoked ≡ true
      → refresh_token_pair hash_token access_ttl now drawn raw db ≡ (
        err (unauthorized_error "TOKEN_FAMILY_REVOKED"),
        reuse_detected hash_token access_ttl now t db,
      )
  unfolding refresh_token_pair refresh_row
  refresh_revoked now raw drawn t db e dead = ground arith

  reuse_detected_tokens :
      (now : ℕ) (t : RefreshTokenRow) (db : AuthDb)
      → (reuse_detected hash_token access_ttl now t db).refresh_tokens
        ≡ revoke_token_family now t.family_id db.refresh_tokens
  unfolding reuse_detected blacklist_token
  reuse_detected_tokens now t db = ground arith

  revoke_token_family-revokes :
      (now family : ℕ) (rows : List RefreshTokenRow) (x : RefreshTokenRow)
      → Memᴰ x (revoke_token_family now family rows)
      → x.family_id ≡ family
      → x.is_revoked ≡ true
  unfolding revoke_token_family
  revoke_token_family-revokes now family rows x m same =
      let (old, mo, e) = mem-update_where (λ r. r.family_id == family) (revoked now) rows x m in
      ground arith

  reuse_detected-revokes :
      (now : ℕ) (t x : RefreshTokenRow) (db : AuthDb)
      → Memᴰ x (reuse_detected hash_token access_ttl now t db).refresh_tokens
      → x.family_id ≡ t.family_id
      → x.is_revoked ≡ true
  reuse_detected-revokes now t x db m same =
      revoke_token_family-revokes now t.family_id db.refresh_tokens x
        (subst (λ rows. Memᴰ x rows) (reuse_detected_tokens now t db) m) same

  -- A refresh token that was exchanged for a new pair is dead: using it again, at any time, is refused
  -- with TOKEN_FAMILY_REVOKED, and then every refresh token of its family is revoked, the one of the
  -- new pair included. The new token is assumed to have another hash than the old one.
  pub refresh_once :
      (now later raw : ℕ) (drawn drawn' : Drawn) (t : RefreshTokenRow) (db : AuthDb)
      (pair : TokenPair)
      → find_refresh_token (hash_token raw) db.refresh_tokens ≡ some t
      → t.is_revoked ≡ false
      → hash_token drawn.refresh_token ≢ hash_token raw
      → (refresh_token_pair hash_token access_ttl now drawn raw db).0 ≡ ok pair
      → let after = (refresh_token_pair hash_token access_ttl now drawn raw db).1 in
        let (again, last) = refresh_token_pair hash_token access_ttl later drawn' raw after in
        (again ≡ err (unauthorized_error "TOKEN_FAMILY_REVOKED"))
        × ((x : RefreshTokenRow)
            → Memᴰ x last.refresh_tokens
            → x.family_id ≡ t.family_id
            → x.is_revoked ≡ true)
  refresh_once now later raw drawn drawn' t db pair e live other r =
      let rotated = refresh_ok now raw drawn t db pair e live r in
      let found = find_rotated now (hash_token raw) drawn t db e other in
      let replay =
        refresh_revoked later raw drawn' (rotated_row now drawn t)
          (rotate hash_token access_ttl now drawn t db) found (ground arith) in
      rw (rotated, replay)
        (
          refl,
          λ x m same.
              reuse_detected-revokes later (rotated_row now drawn t) x
                (rotate hash_token access_ttl now drawn t db) m (ground arith),
        )

  reuse_detected_blacklist :
      (now jti : ℕ) (t : RefreshTokenRow) (db : AuthDb)
      → t.last_access_token_jti ≢ some jti
      → redis_get now jti (reuse_detected hash_token access_ttl now t db).blacklist
        ≡ redis_get now jti db.blacklist
  unfolding reuse_detected blacklist_token
  reuse_detected_blacklist now jti t db other = elim (Option-cases t.last_access_token_jti) [
    | inl nothing ↦ ground arith
    | inr (j, e) ↦
        let differ : jti ≢ j = λ same. other (rw same e) in
        let unchanged =
          redis_get-set_other now jti j tt (now + access_ttl * 1000) db.blacklist differ in
        ground (arith, unchanged)
  ]

  rotate_blacklist :
      (now : ℕ) (drawn : Drawn) (t : RefreshTokenRow) (db : AuthDb)
      → (rotate hash_token access_ttl now drawn t db).blacklist ≡ db.blacklist
  unfolding rotate
  rotate_blacklist now drawn t db = refl

  -- When the reuse of an exchanged refresh token is detected, the access token that was issued by the
  -- exchange is not blacklisted, so whoever holds it can use it until it expires. The row's id and the
  -- ids of the two access tokens are assumed to differ, and the new one not to be blacklisted before.
  pub reuse_spares_new_access :
      (now later raw : ℕ) (drawn drawn' : Drawn) (t : RefreshTokenRow) (db : AuthDb)
      (pair : TokenPair)
      → find_refresh_token (hash_token raw) db.refresh_tokens ≡ some t
      → t.is_revoked ≡ false
      → hash_token drawn.refresh_token ≢ hash_token raw
      → t.id ≢ drawn.row_id
      → t.last_access_token_jti ≢ some drawn.jti
      → redis_get later drawn.jti db.blacklist ≡ none
      → (refresh_token_pair hash_token access_ttl now drawn raw db).0 ≡ ok pair
      → let after = (refresh_token_pair hash_token access_ttl now drawn raw db).1 in
        let (again, last) = refresh_token_pair hash_token access_ttl later drawn' raw after in
        (again ≡ err (unauthorized_error "TOKEN_FAMILY_REVOKED"))
        × (redis_get later drawn.jti last.blacklist ≡ none)
  reuse_spares_new_access now later raw drawn drawn' t db pair e live other id jti clean r =
      let rotated = refresh_ok now raw drawn t db pair e live r in
      let found = find_rotated now (hash_token raw) drawn t db e other in
      let replay =
        refresh_revoked later raw drawn' (rotated_row now drawn t)
          (rotate hash_token access_ttl now drawn t db) found (ground arith) in
      rw (rotated, replay)
        (
          refl,
          reuse_detected_blacklist later drawn.jti (rotated_row now drawn t)
                (rotate hash_token access_ttl now drawn t db) (ground arith)
              ∙ (ap (redis_get later drawn.jti) (rotate_blacklist now drawn t db) ∙ clean),
        )
