-- ===== src/Tests/Factors.antt =====
-- A second factor, backup codes and a magic link of the user of Tests/Accounts. The cipher is replaced
-- by the identity, and Base64 by a code with two letters for each.
use Prim.Native.Char.{Char, code}
use text.Mathlib.TextEquality.{Char-path}
use multi_tenant_collaborati.Common.{
  ℕ, ◌==◌, ◌-◌, ◌≡◌, refl, inl, inr, String, Bool, true, false, some, List, [], ◌∷◌, arith, ok, err,
  ltb, if◌then◌else◌, Bool-cases, unauthorized_error,
}
use multi_tenant_collaborati.Organization.Membership.{member}
use multi_tenant_collaborati.Auth.Row.{UserRow, AuthDb}
use multi_tenant_collaborati.Auth.Repository.{find_user_by_id, find_user_by_email}
use multi_tenant_collaborati.Auth.Token.{TokenPair}
use multi_tenant_collaborati.Auth.Mfa.{enable_totp, verify_user_totp, verify_backup_code}
use multi_tenant_collaborati.Auth.MagicLink.{MagicDb, request_link, verify_link}
use multi_tenant_collaborati.Auth.SecondFactor.{
  verify_user_totp-enable_totp, fitting, backup_code_used, magic_link_once,
}
use multi_tenant_collaborati.Crypto.{Cipher, is_colon}
use multi_tenant_collaborati.Crypto.RoundTrip.{has_colon, IsCipher}
use multi_tenant_collaborati.Tests.Accounts.{accounts, user, same_text, same_hash, drawn_next}

abbrev escape : String → String
escape String.[] = String.[]
escape (String.◌∷◌ c s) =
    let rest = escape s in
    if is_colon c then String.◌∷◌ "b" (String.◌∷◌ "b" rest) else String.◌∷◌ "a" (String.◌∷◌ c rest)

abbrev reveal : String → String
reveal String.[] = String.[]
reveal (String.◌∷◌ c String.[]) = String.[]
reveal (String.◌∷◌ c (String.◌∷◌ d s)) =
    let rest = reveal s in if code c == 98 then String.◌∷◌ ":" rest else String.◌∷◌ d rest

is_colon_eq : (c : Char) → is_colon c ≡ true → ":" ≡ c
is_colon_eq c h = Char-path ":" c (ground arith)

escape_no_colon : (s : String) → has_colon (escape s) ≡ false
unfolding has_colon
escape_no_colon String.[] = refl
escape_no_colon (String.◌∷◌ c s) = elim (Bool-cases (is_colon c)) [
  | inl colon ↦ rw colon (escape_no_colon s)
  | inr other ↦ rw (other, other) (escape_no_colon s)
]

reveal-escape : (s : String) → reveal (escape s) ≡ s
reveal-escape String.[] = refl
reveal-escape (String.◌∷◌ c s) = elim (Bool-cases (is_colon c)) [
  | inl colon ↦ rw (colon, reveal-escape s, is_colon_eq c colon) refl
  | inr other ↦ rw (other, reveal-escape s) refl
]

abbrev cipher : Cipher String
cipher = record {
  to_base64 = escape;
  from_base64 = reveal;
  seal = λ key iv plaintext. (plaintext, "tag");
  unseal = λ key iv tag enc. some enc;
}

cipher-IsCipher : IsCipher cipher
cipher-IsCipher = record {
  no_colon = escape_no_colon;
  decodes = reveal-escape;
  opens = λ key iv plaintext. refl;
}

found_user : find_user_by_id 7 accounts.users ≡ some user
unfolding find_user_by_id
found_user = refl

-- The code of a secret is its first letter.
abbrev code_fits : String → String → Bool
code_fits String.[] secret = false
code_fits (String.◌∷◌ c token) String.[] = false
code_fits (String.◌∷◌ c token) (String.◌∷◌ d secret) = code c == code d

verify_user_totp-enable_totp_example :
    verify_user_totp cipher "key" code_fits 7 "J"
      (enable_totp cipher "key" "vector" 7 "JBSW:Y3D" accounts)
    ≡ some true
verify_user_totp-enable_totp_example =
    verify_user_totp-enable_totp cipher code_fits "key" "vector" 7 "JBSW:Y3D" "J" accounts user
      cipher-IsCipher found_user

abbrev one_code : AuthDb
one_code = record accounts { users = record user { mfa_backup_codes = "hash" ∷ [] } ∷ [] }

found_one_code :
    find_user_by_id 7 one_code.users ≡ some (record user { mfa_backup_codes = "hash" ∷ [] })
unfolding find_user_by_id
found_one_code = refl

abbrev is_five : List ℕ → String → Bool
is_five [] hash = false
is_five (n ∷ ns) hash = n == 5

backup_code_used_example :
    let (accepted, after) = verify_backup_code is_five 7 (5 ∷ []) one_code in
    (accepted ≡ ltb 0 (fitting is_five (5 ∷ []) ("hash" ∷ [])))
    × ((row' : UserRow) × (find_user_by_id 7 after.users ≡ some row')
        × (fitting is_five (5 ∷ []) row'.mfa_backup_codes
            ≡ fitting is_five (5 ∷ []) ("hash" ∷ []) - 1))
backup_code_used_example =
    backup_code_used is_five 7 (5 ∷ []) one_code (record user { mfa_backup_codes = "hash" ∷ [] })
      found_one_code

abbrev no_links : MagicDb
no_links = record { auth = accounts; links = []; outbox = [] }

found_by_email :
    find_user_by_email same_text (same_text "ada@example.org") no_links.auth.users ≡ some user
unfolding find_user_by_email
found_by_email = refl

magic_link_once_example :
    let (answer, after) =
      verify_link same_hash 900 50 drawn_next 3 66
        (request_link same_text same_hash 40 66 "ada@example.org" (some 1) no_links) in
    ((pair : TokenPair) × (answer ≡ ok pair)
      × (pair.access_token.sub ≡ 7)
      × (pair.access_token.org_id ≡ some 1)
      × (pair.access_token.role ≡ member))
    × (verify_link same_hash 900 60 drawn_next 4 66 after
        ≡ (err (unauthorized_error "INVALID_OR_EXPIRED_TOKEN"), after))
magic_link_once_example =
    magic_link_once same_text same_hash 900 40 50 60 66 drawn_next drawn_next 3 4 "ada@example.org"
      (some 1) user no_links found_by_email found_user (omega arith)
