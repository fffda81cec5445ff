-- ===== src/Auth/Mfa.antt =====
-- src/modules/auth/services/mfa.service.ts. TOTP codes, bcrypt and the cipher are library code:
-- parameters. A user without backup codes has an empty list of them.
use Prim.Native.Nat.{◌%◌}
use multi_tenant_collaborati.Common.{
  ℕ, zero, suc, String, Bool, true, false, not, Option, none, some, List, [], ◌∷◌, if◌then◌else◌,
}
use multi_tenant_collaborati.Auth.Row.{UserRow, AuthDb}
use multi_tenant_collaborati.Auth.Repository.{find_user_by_id, update_user}
use multi_tenant_collaborati.Crypto.{Cipher, encrypt, decrypt}

abbrev pub backup_code_count : ℕ
backup_code_count = 8

abbrev pub backup_code_length : ℕ
backup_code_length = 10

-- A code as positions in `BACKUP_CODE_CHARS`, which has 62 characters.
unfoldable pub generate_alphanumeric_code : ℕ → List ℕ → List ℕ
generate_alphanumeric_code zero bytes = []
generate_alphanumeric_code (suc length) [] = []
generate_alphanumeric_code (suc length) (byte ∷ bytes) =
    (byte % 62) ∷ generate_alphanumeric_code length bytes

module _ {Bytes : Type 0} (cipher : Cipher Bytes) (encryption_key : Bytes) where
  unfoldable pub enable_totp : Bytes → ℕ → String → AuthDb → AuthDb
  enable_totp iv user plaintext_secret db = record db {
    users =
        update_user user
          (λ u. record u {
            totp_secret = some (encrypt cipher encryption_key iv plaintext_secret);
            totp_enabled = true;
          })
          db.users;
  }

  module _ (verify_totp : String → String → Bool) where
    -- `none` where the decryption throws.
    abbrev pub verify_secret : String → Option String → Option Bool
    verify_secret token none = none
    verify_secret token (some secret) = some (verify_totp token secret)

    abbrev pub verify_row_totp : String → Option UserRow → Option Bool
    verify_row_totp token none = some false
    verify_row_totp token (some user) =
        if not user.totp_enabled then some false else elim user.totp_secret [
          | none ↦ some false
          | some secret ↦ verify_secret token (decrypt cipher encryption_key secret)
        ]

    unfoldable pub verify_user_totp : ℕ → String → AuthDb → Option Bool
    verify_user_totp user token db = verify_row_totp token (find_user_by_id user db.users)

module _ (bcrypt_hash : List ℕ → String) where
  abbrev pub hash_codes : List (List ℕ) → List String
  hash_codes [] = []
  hash_codes (code ∷ codes) = bcrypt_hash code ∷ hash_codes codes

  abbrev pub plain_codes : ℕ → List (List ℕ) → List (List ℕ)
  plain_codes zero draws = []
  plain_codes (suc n) [] = []
  plain_codes (suc n) (bytes ∷ draws) =
      generate_alphanumeric_code backup_code_length bytes ∷ plain_codes n draws

  -- `draws` are the random bytes of each code. The plain codes are returned, their hashes stored.
  unfoldable pub generate_backup_codes : ℕ → ℕ → List (List ℕ) → AuthDb → List (List ℕ) × AuthDb
  unfolding generate_alphanumeric_code
  generate_backup_codes now user draws db =
      let codes = plain_codes backup_code_count draws in
      (
        codes,
        record db {
          users =
              update_user user
                (λ u. record u {
                  mfa_backup_codes = hash_codes codes;
                  mfa_backup_codes_generated_at = some now;
                })
                db.users;
        },
      )

module _ (bcrypt_compare : List ℕ → String → Bool) where
  -- The hashes without the first that fits the code, if one does.
  unfoldable pub use_code : List ℕ → List String → Option (List String)
  use_code code [] = none
  use_code code (hash ∷ hashes) =
      let rest = use_code code hashes in
      if bcrypt_compare code hash
      then some hashes
      else elim rest [ none ↦ none | some left ↦ some (hash ∷ left) ]

  abbrev pub accept_code : ℕ → Option (List String) → AuthDb → Bool × AuthDb
  accept_code user none db = (false, db)
  accept_code user (some left) db = (
    true,
    record db {
      users = update_user user (λ u. record u { mfa_backup_codes = left }) db.users;
      audit =
          (record {
            org_id = none;
            actor_id = some user;
            event_type = "user.backup_code_used";
            entity_id = user;
          })
          ∷ db.audit;
    },
  )

  abbrev pub verify_row_code : ℕ → List ℕ → Option UserRow → AuthDb → Bool × AuthDb
  verify_row_code user code none db = (false, db)
  verify_row_code user code (some row) db = accept_code user (use_code code row.mfa_backup_codes) db

  unfoldable pub verify_backup_code : ℕ → List ℕ → AuthDb → Bool × AuthDb
  verify_backup_code user code db = verify_row_code user code (find_user_by_id user db.users) db
