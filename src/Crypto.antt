-- ===== src/Crypto.antt =====
-- src/shared/crypto/index.ts. AES-256-GCM and Base64 are library code: a record of functions, with
-- their laws as a record of hypotheses. Random bytes are an argument.
pub mod RoundTrip
use Prim.Native.Char.{Char, code}
use Prim.Native.String.{String, ◌++◌}
use multi_tenant_collaborati.Common.{
  ℕ, ◌≡◌, Bool, true, false, ◌||◌, Option, none, some, List, [], ◌∷◌, ◌==◌, if◌then◌else◌,
}

-- `createCipheriv` with `update`, `final` and `getAuthTag`; `createDecipheriv` with `setAuthTag`,
-- `update` and `final`, which throws on a wrong tag; `Buffer` to and from Base64.
pub record Cipher (Bytes : Type 0) : Type 0 where
  pub seal : Bytes → Bytes → String → Bytes × Bytes
  pub unseal : Bytes → Bytes → Bytes → Bytes → Option String
  pub to_base64 : Bytes → String
  pub from_base64 : String → Bytes

abbrev pub is_colon : Char → Bool
is_colon c = code c == 58

abbrev pub prepend : Char → List String → List String
prepend c [] = []
prepend c (s ∷ ss) = String.◌∷◌ c s ∷ ss

-- `text.split(':')`.
unfoldable pub split_colon : String → List String
split_colon String.[] = String.[] ∷ []
split_colon (String.◌∷◌ c s) =
    let rest = split_colon s in if is_colon c then String.[] ∷ rest else prepend c rest

module _ {Bytes : Type 0} (cipher : Cipher Bytes) where
  -- `config.encryptionKey` is `key`; `iv` is drawn at random.
  unfoldable pub encrypt : Bytes → Bytes → String → String
  encrypt key iv plaintext =
      let (enc, tag) = cipher.seal key iv plaintext in
      "v1:"
      ++ (cipher.to_base64 iv ++ (":" ++ (cipher.to_base64 enc ++ (":" ++ cipher.to_base64 tag))))

  abbrev pub decrypt_parts : Bytes → List String → Option String
  decrypt_parts key (version ∷ iv ∷ enc ∷ tag ∷ []) =
      cipher.unseal key (cipher.from_base64 iv) (cipher.from_base64 tag) (cipher.from_base64 enc)
  decrypt_parts key _ = none

  -- `none` where the source throws: not four parts, or the tag does not fit.
  unfoldable pub decrypt : Bytes → String → Option String
  unfolding split_colon
  decrypt key ciphertext = decrypt_parts key (split_colon ciphertext)

-- `encryptSecret` and `decryptSecret` are other names of these two.
