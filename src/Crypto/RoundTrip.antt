-- ===== src/Crypto/RoundTrip.antt =====
-- What src/shared/crypto/index.ts encrypts, it decrypts.
use Prim.Native.String.{String, ◌++◌}
use Prim.Native.String.append
use multi_tenant_collaborati.Common.{
  ◌≡◌, refl, inl, inr, Bool, false, ◌||◌, some, [], ◌∷◌, arith, Bool-cases,
}
use multi_tenant_collaborati.Crypto.{Cipher, is_colon, split_colon, encrypt, decrypt, decrypt_parts}

unfoldable pub has_colon : String → Bool
has_colon String.[] = false
has_colon (String.◌∷◌ c s) = is_colon c || has_colon s

-- What the library documents: Base64 has no colon and decodes to the same bytes, and the cipher opens
-- what it sealed with the same key, vector and tag.
pub record IsCipher {Bytes : Type 0} (cipher : Cipher Bytes) : Type 0 where
  pub no_colon : (b : Bytes) → has_colon (cipher.to_base64 b) ≡ false
  pub decodes : (b : Bytes) → cipher.from_base64 (cipher.to_base64 b) ≡ b
  pub opens :
      (key iv : Bytes) (plaintext : String)
      → cipher.unseal key iv (cipher.seal key iv plaintext).1 (cipher.seal key iv plaintext).0
        ≡ some plaintext

split_colon-one : (s : String) → has_colon s ≡ false → split_colon s ≡ s ∷ []
unfolding split_colon has_colon
split_colon-one String.[] h = refl
split_colon-one (String.◌∷◌ c s) h = elim (Bool-cases (is_colon c)) [
  | inl colon ↦ absurd (ground arith)
  | inr other ↦ rw (other, split_colon-one s (ground arith)) refl
]

split_colon-append :
    (s t : String) → has_colon s ≡ false → split_colon (s ++ (":" ++ t)) ≡ s ∷ split_colon t
unfolding split_colon has_colon
split_colon-append String.[] t h = rw (append.nil, append.cons, append.nil) refl
split_colon-append (String.◌∷◌ c s) t h = elim (Bool-cases (is_colon c)) [
  | inl colon ↦ absurd (ground arith)
  | inr other ↦ rw (append.cons, other, split_colon-append s t (ground arith)) refl
]

version-append : (t : String) → "v1:" ++ t ≡ "v1" ++ (":" ++ t)
version-append t =
    rw (append.cons, append.cons, append.cons, append.nil, append.cons, append.cons, append.nil)
      refl

version-has_colon : has_colon "v1" ≡ false
unfolding has_colon
version-has_colon = refl

module _ {Bytes : Type 0} (cipher : Cipher Bytes) where
  split-encrypt :
      (key iv : Bytes) (plaintext : String)
      → IsCipher cipher
      → (let (enc, tag) = cipher.seal key iv plaintext in
          split_colon (encrypt cipher key iv plaintext)
          ≡ "v1" ∷ cipher.to_base64 iv ∷ cipher.to_base64 enc ∷ cipher.to_base64 tag ∷ [])
  unfolding encrypt
  split-encrypt key iv plaintext laws =
      let (enc, tag) = cipher.seal key iv plaintext in
      rw
        (
          version-append _,
          split_colon-append "v1" _ version-has_colon,
          split_colon-append (cipher.to_base64 iv) _ (laws.no_colon iv),
          split_colon-append (cipher.to_base64 enc) _ (laws.no_colon enc),
          split_colon-one (cipher.to_base64 tag) (laws.no_colon tag),
        )
        refl

  -- A text encrypted with any key and vector decrypts with that key to the same text.
  pub decrypt-encrypt :
      (key iv : Bytes) (plaintext : String)
      → IsCipher cipher
      → decrypt cipher key (encrypt cipher key iv plaintext) ≡ some plaintext
  unfolding decrypt
  decrypt-encrypt key iv plaintext laws =
      let (enc, tag) = cipher.seal key iv plaintext in
      rw (split-encrypt key iv plaintext laws) (
        rw (decrypt_parts, laws.decodes iv, laws.decodes tag, laws.decodes enc)
          (laws.opens key iv plaintext))
