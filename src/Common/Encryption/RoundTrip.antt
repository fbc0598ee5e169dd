-- ===== src/Common/Encryption/RoundTrip.antt =====
-- What was encrypted is decrypted to itself, and is not encrypted again.
use Prim.Native.Char.{Char, code}
use Prim.Native.String
use text.Mathlib.TextLemmas.{nil-append, cons-append}
use nest_rest_backend_templa.Prelude.{
  String, ◌≡◌, refl, ap, sym, subst, ◌∙◌, eq_iff, some, true, false, List, [], ◌∷◌, length, ◌==◌,
  string_eq, nat_eq, has_char, starts_with, drop_start, split, add_to_first, arith, Bool-cases, inl,
  inr,
}
use nest_rest_backend_templa.Exec.{ok}
use nest_rest_backend_templa.Common.Encryption.{
  Bytes, CryptoPlatform, encrypted_prefix, is_encrypted, wire, encrypt_nullable, decrypt_nullable,
  nonce_bytes, auth_tag_bytes,
}

abbrev sep : Char
sep = ":"

append_sep : (s : String) → String.◌++◌ ":" s ≡ String.◌∷◌ sep s
append_sep s = cons-append sep "" s ∙ ap (String.◌∷◌ sep) (nil-append s)

starts_with-append : (s t : String) → starts_with (String.◌++◌ s t) s ≡ true
starts_with-append String.[] t = refl
starts_with-append (String.◌∷◌ c s) t =
    rw (cons-append c s t) (ground (arith, starts_with-append s t))

drop_start-append : (s t : String) → drop_start (String.◌++◌ s t) s ≡ t
drop_start-append String.[] t = nil-append t
drop_start-append (String.◌∷◌ c s) t = rw (cons-append c s t) (drop_start-append s t)

split_whole : (s : String) → has_char 0x3a s ≡ false → split 0x3a s ≡ s ∷ []
unfolding split has_char
split_whole String.[] h = refl
split_whole (String.◌∷◌ c s) h =
    let here : (code c == 0x3a) ≡ false = ground arith in
    rw here (ap (add_to_first c) (split_whole s (ground arith)))

split_first :
    (s rest : String)
    → has_char 0x3a s ≡ false
    → split 0x3a (String.◌++◌ s (String.◌∷◌ sep rest)) ≡ s ∷ split 0x3a rest
unfolding split has_char
split_first String.[] rest h = rw (nil-append (String.◌∷◌ sep rest)) refl
split_first (String.◌∷◌ d s) rest h =
    let here : (code d == 0x3a) ≡ false = ground arith in
    rw (cons-append d s (String.◌∷◌ sep rest), here)
      (ap (add_to_first d) (split_first s rest (ground arith)))

-- What node documents of base64, and of AES-256-GCM with a tag of 16 bytes for a text under one key
-- and nonce.
pub record CryptoLaws (p : CryptoPlatform) (key nonce : Bytes) (value : String) : Type 0 where
  pub base64_back : (b : Bytes) → p.from_base64 (p.to_base64 b) ≡ b
  pub base64_plain : (b : Bytes) → has_char 0x3a (p.to_base64 b) ≡ false
  pub nonce_length : length nonce ≡ nonce_bytes
  pub tag_length : length (p.auth_tag key nonce value) ≡ auth_tag_bytes
  pub not_empty : (value == "") ≡ false → (length (p.ciphertext key nonce value) == 0) ≡ false
  pub unseals :
      p.unseal key nonce (p.auth_tag key nonce value) (p.ciphertext key nonce value) ≡ some value

module _ (p : CryptoPlatform) (key nonce : Bytes) (value : String)
    (laws : CryptoLaws p key nonce value) where
  split-wire :
      (tag ciphertext : Bytes)
      → split 0x3a (drop_start (wire p nonce tag ciphertext) encrypted_prefix)
        ≡ p.to_base64 nonce ∷ p.to_base64 tag ∷ p.to_base64 ciphertext ∷ []
  split-wire tag ciphertext =
      ap (split 0x3a) (
        drop_start-append encrypted_prefix (
          String.◌++◌ (p.to_base64 nonce) (
            String.◌++◌ ":"
              (String.◌++◌ (p.to_base64 tag) (String.◌++◌ ":" (p.to_base64 ciphertext))))))
      ∙ rw (append_sep (String.◌++◌ (p.to_base64 tag) (String.◌++◌ ":" (p.to_base64 ciphertext)))) (
          split_first (p.to_base64 nonce) _ (laws.base64_plain nonce)
          ∙ ap (λ (parts : List String). p.to_base64 nonce ∷ parts)
              (rw (append_sep (p.to_base64 ciphertext)) (
                split_first (p.to_base64 tag) _ (laws.base64_plain tag)
                ∙ ap (λ (parts : List String). p.to_base64 tag ∷ parts)
                    (split_whole (p.to_base64 ciphertext) (laws.base64_plain ciphertext)))))

  wire-is_encrypted : (tag ciphertext : Bytes) → is_encrypted (wire p nonce tag ciphertext) ≡ true
  wire-is_encrypted tag ciphertext = starts_with-append encrypted_prefix (
      String.◌++◌ (p.to_base64 nonce) (
        String.◌++◌ ":" (String.◌++◌ (p.to_base64 tag) (String.◌++◌ ":" (p.to_base64 ciphertext)))))

  wire_not_empty : (tag ciphertext : Bytes) → (wire p nonce tag ciphertext == "") ≡ false
  wire_not_empty tag ciphertext = elim (Bool-cases (wire p nonce tag ciphertext == "")) [
    | inl empty ↦ absurd (
        cc (
          wire-is_encrypted tag ciphertext,
          ap is_encrypted ((eq_iff (wire p nonce tag ciphertext) "").0 empty),
        ))
    | inr full ↦ full
  ]

  decrypt_wire :
      (value == "") ≡ false
      → decrypt_nullable p key
          (some (wire p nonce (p.auth_tag key nonce value) (p.ciphertext key nonce value)))
        ≡ ok (some value)
  unfolding decrypt_nullable
  decrypt_wire full =
      rw
        (
          wire_not_empty (p.auth_tag key nonce value) (p.ciphertext key nonce value),
          wire-is_encrypted (p.auth_tag key nonce value) (p.ciphertext key nonce value),
          split-wire (p.auth_tag key nonce value) (p.ciphertext key nonce value),
        )
        (simp
          (laws.base64_back, laws.nonce_length, laws.tag_length, laws.not_empty full, laws.unseals))

  decrypt_empty : decrypt_nullable p key (some "") ≡ ok (some "")
  unfolding decrypt_nullable
  decrypt_empty = refl

  -- Where base64 can be read back and has no colon, and AES-256-GCM opens what it sealed under the
  -- key and the nonce with a tag of 16 bytes, a text that does not start with the prefix is
  -- encrypted to one that decrypts to it, and a second encryption, under any nonce, changes
  -- nothing.
  pub encrypt_then_decrypt :
      is_encrypted value ≡ false
      → (decrypt_nullable p key (encrypt_nullable p key nonce (some value)) ≡ ok (some value))
        × ((another : Bytes)
            → encrypt_nullable p key another (encrypt_nullable p key nonce (some value))
              ≡ encrypt_nullable p key nonce (some value))
  unfolding encrypt_nullable
  encrypt_then_decrypt plain = elim (Bool-cases (value == "")) [
    | inl empty ↦ rw empty (
      subst (λ v. decrypt_nullable p key (some "") ≡ ok (some v)) (sym ((eq_iff value "").0 empty))
          (decrypt_empty),
      λ another. refl,
    )
    | inr full ↦
        rw (full, plain)
          (
            decrypt_wire full,
            λ another.
                rw
                  (
                    wire_not_empty (p.auth_tag key nonce value) (p.ciphertext key nonce value),
                    wire-is_encrypted (p.auth_tag key nonce value) (p.ciphertext key nonce value),
                  )
                  refl,
          )
  ]
