-- ===== src/Crypto/RoundTrip.antt =====
-- Encryption and decryption of a token (apps/api/src/crypto/crypto.service.ts).
use text.Mathlib.TextPositions.{starts_with-append}
use unified_inbox.Prelude.{
  String, ◌≡◌, ◌<◌, some, ◌++◌, length, length-append, take-append, drop-append, arith,
}
use unified_inbox.Prelude.Text.Append.{slice_from-append}
use unified_inbox.Prelude.Result.{ok}
use unified_inbox.Crypto.{
  Bytes, Cipher, encrypt, decrypt, iv_length, auth_tag_length, decrypt_combined, sealed,
}

module _ (cipher : Cipher) (key iv : Bytes) where
  decrypt_combined-parts :
      (token : String) (tag encrypted : Bytes)
      → length iv ≡ iv_length
      → length tag ≡ auth_tag_length
      → 0 < length encrypted
      → cipher.unseal key iv tag encrypted ≡ some token
      → decrypt_combined cipher key (iv ++ (tag ++ encrypted)) ≡ ok token
  decrypt_combined-parts token tag encrypted hi ht he u = ground (
    arith,
    take-append iv_length iv (tag ++ encrypted) hi,
    drop-append iv_length iv (tag ++ encrypted) hi,
    take-append auth_tag_length tag encrypted ht,
    drop-append auth_tag_length tag encrypted ht,
    length-append iv (tag ++ encrypted),
    length-append tag encrypted,
  )

  -- A token that was stored under a key, with a vector of 12 bytes and a cipher that seals it into
  -- a tag of 16 bytes and a ciphertext that is not empty, is read again as it was, if the cipher
  -- opens what it sealed and base64 decodes what it encoded.
  pub decrypt-encrypt :
      (token : String) (tag encrypted : Bytes)
      → cipher.seal key iv token ≡ (tag, encrypted)
      → length iv ≡ iv_length
      → length tag ≡ auth_tag_length
      → 0 < length encrypted
      → cipher.unseal key iv tag encrypted ≡ some token
      → cipher.from_base64 (cipher.to_base64 (iv ++ (tag ++ encrypted))) ≡ iv ++ (tag ++ encrypted)
      → decrypt cipher (some key) (encrypt cipher (some key) iv token) ≡ ok token
  unfolding decrypt encrypt
  decrypt-encrypt token tag encrypted s hi ht he u b =
      rw (s, sealed, starts_with-append "enc:" _, slice_from-append "enc:" _, b)
        (decrypt_combined-parts token tag encrypted hi ht he u)
