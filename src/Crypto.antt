-- ===== src/Crypto.antt =====
-- apps/api/src/crypto/crypto.service.ts: channel tokens encrypted at rest. AES-GCM, scrypt and
-- base64 are parameters.
pub mod RoundTrip
use Prim.Native.String.{◌++◌ as concat}
use text.Mathlib.Text.{starts_with}
use unified_inbox.Prelude.{
  ℕ, String, ◌+◌, Bool, true, false, Option, none, some, List, ◌++◌, ltb, if◌then◌else◌, length,
  take, drop,
}
use unified_inbox.Prelude.Text
use unified_inbox.Prelude.Text.{slice_from}
use unified_inbox.Prelude.Result.{Failure, error, Result, ok, err}
use unified_inbox.Runtime.{Env, trimmed, env_is}

abbrev pub Bytes : Type 0
Bytes = List ℕ

-- The primitives of node:crypto and Buffer that the service calls.
pub record Cipher : Type 0 where
  -- `scryptSync(secret, SALT, KEY_LENGTH)`
  pub derive_key : String → Bytes
  -- AES-256-GCM under a key and an initialization vector: the authentication tag, the ciphertext
  pub seal : Bytes → Bytes → String → Bytes × Bytes
  -- its inverse under a key, a vector and a tag, none where the tag does not fit
  pub unseal : Bytes → Bytes → Bytes → Bytes → Option String
  pub to_base64 : Bytes → String
  pub from_base64 : String → Bytes

abbrev pub iv_length : ℕ
iv_length = 12

abbrev pub auth_tag_length : ℕ
auth_tag_length = 16

module _ (cipher : Cipher) where
  abbrev missing_secret : Bool → Result (Option Bytes)
  missing_secret true = err (
      error
        "CHANNEL_TOKEN_SECRET is required in production. Set it to a secret string of at least 16 characters.")
  missing_secret false = ok none

  abbrev with_secret : Bool → Option String → Result (Option Bytes)
  with_secret production none = missing_secret production
  with_secret production (some secret) =
      if ltb (Text.length secret) 16
      then err (error "CHANNEL_TOKEN_SECRET must be at least 16 characters for adequate security")
      else ok (some (cipher.derive_key secret))

  -- `onModuleInit`: the derived key, none where encryption is disabled.
  unfoldable pub init_key : Env → Result (Option Bytes)
  init_key env = with_secret (env_is env.node_env "production") (trimmed env.channel_token_secret)

  abbrev pub sealed : Bytes → Bytes × Bytes → String
  sealed iv (tag, encrypted) = concat "enc:" (cipher.to_base64 (iv ++ (tag ++ encrypted)))

  -- The random vector of a call is an argument.
  unfoldable pub encrypt : Option Bytes → Bytes → String → String
  encrypt none iv plaintext = plaintext
  encrypt (some key) iv plaintext = sealed iv (cipher.seal key iv plaintext)

  abbrev unsealed : Option String → Result String
  unsealed (some plaintext) = ok plaintext
  unsealed none = err (error "Unsupported state or unable to authenticate data")

  abbrev pub decrypt_combined : Bytes → Bytes → Result String
  decrypt_combined key combined =
      if ltb (length combined) (iv_length + auth_tag_length + 1)
      then err (error "Invalid encrypted token format")
      else unsealed (
          cipher.unseal key (take iv_length combined)
            (take auth_tag_length (drop iv_length combined))
            (drop auth_tag_length (drop iv_length combined)))

  unfoldable pub decrypt : Option Bytes → String → Result String
  decrypt none ciphertext = ok ciphertext
  decrypt (some key) ciphertext =
      if starts_with ciphertext "enc:"
      then decrypt_combined key (cipher.from_base64 (slice_from 4 ciphertext))
      else ok ciphertext
