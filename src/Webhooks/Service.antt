-- ===== src/Webhooks/Service.antt =====
-- apps/api/src/webhooks/webhooks.service.ts: a provider's request is checked, stored once and
-- queued. The two handlers are one, with the channel type as an argument.
pub mod Signed
pub mod Stored
use Prim.Native.Char.{code}
use Prim.Native.String.{◌++◌ as concat}
use unified_inbox.Prelude.{
  ℕ, suc, zero, String, Bool, true, false, ◌&&◌, ◌||◌, ◌+◌, not, Option, none, some, List, [], ◌∷◌,
  if◌then◌else◌, ◌==◌, leb, str_eq, or_else, length,
}
use unified_inbox.Prelude.Text
use unified_inbox.Prelude.Text.{trim, is_empty}
use unified_inbox.Prelude.Result.{
  Failure, http, unique_violation, error, non_retryable, delivery_error, bad_request, forbidden,
  Exec, pure, throw, catching, ◌>>=◌, ◌>>◌,
}
use unified_inbox.Json.{Json}
use unified_inbox.Runtime.{Runtime, Env, trimmed, env_is}
use unified_inbox.Queues.{Mode, enqueue}
use unified_inbox.Schema.Enums.{ChannelType, whatsapp, instagram, ProcessingStatus, pending}
use unified_inbox.Schema.Rows.{ChannelAccount, Organization, RawWebhookEvent}
use unified_inbox.Database.{Prisma, Store}
use unified_inbox.Database.Statements.{World, query, insert}
use unified_inbox.Crypto.{Bytes}
use unified_inbox.Webhooks.WhatsAppPayload.{
  extract_whatsapp_phone_number_id, extract_whatsapp_provider_message_id,
}
use unified_inbox.Webhooks.InstagramPayload.{
  extract_instagram_account_id, extract_instagram_provider_message_id,
}
use unified_inbox.Webhooks.Worker.{same_channel_type, is_pending}

-- What the service calls of node:crypto, Buffer and JSON.
pub record Digests : Type 0 where
  -- `createHmac("sha256", secret).update(body).digest("hex")`
  pub hmac : String → Bytes → String
  -- `Buffer.from(digest, "hex")`
  pub from_hex : String → Bytes
  -- the hexadecimal sha256 of a text
  pub sha256 : String → String
  -- `JSON.stringify`
  pub stringify : Json → String

-- `HandleWebhookOptions`; the organization's header is trimmed, none where it is blank.
pub record HandleWebhookOptions : Type 0 where
  pub x_org_id : Option ℕ
  pub signature_header : Option String
  pub raw_body : Option Bytes

pub record Reply : Type 0 where
  pub duplicate : Bool

abbrev pub is_dev_endpoints_enabled : Env → Bool
is_dev_endpoints_enabled env =
    env_is env.enable_dev_endpoints "true" && not (env_is env.node_env "production")

-- The letters of ASCII in lower case, by code point.
abbrev lower : ℕ → ℕ
lower c = if leb 65 c && leb c 90 then c + 32 else c

abbrev is_hex : ℕ → Bool
is_hex c = (leb 48 c && leb c 57) || (leb 97 (lower c) && leb (lower c) 102)

abbrev all_hex : String → Bool
all_hex String.[] = true
all_hex (String.◌∷◌ c s) = is_hex (code c) && all_hex s

-- What follows a prefix, in letters of any case.
abbrev after_prefix : String → String → Option String
after_prefix String.[] s = some s
after_prefix (String.◌∷◌ p ps) String.[] = none
after_prefix (String.◌∷◌ p ps) (String.◌∷◌ c cs) =
    if lower (code c) == code p then after_prefix ps cs else none

abbrev digest_in : Runtime → Option String → Option String
digest_in rt none = none
digest_in rt (some s) = if Text.length s == 64 && all_hex s then some (rt.to_lower_case s) else none

-- `/^sha256=([a-f0-9]{64})$/i` on the trimmed header.
unfoldable pub parse_signature_header : Runtime → String → Option String
parse_signature_header rt header = digest_in rt (after_prefix "sha256=" (trim header))

abbrev pub bytes_eq : Bytes → Bytes → Bool
bytes_eq [] [] = true
bytes_eq [] (b ∷ bs) = false
bytes_eq (a ∷ xs) [] = false
bytes_eq (a ∷ xs) (b ∷ bs) = a == b && bytes_eq xs bs

abbrev pub app_secret : ChannelType → Env → Option String
app_secret whatsapp env = trimmed env.whatsapp_app_secret
app_secret instagram env = trimmed env.instagram_app_secret

abbrev secret_missing : ChannelType → String
secret_missing whatsapp = "WhatsApp app secret is not configured"
secret_missing instagram = "Instagram app secret is not configured"

abbrev pub account_missing : ChannelType → String
account_missing whatsapp = "phone_number_id is missing in payload"
account_missing instagram = "Instagram account ID is missing in payload"

abbrev unmapped : ChannelType → String
unmapped whatsapp = "Unmapped WHATSAPP account"
unmapped instagram = "Unmapped INSTAGRAM account"

abbrev pub account_id : ChannelType → Json → Option String
account_id whatsapp payload = extract_whatsapp_phone_number_id payload
account_id instagram payload = extract_instagram_account_id payload

abbrev pub message_id : Runtime → ChannelType → Json → Option String
message_id rt whatsapp payload = extract_whatsapp_provider_message_id rt payload
message_id rt instagram payload = extract_instagram_provider_message_id payload

-- `provider_providerMessageId`
abbrev pub is_event : ChannelType → String → RawWebhookEvent → Bool
is_event t id e = same_channel_type e.provider t && str_eq e.provider_message_id id

abbrev verify_token : ChannelType → Env → Option String
verify_token whatsapp env = trimmed env.whatsapp_verify_token
verify_token instagram env = trimmed env.instagram_verify_token

abbrev verification_failed : ChannelType → String
verification_failed whatsapp = "WhatsApp webhook verification failed"
verification_failed instagram = "Instagram webhook verification failed"

abbrev verified : ChannelType → Bool → String → Option String → Option String → Exec World String
verified t false challenge token expected = throw (forbidden (verification_failed t))
verified t true challenge token none = throw (forbidden (verification_failed t))
verified t true challenge none (some expected) = throw (forbidden (verification_failed t))
verified t true challenge (some token) (some expected) =
    if str_eq token expected && not (is_empty challenge)
    then pure challenge
    else throw (forbidden (verification_failed t))

-- `verifyWhatsAppWebhook` and `verifyInstagramWebhook`; a missing mode or challenge is empty.
unfoldable pub verify_webhook :
    ChannelType → Env → String → Option String → String → Exec World String
verify_webhook t env mode token challenge =
    verified t (str_eq mode "subscribe") challenge token (verify_token t env)

module _ (prisma : Prisma) (rt : Runtime) (digests : Digests) (env : Env) where
  abbrev pub check_digest : Bytes → Bytes → Exec World Unit
  check_digest provided expected =
      if length provided == length expected && bytes_eq provided expected
      then pure tt
      else throw (forbidden "Invalid X-Hub-Signature-256 header")

  abbrev pub check_header : String → Bytes → Option String → Exec World Unit
  check_header secret body none = throw (forbidden "Invalid X-Hub-Signature-256 header")
  check_header secret body (some digest) =
      check_digest (digests.from_hex digest) (digests.from_hex (digests.hmac secret body))

  abbrev pub check_secret : ChannelType → String → Bytes → Option String → Exec World Unit
  check_secret t header body none = throw (forbidden (secret_missing t))
  check_secret t header body (some secret) =
      check_header secret body (parse_signature_header rt header)

  abbrev pub check_body : ChannelType → String → Option Bytes → Exec World Unit
  check_body t header none = throw (forbidden "Missing raw request body")
  check_body t header (some body) = check_secret t header body (app_secret t env)

  abbrev pub check_signature : ChannelType → Option String → Option Bytes → Exec World Unit
  check_signature t none body = throw (forbidden "Missing X-Hub-Signature-256 header")
  check_signature t (some header) body =
      if is_empty header
      then throw (forbidden "Missing X-Hub-Signature-256 header")
      else check_body t header body

  -- `assertValidSignature`
  unfoldable pub assert_valid_signature : ChannelType → HandleWebhookOptions → Exec World Unit
  assert_valid_signature t opts =
      if is_dev_endpoints_enabled env
      then pure tt
      else check_signature t opts.signature_header opts.raw_body

  abbrev pub account_found : ChannelType → Option String → Exec World String
  account_found t none = throw (bad_request (account_missing t))
  account_found t (some id) = pure id

  abbrev pub organization_found : Option Organization → Exec World ℕ
  organization_found none = throw (bad_request "X-ORG-ID organization not found")
  organization_found (some o) = pure o.id

  abbrev pub named_organization : ChannelType → Bool → Option ℕ → Exec World ℕ
  named_organization t true (some id) = do
    found ← query λ s. prisma.organizations.find_first (λ o. o.id == id) s.organizations
    organization_found found
  named_organization t true none = throw (bad_request (unmapped t))
  named_organization t false header = throw (bad_request (unmapped t))

  abbrev pub account_organization : ChannelType → Option ℕ → Option ChannelAccount → Exec World ℕ
  account_organization t header (some a) = pure a.organization_id
  account_organization t header none = named_organization t (is_dev_endpoints_enabled env) header

  -- `resolveOrganizationId`
  unfoldable pub resolve_organization_id : ChannelType → String → Option ℕ → Exec World ℕ
  resolve_organization_id t account header = do
    found ← query λ s.
        prisma.channel_accounts.find_first
          (λ a. same_channel_type a.provider t && str_eq a.external_account_id account)
          s.channel_accounts
    account_organization t header found

  -- The provider's id, or that of the payload's hash.
  abbrev pub stored_id : ChannelType → Json → String
  stored_id t payload =
      or_else (message_id rt t payload)
        (concat "payload:" (digests.sha256 (digests.stringify payload)))

  abbrev pub new_event : ChannelType → ℕ → Json → String → ℕ → RawWebhookEvent
  new_event t id payload account org = record {
    id = id;
    provider = t;
    provider_message_id = stored_id t payload;
    external_account_id = account;
    payload = payload;
    processing_status = pending;
    processed_at = none;
    error = none;
    organization_id = org;
  }

  abbrev pub add_event : RawWebhookEvent → Store → Option Store
  add_event e s =
      elim (prisma.raw_webhook_events.create (is_event e.provider e.provider_message_id) e
        s.raw_webhook_events) [
          | none ↦ none
          | some rows ↦ some (record s { raw_webhook_events = rows })
        ]

  abbrev pub store_event : Mode → RawWebhookEvent → Exec World Reply
  store_event mode e = do
    insert prisma.aborts "provider,providerMessageId" (add_event e) tt
    enqueue mode e.id
    pure (record { duplicate = false })

  -- `reenqueueIfPendingDuplicate`
  abbrev pub reenqueue : Mode → Option RawWebhookEvent → Exec World Unit
  reenqueue mode none = pure tt
  reenqueue mode (some e) = if is_pending e.processing_status then enqueue mode e.id else pure tt

  abbrev pub on_store_error : Mode → ChannelType → String → Failure → Exec World Reply
  on_store_error mode t id (http s m c) = throw (http s m c)
  on_store_error mode t id (unique_violation target) = do
    found ← query λ s. prisma.raw_webhook_events.find_first (is_event t id) s.raw_webhook_events
    reenqueue mode found
    pure (record { duplicate = true })
  on_store_error mode t id (error m) = throw (error m)
  on_store_error mode t id (non_retryable m) = throw (non_retryable m)
  on_store_error mode t id (delivery_error m) = throw (delivery_error m)

  abbrev pub store_or_reenqueue : Mode → RawWebhookEvent → Exec World Reply
  store_or_reenqueue mode e =
      catching (store_event mode e) (on_store_error mode e.provider e.provider_message_id)

  -- `handleWhatsAppWebhook` and `handleInstagramWebhook`; the new row's id is an argument.
  unfoldable pub handle_webhook :
      Mode → ℕ → ChannelType → Json → HandleWebhookOptions → Exec World Reply
  handle_webhook mode id t payload opts = do
    assert_valid_signature t opts
    account ← account_found t (account_id t payload)
    org ← resolve_organization_id t account opts.x_org_id
    store_or_reenqueue mode (new_event t id payload account org)
