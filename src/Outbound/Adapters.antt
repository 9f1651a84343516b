-- ===== src/Outbound/Adapters.antt =====
-- apps/api/src/outbound/whatsapp-cloud-api.adapter.ts and instagram-graph-api.adapter.ts: one text
-- message to a provider's API. `fetch` is a parameter.
pub mod Requests
use Prim.Native.String.{◌++◌ as concat}
use unified_inbox.Prelude.{
  ℕ, zero, suc, String, Bool, true, false, ◌&&◌, Option, none, some, List, [], ◌∷◌, if◌then◌else◌,
  ◌==◌, str_eq, or_else, first_some,
}
use unified_inbox.Prelude.Text.{slice_to, trim, show}
use unified_inbox.Prelude.Result.{Failure, error, Result, ok, err, Exec, pure, throw, ◌>>=◌, ◌>>◌}
use unified_inbox.Json.{Json, prop, as_object, array_or_empty, read_non_empty_string}
use unified_inbox.Runtime.{Runtime, Env, trimmed}
use unified_inbox.Crypto.{Cipher, Bytes, decrypt}
use unified_inbox.Schema.Enums.{ChannelType, whatsapp, instagram}
use unified_inbox.Schema.Rows.{ChannelAccount}
use unified_inbox.Database.{Prisma}
use unified_inbox.Database.Statements.{World, Request, query}
use unified_inbox.Webhooks.Worker.{same_channel_type}

pub record Response : Type 0 where
  pub is_ok : Bool
  pub status : ℕ
  pub text : String

-- What an adapter works with: the environment, the derived key and the network. `fetch` answers a
-- request, or fails with the message of a network error.
pub record Provider : Type 0 where
  pub env : Env
  pub runtime : Runtime
  pub cipher : Cipher
  pub key : Option Bytes
  pub fetch : Request → Result Response

abbrev pub is_account : ℕ → ChannelType → String → ChannelAccount → Bool
is_account org t external_id a =
    a.organization_id == org
    && (same_channel_type a.provider t && str_eq a.external_account_id external_id)

-- `parseJson`; an empty text is null, as one that does not parse.
abbrev parsed : Runtime → String → Option Json
parsed rt s = if str_eq s "" then none else rt.parse_json s

abbrev id_of : Json → Option String
id_of message = elim (as_object message) [
  | none ↦ none
  | some m ↦ read_non_empty_string (prop "id" m)
]

-- `extractProviderMessageId` of the two adapters.
unfoldable pub whatsapp_message_id : Option Json → Option String
whatsapp_message_id none = none
whatsapp_message_id (some body) = elim (as_object body) [
  | none ↦ none
  | some b ↦ first_some id_of (array_or_empty (prop "messages" b))
]

unfoldable pub instagram_message_id : Option Json → Option String
instagram_message_id none = none
instagram_message_id (some body) = elim (as_object body) [
  | none ↦ none
  | some b ↦ read_non_empty_string (prop "message_id" b)
]

-- The provider's own words in an error response.
abbrev object_of : Option Json → Option Json
object_of none = none
object_of (some v) = as_object v

abbrev error_prop : Option Json → Option Json
error_prop none = none
error_prop (some b) = prop "error" b

abbrev message_prop : Option Json → Option String
message_prop none = none
message_prop (some e) = read_non_empty_string (prop "message" e)

abbrev provider_message : Option Json → Option String
provider_message body = message_prop (object_of (error_prop (object_of body)))

abbrev error_text : String → ℕ → Option String → String
error_text label status none = concat label (concat " API error (" (concat (show status) ")"))
error_text label status (some m) =
    slice_to 500 (concat label (concat " API error (" (concat (show status) (concat "): " m))))

-- `toProviderError`, of the adapter with this label.
unfoldable pub to_provider_error : String → ℕ → Option Json → String
to_provider_error label status body = error_text label status (provider_message body)

-- What the two adapters differ in.
abbrev label : ChannelType → String
label whatsapp = "WhatsApp"
label instagram = "Instagram"

abbrev account_missing : ChannelType → String
account_missing whatsapp = "WhatsApp channel account not found for conversation"
account_missing instagram = "Instagram channel account not found for conversation"

abbrev id_missing : ChannelType → String
id_missing whatsapp = "WhatsApp send response is missing messages[0].id"
id_missing instagram = "Instagram send response is missing message_id"

abbrev api_version : ChannelType → Env → String
api_version whatsapp env = or_else (trimmed env.whatsapp_graph_api_version) "v21.0"
api_version instagram env = or_else (trimmed env.instagram_graph_api_version) "v21.0"

abbrev host : ChannelType → String
host whatsapp = "https://graph.facebook.com/"
host instagram = "https://graph.instagram.com/"

abbrev message_id : ChannelType → Option Json → Option String
message_id whatsapp = whatsapp_message_id
message_id instagram = instagram_message_id

abbrev pub request : Provider → ChannelType → String → String → String → String → Request
request p t external_id token to text = record {
  endpoint =
      concat (host t) (concat (api_version t p.env) (concat "/" (concat external_id "/messages")));
  token = token;
  to = to;
  text = text;
}

module _ (prisma : Prisma) (p : Provider) where
  abbrev account_found : ChannelType → Option ChannelAccount → Exec World ChannelAccount
  account_found t none = throw (error (account_missing t))
  account_found t (some a) = pure a

  abbrev token_of : ChannelAccount → Exec World String
  token_of a w = (decrypt p.cipher p.key a.access_token, w)

  -- The request leaves, whatever comes back.
  abbrev fetched : Request → Exec World Response
  fetched r w = (p.fetch r, record w { requests = r ∷ w.requests })

  abbrev id_found : ChannelType → Option String → Exec World String
  id_found t none = throw (error (id_missing t))
  id_found t (some id) = pure id

  abbrev read_response : ChannelType → Response → Exec World String
  read_response t r =
      let body = parsed p.runtime r.text in
      if r.is_ok
      then id_found t (message_id t body)
      else throw (error (to_provider_error (label t) r.status body))

  -- `sendTextMessage` of the provider's adapter: the provider's id of the message.
  unfoldable pub send_text_message : ChannelType → ℕ → String → String → String → Exec World String
  send_text_message t org external_id to text = do
    found ←
        query
          λ s. prisma.channel_accounts.find_first (is_account org t external_id) s.channel_accounts
    account ← account_found t found
    token ← token_of account
    response ← fetched (request p t external_id token to text)
    read_response t response
