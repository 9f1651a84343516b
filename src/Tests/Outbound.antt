-- ===== src/Tests/Outbound.antt =====
-- The outbound worker and the stored tokens at concrete inputs.
use unified_inbox.Prelude.{
  String, ◌≡◌, refl, true, false, none, some, [], ◌∷◌, arith, map, count, ◌⊎◌, ◌≢◌, ◌++◌,
}
use unified_inbox.Prelude.Result.{ok, err, error}
use unified_inbox.Json.{
  Json, str, arr, obj, nil, cons, end, field, as_object, array_or_empty, prop,
  read_non_empty_string,
}
use unified_inbox.Prelude.Text.{trim, slice_to}
use unified_inbox.Runtime.{Runtime, Env}
use unified_inbox.Schema.Enums.{sent, whatsapp, opened}
use unified_inbox.Schema.Rows.{Message, Channel, Conversation, ChannelAccount}
use unified_inbox.Database.{empty_store}
use unified_inbox.Database.Memory.{memory}
use unified_inbox.Database.Statements.{World, Request, empty_world}
use unified_inbox.Crypto.{Bytes, Cipher, encrypt, decrypt}
use unified_inbox.Crypto.RoundTrip.{decrypt-encrypt}
use unified_inbox.Webhooks.Worker.Consistency.{AllConsistent}
use unified_inbox.Outbound.Adapters.{
  Provider, request, is_account, send_text_message, whatsapp_message_id,
}
use unified_inbox.Outbound.Adapters.Requests.{send_text_message_once}
use unified_inbox.Outbound.Worker.{
  Times, is_claimable, is_outbound_id, process_outbound_message, send_via_provider, find_outbound,
  mark_message_as_failed,
}
use unified_inbox.Outbound.Worker.Once.{process_twice}
use unified_inbox.Outbound.Worker.Retry.{throw_retries}
use unified_inbox.Outbound.Worker.Marks.{process_outbound_message-consistent}
use unified_inbox.Tests.Payloads.{plain_runtime}
use unified_inbox.Tests.Delivery.{queued_message, queued-IsConsistent}

abbrev vector : Bytes
vector = 1 ∷ 2 ∷ 3 ∷ 4 ∷ 5 ∷ 6 ∷ 7 ∷ 8 ∷ 9 ∷ 10 ∷ 11 ∷ 12 ∷ []

abbrev auth_tag : Bytes
auth_tag = vector ++ (0 ∷ 0 ∷ 0 ∷ 0 ∷ [])

-- A cipher for one token.
abbrev plain_cipher : Cipher
plain_cipher = record {
  derive_key = λ s. 1 ∷ [];
  seal = λ k iv s. (auth_tag, 7 ∷ []);
  unseal = λ k iv tag c. some "token";
  to_base64 = λ b. "AAAA";
  from_base64 = λ s. vector ++ (auth_tag ++ (7 ∷ []));
}

decrypt-encrypt_example :
    decrypt plain_cipher (some (1 ∷ [])) (encrypt plain_cipher (some (1 ∷ [])) vector "token")
    ≡ ok "token"
decrypt-encrypt_example =
    decrypt-encrypt plain_cipher (1 ∷ []) vector "token" auth_tag (7 ∷ []) refl refl refl
      (ground arith) refl refl

abbrev pub empty_env : Env
empty_env = record {
  redis_url = none;
  node_env = none;
  enable_dev_endpoints = none;
  whatsapp_graph_api_version = none;
  instagram_graph_api_version = none;
  channel_token_secret = none;
  app_url = none;
  auth_email_transport = none;
  auth_email_verification_mode = none;
  auth_email_from = none;
  auth_recovery_secret = none;
  resend_api_key = none;
  session_secret = none;
  whatsapp_app_secret = none;
  instagram_app_secret = none;
  whatsapp_verify_token = none;
  instagram_verify_token = none;
}

-- `{"messages": [{"id": "wamid.9"}]}`
abbrev accepted : Json
accepted = obj (field "messages" (arr (cons (obj (field "id" (str "wamid.9") end)) nil)) end)

abbrev reading_runtime : Runtime
reading_runtime = record plain_runtime { parse_json = λ s. some accepted }

-- The provider that accepts every message, and the network that is down.
abbrev accepting : Provider
accepting = record {
  env = empty_env;
  runtime = reading_runtime;
  cipher = plain_cipher;
  key = none;
  fetch = λ r. ok (record { is_ok = true; status = 200; text = "accepted" });
}

abbrev unreachable : Provider
unreachable = record accepting { fetch = λ r. err (error "fetch failed") }

abbrev pub account : ChannelAccount
account = record {
  id = 2;
  provider = whatsapp;
  external_account_id = "10101";
  display_phone_number = none;
  waba_id = none;
  access_token = "token";
  organization_id = 4;
  created_at = 1;
}

abbrev channel : Channel
channel = record {
  id = 20;
  channel_type = whatsapp;
  name = "WhatsApp";
  external_id = some "10101";
  organization_id = 4;
}

abbrev conversation : Conversation
conversation = record {
  id = 3;
  status = opened;
  contact_name = "Ada";
  contact_phone = some "905551234567";
  external_thread_id = some "wa:905551234567";
  last_message_at = none;
  last_message_text = none;
  is_unread = false;
  organization_id = 4;
  channel_id = 20;
  assigned_membership_id = none;
}

abbrev pub ready : World
ready = record empty_world {
  store = record empty_store {
    channel_accounts = account ∷ [];
    channels = channel ∷ [];
    conversations = conversation ∷ [];
    messages = queued_message ∷ [];
  };
}

abbrev times : Times
times = record { claimed_at = 10; finished_at = 11 }

-- The world after a run that sent.
abbrev sent_world : World
sent_world = (process_outbound_message memory accepting 7 times ready).1

sent_lem :
    (map (λ (m : Message). m.delivery_status) sent_world.messages ≡ some sent ∷ [])
    × (map (λ (m : Message). m.provider_message_id) sent_world.messages ≡ some "wamid.9" ∷ [])
    × (map (λ (r : Request). r.token) sent_world.requests ≡ "token" ∷ [])
unfolding process_outbound_message send_via_provider find_outbound send_text_message decrypt
    whatsapp_message_id trim as_object array_or_empty prop read_non_empty_string
sent_lem = (refl, refl, refl)

sent_ok : process_outbound_message memory accepting 7 times ready ≡ (ok tt, sent_world)
unfolding process_outbound_message send_via_provider find_outbound send_text_message decrypt
    whatsapp_message_id trim as_object array_or_empty prop read_non_empty_string
sent_ok = refl

process_twice_example :
    process_outbound_message memory accepting 7 times sent_world ≡ (ok tt, sent_world)
process_twice_example = process_twice memory accepting 7 times times ready sent_world refl sent_ok

abbrev failed_world : World
failed_world = (process_outbound_message memory unreachable 7 times ready).1

failed_ok :
    process_outbound_message memory unreachable 7 times ready
    ≡ (err (error "fetch failed"), failed_world)
unfolding process_outbound_message send_via_provider find_outbound send_text_message decrypt
    whatsapp_message_id mark_message_as_failed trim as_object array_or_empty prop
    read_non_empty_string slice_to
failed_ok = refl

throw_retries_example :
    count (is_claimable 7) failed_world.messages ≡ count (is_outbound_id 7) ready.messages
throw_retries_example =
    throw_retries memory unreachable 7 times ready failed_world (error "fetch failed") refl
      failed_ok

process_outbound_message-consistent_example :
    AllConsistent (process_outbound_message memory unreachable 7 times ready).1.store
process_outbound_message-consistent_example =
    process_outbound_message-consistent memory unreachable 7 times ready (queued-IsConsistent, tt)

send_text_message_once_example :
    let (r, v) =
      send_text_message memory unreachable whatsapp 4 "10101" "905551234567" "Merhaba" ready in
    ((v.requests ≡ ready.requests) × ((id : String) → r ≢ ok id))
    ⊎ ((a : ChannelAccount) × (token : String) × (memory.channel_accounts.find_first
            (is_account 4 whatsapp "10101")
            ready.channel_accounts
          ≡ some a)
        × (decrypt unreachable.cipher unreachable.key a.access_token ≡ ok token)
        × (v.requests
            ≡ request unreachable whatsapp "10101" token "905551234567" "Merhaba" ∷ ready.requests))
send_text_message_once_example =
    send_text_message_once memory unreachable whatsapp 4 "10101" "905551234567" "Merhaba" ready refl
