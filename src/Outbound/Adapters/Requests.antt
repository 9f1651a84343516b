-- ===== src/Outbound/Adapters/Requests.antt =====
-- The requests of the two adapters (apps/api/src/outbound).
use unified_inbox.Prelude.{
  ℕ, String, ◌≡◌, sym, subst, ◌≢◌, some, ◌∷◌, arith, ◌⊎◌, inl, inr, Option-cases,
}
use unified_inbox.Prelude.Result.{Result-cases, ok}
use unified_inbox.Schema.Enums.{ChannelType}
use unified_inbox.Schema.Rows.{ChannelAccount}
use unified_inbox.Crypto.{decrypt}
use unified_inbox.Database.{Prisma, Store}
use unified_inbox.Database.Keeps.{Keeps}
use unified_inbox.Database.Statements.{World, idle}
use unified_inbox.Outbound.Adapters.{Provider, request, is_account, send_text_message}

-- The worlds differ in the requests at most.
abbrev pub SameButRequests : World → World → Type 0
SameButRequests w w' = w' ≡ record w { requests = w'.requests }

module _ (prisma : Prisma) (p : Provider) (t : ChannelType) (org : ℕ) (external_id to text : String)
    (w : World) where
  -- An adapter writes nothing to the database, on success and on failure.
  pub send_text_message-SameButRequests :
      SameButRequests w (send_text_message prisma p t org external_id to text w).1
  unfolding send_text_message
  send_text_message-SameButRequests = ground arith

  -- From a session outside a transaction an adapter either sends nothing and fails, or sends
  -- exactly one request, to the given recipient and with the decrypted token of the account that
  -- is stored for the organization, the channel type and the external id.
  pub send_text_message_once :
      w.session ≡ idle
      → let (r, v) = send_text_message prisma p t org external_id to text w in
        ((v.requests ≡ w.requests) × ((id : String) → r ≢ ok id))
        ⊎ ((a : ChannelAccount) × (token : String) × (prisma.channel_accounts.find_first
                (is_account org t external_id)
                w.channel_accounts
              ≡ some a)
            × (decrypt p.cipher p.key a.access_token ≡ ok token)
            × (v.requests ≡ request p t external_id token to text ∷ w.requests))
  unfolding send_text_message
  send_text_message_once h =
      elim (Option-cases
        (prisma.channel_accounts.find_first (is_account org t external_id) w.channel_accounts)) [
          | inl e ↦ inl (ground arith, λ id k. ground arith)
          | inr (a, e) ↦ elim (Result-cases (decrypt p.cipher p.key a.access_token)) [
            | inl (token, d) ↦ inr (a, token, e, d, ground arith)
            | inr (f, d) ↦ inl (ground arith, λ id k. ground arith)
          ]
        ]

-- So it keeps every property of the tables.
pub send_text_message-Keeps :
    {P : Store → Type 0} (prisma : Prisma) (p : Provider) (t : ChannelType) (org : ℕ)
    (external_id to text : String)
    → Keeps P (send_text_message prisma p t org external_id to text)
send_text_message-Keeps {P} prisma p t org external_id to text = record {
  at = λ w h.
      subst (λ v. P v.store)
        (sym (send_text_message-SameButRequests prisma p t org external_id to text w)) h;
}
