-- ===== src/Webhooks/Service/Signed.antt =====
-- The signatures of accepted requests (apps/api/src/webhooks/webhooks.service.ts).
use unified_inbox.Prelude.{ℕ, String, ◌≡◌, true, false, some, arith, Option-cases, inl, inr}
use unified_inbox.Prelude.Result.{ok, continue-ok}
use unified_inbox.Json.{Json}
use unified_inbox.Runtime.{Runtime, Env}
use unified_inbox.Queues.{Mode}
use unified_inbox.Schema.Enums.{ChannelType}
use unified_inbox.Database.{Prisma}
use unified_inbox.Database.Statements.{World}
use unified_inbox.Crypto.{Bytes}
use unified_inbox.Webhooks.Service.{
  Digests, HandleWebhookOptions, Reply, is_dev_endpoints_enabled, app_secret, bytes_eq,
  parse_signature_header, assert_valid_signature, handle_webhook,
}

module _ (rt : Runtime) (digests : Digests) (env : Env) (t : ChannelType) where
  -- The header holds the digest of the body under the provider's secret.
  pub record IsSigned (opts : HandleWebhookOptions) : Type 0 where
    pub header : String
    pub body : Bytes
    pub secret : String
    pub digest : String
    pub has_header : opts.signature_header ≡ some header
    pub has_body : opts.raw_body ≡ some body
    pub has_secret : app_secret t env ≡ some secret
    pub parsed : parse_signature_header rt header ≡ some digest
    pub same :
        bytes_eq (digests.from_hex digest) (digests.from_hex (digests.hmac secret body)) ≡ true

  module _ (prisma : Prisma) where
    assert-IsSigned :
        (opts : HandleWebhookOptions) (w v : World)
        → is_dev_endpoints_enabled env ≡ false
        → assert_valid_signature prisma rt digests env t opts w ≡ (ok tt, v)
        → IsSigned opts
    unfolding assert_valid_signature
    assert-IsSigned opts w v d h = elim (Option-cases opts.signature_header) [
      | inl e ↦ absurd (ground arith)
      | inr (header, e) ↦ elim (Option-cases opts.raw_body) [
        | inl e' ↦ absurd (ground arith)
        | inr (body, e') ↦ elim (Option-cases (app_secret t env)) [
          | inl s ↦ absurd (ground arith)
          | inr (secret, s) ↦ elim (Option-cases (parse_signature_header rt header)) [
            | inl p ↦ absurd (ground arith)
            | inr (digest, p) ↦ record {
              header = header;
              body = body;
              secret = secret;
              digest = digest;
              has_header = e;
              has_body = e';
              has_secret = s;
              parsed = p;
              same = ground arith;
            }
          ]
        ]
      ]
    ]

    -- Where the developer endpoints are off, a request that was accepted is signed.
    pub handle_webhook-IsSigned :
        (mode : Mode) (id : ℕ) (payload : Json) (opts : HandleWebhookOptions) (w v : World)
        (r : Reply)
        → is_dev_endpoints_enabled env ≡ false
        → handle_webhook prisma rt digests env mode id t payload opts w ≡ (ok r, v)
        → IsSigned opts
    unfolding handle_webhook
    handle_webhook-IsSigned mode id payload opts w v r d h =
        let (a, u, e, _) =
          continue-ok _ (assert_valid_signature prisma rt digests env t opts w) r v h in
        assert-IsSigned opts w u d e
