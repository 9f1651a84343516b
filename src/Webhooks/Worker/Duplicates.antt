-- ===== src/Webhooks/Worker/Duplicates.antt =====
-- A message whose provider id is already stored, on a database that aborts the transaction of a
-- failed statement.
use unified_inbox.Prelude.{ℕ, ◌≡◌, refl, true, false, Option, none, some, List, [], ◌∷◌, arith, any}
use unified_inbox.Prelude.Result.{Result, ok, err, Exec, pure, continue, ◌>>◌}
use unified_inbox.Runtime.{Runtime}
use unified_inbox.Schema.Rows.{RawWebhookEvent}
use unified_inbox.Database.{Prisma}
use unified_inbox.Database.Lookups.{create-find_none, create-conflict}
use unified_inbox.Database.Statements.{World, active, aborted, idle, aborted_error}
use unified_inbox.Webhooks.WhatsAppPayload.{TextMessage, StatusUpdate}
use unified_inbox.Webhooks.Worker.{
  Fresh, event_id_is, has_provider_id, is_channel, new_channel, is_thread, new_conversation,
  inbound_message, upsert_channel, get_or_create_conversation, add_message, persist_inbound_message,
  persist, process_read, process_raw_event, message_of, updates_of, on_error, is_pending,
  apply_outbound_status_update, apply_updates, set_events, as_processed,
}

-- An action that succeeded, with the transaction open and the messages as they were.
abbrev Advances : World → Result ℕ × World → Type 0
Advances w (ok a, v) = (v.session ≡ active) × (v.messages ≡ w.messages)
Advances w (err e, v) = ⊥

-- What follows such an action starts from its world.
Advances-continue :
    {B : Type 0} (P : Result B × World → Type 0) (w : World) (k : ℕ → Exec World B)
    (r : Result ℕ × World)
    → Advances w r
    → ((c : ℕ) (v : World) → v.session ≡ active → v.messages ≡ w.messages → P (k c v))
    → P (continue k r)
Advances-continue P w k (ok c, v) h then_P = then_P c v h.0 h.1
Advances-continue P w k (err f, v) h then_P = absurd h

-- A duplicate, found in an open transaction.
abbrev IsDuplicate : Result (Option ℕ) × World → Type 0
IsDuplicate r = (r.0 ≡ ok none) × (r.1.session ≡ aborted)

module _ (prisma : Prisma) (e : RawWebhookEvent) (fresh : Fresh) (msg : TextMessage) where
  upsert_channel-Advances :
      (w : World) → w.session ≡ active → Advances w (upsert_channel prisma e fresh w)
  unfolding upsert_channel
  upsert_channel-Advances w h =
      ground
        (arith, create-find_none prisma.channels (is_channel e) (new_channel e fresh) w.channels)

  get_or_create-Advances :
      (channel_id : ℕ) (w : World)
      → w.session ≡ active
      → Advances w (get_or_create_conversation prisma e fresh channel_id msg w)
  unfolding get_or_create_conversation
  get_or_create-Advances channel_id w h = ground (
    arith,
    create-find_none prisma.conversations (is_thread e channel_id msg.external_thread_id)
        (new_conversation e fresh channel_id msg) w.conversations,
  )

  add_message-duplicate :
      (conversation_id : ℕ) (w : World)
      → prisma.aborts ≡ true
      → w.session ≡ active
      → any (has_provider_id msg.provider_message_id) w.messages ≡ true
      → add_message prisma fresh conversation_id msg w ≡ (ok none, record w { session = aborted })
  unfolding add_message
  add_message-duplicate conversation_id w a h d = ground (
    arith,
    create-conflict prisma.messages (has_provider_id msg.provider_message_id)
        (inbound_message fresh conversation_id msg) w.messages,
  )

  persist_inbound_message-IsDuplicate :
      (w : World)
      → prisma.aborts ≡ true
      → w.session ≡ active
      → any (has_provider_id msg.provider_message_id) w.messages ≡ true
      → IsDuplicate (persist_inbound_message prisma e fresh msg w)
  unfolding persist_inbound_message
  persist_inbound_message-IsDuplicate w a h d =
      Advances-continue IsDuplicate w _ (upsert_channel prisma e fresh w)
        (upsert_channel-Advances w h)
        λ c v k same.
          Advances-continue IsDuplicate v _ (get_or_create_conversation prisma e fresh c msg v)
            (get_or_create-Advances c v k)
            λ d' u l same'. ground (arith, add_message-duplicate d' u a l (rw (same', same) d))

  -- In an aborted transaction the updates and the mark are refused.
  marks_refused :
      (ups : List StatusUpdate) (c : Option ℕ) (v : World)
      → v.session ≡ aborted
      → ((apply_updates prisma e.organization_id fresh.now ups
            >> (set_events prisma (as_processed fresh.now) e.id >> pure c))
          v).0
        ≡ err aborted_error
  unfolding apply_updates apply_outbound_status_update
  marks_refused [] c v k = ground arith
  marks_refused (u ∷ us) c v k = ground arith

  duplicate_refused :
      (ups : List StatusUpdate) (r : Result (Option ℕ) × World)
      → IsDuplicate r
      → (continue
          (λ c.
            apply_updates prisma e.organization_id fresh.now ups
            >> (set_events prisma (as_processed fresh.now) e.id >> pure c))
          r).0
        ≡ err aborted_error
  duplicate_refused ups (ok c, v) h = marks_refused ups c v h.1
  duplicate_refused ups (err f, v) h = cc

  persist-duplicate :
      (ups : List StatusUpdate) (w : World)
      → prisma.aborts ≡ true
      → w.session ≡ active
      → any (has_provider_id msg.provider_message_id) w.messages ≡ true
      → (persist prisma e fresh (some msg) ups w).0 ≡ err aborted_error
  unfolding persist
  persist-duplicate ups w a h d =
      duplicate_refused ups (persist_inbound_message prisma e fresh msg w)
        (persist_inbound_message-IsDuplicate w a h d)

  process_read-duplicate :
      (ups : List StatusUpdate) (w : World)
      → prisma.aborts ≡ true
      → any (has_provider_id msg.provider_message_id) w.messages ≡ true
      → process_read prisma e fresh (some msg) ups w ≡ (err aborted_error, w)
  unfolding process_read
  process_read-duplicate ups w a d =
      ground (arith, persist-duplicate ups (record w { session = active }) a refl d)

-- A redelivered message fails its webhook event: where the database aborts the transaction of a
-- failed statement, an attempt on a pending event whose text message is already stored throws and
-- changes nothing, so that the event stays pending.
pub duplicate_throws :
    (prisma : Prisma) (rt : Runtime) (id : ℕ) (fresh : Fresh) (w : World) (e : RawWebhookEvent)
    (msg : TextMessage)
    → prisma.aborts ≡ true
    → w.session ≡ idle
    → prisma.raw_webhook_events.find_first (event_id_is id) w.raw_webhook_events ≡ some e
    → is_pending e.processing_status ≡ true
    → message_of prisma rt e ≡ some msg
    → any (has_provider_id msg.provider_message_id) w.messages ≡ true
    → process_raw_event prisma rt id false fresh w ≡ (err aborted_error, w)
unfolding process_raw_event on_error
duplicate_throws prisma rt id fresh w e msg a h found p m d =
    ground (arith, process_read-duplicate prisma e fresh msg (updates_of prisma rt e) w a d)
