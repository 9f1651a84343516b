-- ===== src/Webhooks/Worker/Consistency.antt =====
-- The messages that processRawEvent leaves (apps/api/src/webhooks/webhooks.worker.service.ts).
use unified_inbox.Prelude.{ℕ, ◌≡◌, Bool, Option, none, some, List, [], ◌∷◌, arith, All, ◌==◌}
use unified_inbox.Prelude.Int.{Date}
use unified_inbox.Prelude.Result.{Failure}
use unified_inbox.Runtime.{Runtime}
use unified_inbox.Schema.Rows.{RawWebhookEvent, Message, Channel, Conversation}
use unified_inbox.Database.{Prisma, Store}
use unified_inbox.Database.Statements.{World}
use unified_inbox.Database.Keeps.{Keeps, keeps_rules, Keeps-bind, Keeps-write, All-update_many}
use unified_inbox.Webhooks.WhatsAppPayload.{TextMessage, StatusUpdate}
use unified_inbox.Webhooks.Delivery.{update_data}
use unified_inbox.Webhooks.Delivery.Timestamps.{IsConsistent}
use unified_inbox.Webhooks.Worker.{
  Fresh, as_reported, found_channel, found_thread, upsert_channel, get_or_create_conversation,
  add_message, inbound_message, add_inbound, touch_conversation, or_rethrow, add_channel,
  add_conversation, persist_inbound_message, persist, process_read, has_provider_id,
  process_raw_event, on_error, apply_outbound_status_update, apply_updates, mark_as_processed,
  mark_as_failed, set_events, as_processed, reported, maybe_persist, announce, process_found,
}

abbrev pub AllConsistent : Store → Type 0
AllConsistent s = All IsConsistent s.messages

update_data-IsConsistent :
    (at : Date) (u : StatusUpdate) (m : Message)
    → IsConsistent m
    → IsConsistent (update_data at u m)
unfolding update_data
update_data-IsConsistent at u m v = ground arith

inbound-IsConsistent :
    (fresh : Fresh) (c : ℕ) (msg : TextMessage) → IsConsistent (inbound_message fresh c msg)
inbound-IsConsistent fresh c msg = ground arith

module _ (prisma : Prisma) where
  set_events-Keeps :
      (f : RawWebhookEvent → RawWebhookEvent) (id : ℕ)
      → Keeps AllConsistent (set_events prisma f id)
  set_events-Keeps f id = Keeps-write _ (λ s h. h)

  add_channel-keeps :
      (e : RawWebhookEvent) (fresh : Fresh) (s s' : Store)
      → AllConsistent s
      → add_channel prisma e fresh s ≡ some s'
      → AllConsistent s'
  add_channel-keeps e fresh s s' h k = ground arith

  add_inbound-keeps :
      (fresh : Fresh) (c : ℕ) (msg : TextMessage) (s s' : Store)
      → AllConsistent s
      → add_inbound prisma fresh c msg s ≡ some s'
      → AllConsistent s'
  add_inbound-keeps fresh c msg s s' h k = ground (
    arith,
    prisma.messages.create_lem (has_provider_id msg.provider_message_id)
        (inbound_message fresh c msg) s.messages,
    inbound-IsConsistent fresh c msg,
  )

  found_channel-Keeps :
      (e : RawWebhookEvent) (fresh : Fresh) (o : Option Channel)
      → Keeps AllConsistent (found_channel prisma e fresh o)
  found_channel-Keeps e fresh none = search (keeps_rules, add_channel-keeps)
  found_channel-Keeps e fresh (some c) = search keeps_rules

  upsert_channel-Keeps :
      (e : RawWebhookEvent) (fresh : Fresh) → Keeps AllConsistent (upsert_channel prisma e fresh)
  unfolding upsert_channel
  upsert_channel-Keeps e fresh = search (keeps_rules, found_channel-Keeps)

  add_conversation-keeps :
      (e : RawWebhookEvent) (fresh : Fresh) (c : ℕ) (msg : TextMessage) (s s' : Store)
      → AllConsistent s
      → add_conversation prisma e fresh c msg s ≡ some s'
      → AllConsistent s'
  add_conversation-keeps e fresh c msg s s' h k = ground arith

  or_rethrow-Keeps :
      (f : Failure) (o : Option Conversation) → Keeps AllConsistent (or_rethrow prisma f o)
  or_rethrow-Keeps f none = search keeps_rules
  or_rethrow-Keeps f (some c) = search keeps_rules

  found_thread-Keeps :
      (e : RawWebhookEvent) (fresh : Fresh) (c : ℕ) (msg : TextMessage) (o : Option Conversation)
      → Keeps AllConsistent (found_thread prisma e fresh c msg o)
  found_thread-Keeps e fresh c msg none =
      search (keeps_rules, add_conversation-keeps, or_rethrow-Keeps) depth 8
  found_thread-Keeps e fresh c msg (some d) = search keeps_rules

  get_or_create-Keeps :
      (e : RawWebhookEvent) (fresh : Fresh) (c : ℕ) (msg : TextMessage)
      → Keeps AllConsistent (get_or_create_conversation prisma e fresh c msg)
  unfolding get_or_create_conversation
  get_or_create-Keeps e fresh c msg = search (keeps_rules, found_thread-Keeps)

  touch-keeps :
      (fresh : Fresh) (c : ℕ) (msg : TextMessage) (s : Store)
      → AllConsistent s
      → AllConsistent (touch_conversation prisma fresh c msg s)
  touch-keeps fresh c msg s h = h

  add_message-Keeps :
      (fresh : Fresh) (c : ℕ) (msg : TextMessage)
      → Keeps AllConsistent (add_message prisma fresh c msg)
  unfolding add_message
  add_message-Keeps fresh c msg = search (keeps_rules, add_inbound-keeps, touch-keeps) depth 8

  persist_inbound-Keeps :
      (e : RawWebhookEvent) (fresh : Fresh) (msg : TextMessage)
      → Keeps AllConsistent (persist_inbound_message prisma e fresh msg)
  unfolding persist_inbound_message
  persist_inbound-Keeps e fresh msg =
      search (keeps_rules, upsert_channel-Keeps, get_or_create-Keeps, add_message-Keeps)

  report-keeps :
      (now : ℕ) (u : StatusUpdate) (m : Message) (s : Store)
      → AllConsistent s
      → All IsConsistent
          (prisma.messages.update_many (λ row. row.id == m.id) (as_reported now u) s.messages).0
  report-keeps now u m s h =
      All-update_many prisma.messages IsConsistent _ _ s.messages
        (λ r _ v. update_data-IsConsistent _ u r v) h

  reported-Keeps :
      (now : ℕ) (u : StatusUpdate) (o : Option Message)
      → Keeps AllConsistent (reported prisma now u o)
  reported-Keeps now u none = search keeps_rules
  reported-Keeps now u (some m) = search (keeps_rules, report-keeps)

  apply_update-Keeps :
      (org now : ℕ) (u : StatusUpdate)
      → Keeps AllConsistent (apply_outbound_status_update prisma org now u)
  unfolding apply_outbound_status_update
  apply_update-Keeps org now u = search (keeps_rules, reported-Keeps)

  apply_updates-Keeps :
      (org now : ℕ) (us : List StatusUpdate) → Keeps AllConsistent (apply_updates prisma org now us)
  unfolding apply_updates
  apply_updates-Keeps org now [] = search keeps_rules
  apply_updates-Keeps org now (u ∷ us) =
      Keeps-bind _ _ (apply_update-Keeps org now u) (λ _. apply_updates-Keeps org now us)

  maybe_persist-Keeps :
      (e : RawWebhookEvent) (fresh : Fresh) (msg : Option TextMessage)
      → Keeps AllConsistent (maybe_persist prisma e fresh msg)
  maybe_persist-Keeps e fresh none = search keeps_rules
  maybe_persist-Keeps e fresh (some msg) = persist_inbound-Keeps e fresh msg

  persist-Keeps :
      (e : RawWebhookEvent) (fresh : Fresh) (msg : Option TextMessage) (us : List StatusUpdate)
      → Keeps AllConsistent (persist prisma e fresh msg us)
  unfolding persist
  persist-Keeps e fresh msg us =
      search (keeps_rules, maybe_persist-Keeps, apply_updates-Keeps, set_events-Keeps) depth 8

  announce-Keeps :
      (e : RawWebhookEvent) (msg : Option TextMessage) (c : Option ℕ)
      → Keeps AllConsistent (announce prisma e msg c)
  announce-Keeps e none c = search keeps_rules
  announce-Keeps e (some msg) none = search keeps_rules
  announce-Keeps e (some msg) (some c) = search keeps_rules

  process_read-Keeps :
      (e : RawWebhookEvent) (fresh : Fresh) (msg : Option TextMessage) (us : List StatusUpdate)
      → Keeps AllConsistent (process_read prisma e fresh msg us)
  unfolding process_read mark_as_processed
  process_read-Keeps e fresh none [] = set_events-Keeps (as_processed fresh.now) e.id
  process_read-Keeps e fresh none (u ∷ us) = search (keeps_rules, persist-Keeps, announce-Keeps)
  process_read-Keeps e fresh (some msg) us = search (keeps_rules, persist-Keeps, announce-Keeps)

  on_error-Keeps :
      (rt : Runtime) (id : ℕ) (final : Bool) (fresh : Fresh) (f : Failure)
      → Keeps AllConsistent (on_error prisma rt id final fresh f)
  unfolding on_error mark_as_failed
  on_error-Keeps rt id final fresh f = search (keeps_rules, set_events-Keeps) depth 8

  process_found-Keeps :
      (rt : Runtime) (id : ℕ) (final : Bool) (fresh : Fresh) (o : Option RawWebhookEvent)
      → Keeps AllConsistent (process_found prisma rt id final fresh o)
  process_found-Keeps rt id final fresh none = search keeps_rules
  process_found-Keeps rt id final fresh (some e) =
      search (keeps_rules, process_read-Keeps, on_error-Keeps) depth 8

  process_raw_event-Keeps :
      (rt : Runtime) (id : ℕ) (final : Bool) (fresh : Fresh)
      → Keeps AllConsistent (process_raw_event prisma rt id final fresh)
  unfolding process_raw_event
  process_raw_event-Keeps rt id final fresh = search (keeps_rules, process_found-Keeps)

  -- Whatever a webhook event says, and whether its processing succeeds or fails, the stored
  -- messages stay consistent, if all were.
  pub process_raw_event-consistent :
      (rt : Runtime) (id : ℕ) (final : Bool) (fresh : Fresh) (w : World)
      → AllConsistent w.store
      → AllConsistent (process_raw_event prisma rt id final fresh w).1.store
  process_raw_event-consistent rt id final fresh w =
      (process_raw_event-Keeps rt id final fresh).at w
