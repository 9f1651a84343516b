-- ===== src/Conversations/Outgoing.antt =====
-- The message and the job of createOutboundMessage (apps/api/src/conversations).
use unified_inbox.Prelude.{
  ℕ, String, any, str_eq, Bool-cases, Option-cases, inl, inr, ◌≡◌, refl, Bool, false, Option, some,
  List, [], ◌∷◌, arith, ◌==◌, count, head?, ◌⊎◌,
}
use unified_inbox.Prelude.Text.{trim}
use unified_inbox.Prelude.Result.{Result, ok, err, continue, catching, pure, ◌>>◌}
use unified_inbox.Queues.{
  Mode, is_queued, uninitialized, bull_mq, inline_fallback, enqueue_outbound,
}
use unified_inbox.Schema.Enums.{DeliveryStatus, queued}
use unified_inbox.Schema.Events.{MessageResponse, message_created}
use unified_inbox.Schema.Rows.{Message, User}
use unified_inbox.Database.{Prisma, map_where}
use unified_inbox.Database.Statements.{World, idle, emit}
use unified_inbox.Conversations.{
  NewMessage, create_outbound_message, store_message, as_not_queued, on_enqueue_error, response_of,
  is_conversation, is_resolved,
}

-- A message with the id that is not marked as failed.
abbrev pub is_live : ℕ → Message → Bool
is_live id m = elim m.delivery_status [ some DeliveryStatus.failed ↦ false | other ↦ m.id == id ]

none_live :
    (id now : ℕ) (rows : List Message)
    → count (is_live id) (map_where (λ m. m.id == id) (as_not_queued now) rows) ≡ 0
none_live id now [] = refl
none_live id now (m ∷ rows) = ground (arith, none_live id now rows)

module _ (prisma : Prisma) (relations : List String) (org : ℕ) (new : NewMessage)
    (user id : ℕ) where
  -- What becomes of the message of a call.
  abbrev pub IsTracked : World → Result MessageResponse × World → Type 0
  IsTracked w (ok r, v) =
      (v.outbound_jobs ≡ new.id ∷ w.outbound_jobs)
      × ((m : Message) × (head? v.messages ≡ some m)
          × (m.id ≡ new.id)
          × (m.delivery_status ≡ some queued))
  IsTracked w (err f, v) =
      (v.outbound_jobs ≡ w.outbound_jobs)
      × ((v.messages ≡ w.messages) ⊎ (count (is_live new.id) v.messages ≡ 0))

  -- What a transaction that stores the message leaves.
  abbrev IsStored : World → Result (Message × Option User) × World → Type 0
  IsStored w (ok x, v) =
      (v.session ≡ idle)
      × (v.outbound_jobs ≡ w.outbound_jobs)
      × (head? v.messages ≡ some x.0)
      × (x.0.id ≡ new.id)
      × (x.0.delivery_status ≡ some queued)
  IsStored w (err f, v) = v ≡ w

  store-IsStored :
      (text : String) (w : World)
      → IsStored w (store_message prisma relations org new user id text w)
  store-IsStored text w = elim (Bool-cases (any (λ r. str_eq r "Conversation") relations)) [
    | inr b ↦ rw b refl
    | inl b ↦
        elim (Option-cases
          (prisma.conversations.find_first (is_conversation org id) w.conversations)) [
            | inl e ↦ rw (b, e) refl
            | inr (c, e) ↦ elim (Bool-cases (is_resolved c.status)) [
              | inl d ↦ rw (b, e, d) refl
              | inr d ↦ rw (b, e, d) (refl, refl, refl, refl, refl)
            ]
          ]
  ]

  queued-IsTracked :
      (mode : Mode) (w : World) (x : Result (Message × Option User) × World)
      → is_queued new.id w.outbound_jobs ≡ false
      → IsStored w x
      → IsTracked w (
          continue
            (λ stored.
              catching
                (enqueue_outbound mode stored.0.id)
                (on_enqueue_error prisma relations org new)
              >> (emit org (record {
                event = message_created (response_of stored.0 stored.1);
                conversation_id = id;
              })
                  >> pure (response_of stored.0 stored.1)))
            x)
  unfolding enqueue_outbound
  queued-IsTracked uninitialized w (ok x, v) fresh h = ground (
    arith,
    prisma.messages.update_many_lem (λ m. m.id == new.id) (as_not_queued new.failed_at) v.messages,
    none_live new.id new.failed_at v.messages,
  )
  queued-IsTracked (bull_mq queue) w (ok x, v) fresh h =
      elim (Option-cases (queue.add x.0.id v.outbound_jobs)) [
        | inl e ↦ ground (
          arith,
          e,
          prisma.messages.update_many_lem (λ m. m.id == new.id) (as_not_queued new.failed_at)
              v.messages,
          none_live new.id new.failed_at v.messages,
        )
        | inr (jobs, e) ↦
            rw e
              (ground (arith, e, queue.add_lem x.0.id v.outbound_jobs jobs e), (x.0, h.2, h.3, h.4))
      ]
  queued-IsTracked inline_fallback w (ok x, v) fresh h = (ground arith, (x.0, h.2, h.3, h.4))
  queued-IsTracked mode w (err f, v) fresh h = ground arith

  -- On a database that has the relation or not, a call that returns has stored a queued message and
  -- added its job, and one that throws has added no job and either left the messages as they were or
  -- left none with the new id that is not marked as failed. No job has the new id before.
  pub create_outbound_message-IsTracked :
      (mode : Mode) (text : String) (w : World)
      → is_queued new.id w.outbound_jobs ≡ false
      → IsTracked w (create_outbound_message prisma relations org mode new user id text w)
  unfolding create_outbound_message
  create_outbound_message-IsTracked mode text w fresh =
      queued-IsTracked mode w (store_message prisma relations org new user id (trim text) w) fresh
        (store-IsStored (trim text) w)
