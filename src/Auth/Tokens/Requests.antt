-- ===== src/Auth/Tokens/Requests.antt =====
-- The answers to a request for a link (apps/api/src/auth/auth.service.ts).
use unified_inbox.Prelude.{
  ℕ, String, ◌≡◌, refl, Bool, true, false, Option, none, some, List, [], ◌∷◌, arith, any,
  if◌then◌else◌,
}
use unified_inbox.Prelude.Result.{
  Failure, http, unique_violation, error, non_retryable, delivery_error, Result, ok, err, handle,
  catching, continue, pure, ◌>>◌,
}
use unified_inbox.Schema.Rows.{AuthToken, User}
use unified_inbox.Database.{Prisma, map_where}
use unified_inbox.Database.Statements.{World, EmailKind, idle}
use unified_inbox.Auth.Tokens.{
  Services, NewToken, Transport, disabled, outbox, resend, RequestState, accepted, tokens, table,
  with_tokens, is_active_of, as_invalidated, store_token, new_row, create_and_send, send_in,
  on_delivery_error, unless_delivery_error, request_for, request_in, request_link, email_of, wants,
}

none_active :
    (user now : ℕ) (rows : List AuthToken)
    → any (is_active_of user) (map_where (is_active_of user) (as_invalidated now) rows) ≡ false
none_active user now [] = refl
none_active user now (t ∷ rows) = ground (arith, none_active user now rows)

module _ (prisma : Prisma) (sv : Services) where
  -- Where no transaction is open, a link can be stored.
  pub stored :
      (kind : EmailKind) (new : NewToken) (user : ℕ) (w : World)
      → w.session ≡ idle
      → store_token prisma sv kind new user w ≡ (
        ok true,
        record w {
          store =
              with_tokens kind
                (new_row prisma sv kind new user
                  ∷ map_where (is_active_of user) (as_invalidated new.now) (tokens kind w.store))
                w.store;
        },
      )
  stored kind new user w h = ground (
    arith,
    (table prisma kind).update_many_lem (is_active_of user) (as_invalidated new.now)
        (tokens kind w.store),
    (table prisma kind).create_lem (is_active_of user) (new_row prisma sv kind new user)
        (map_where (is_active_of user) (as_invalidated new.now) (tokens kind w.store)),
    none_active user new.now (tokens kind w.store),
  )

  failed :
      (kind : EmailKind) (new : NewToken) (f : Failure) (w : World)
      → w.session ≡ idle
      → ((handle
          (unless_delivery_error prisma sv)
          (continue (λ x. pure true) (on_delivery_error prisma sv kind new f w))).0)
        ≡ ok false
  failed kind new (http s m c) w h = rw h refl
  failed kind new (unique_violation t) w h = rw h refl
  failed kind new (error m) w h = rw h refl
  failed kind new (non_retryable m) w h = rw h refl
  failed kind new (delivery_error m) w h = rw h refl

  abbrev IsOk : {A : Type 0} → Result A → Type 0
  IsOk (ok a) = Unit
  IsOk (err f) = ⊥

  handled :
      (kind : EmailKind) (new : NewToken) (r : Result (Unit {0})) (w : World)
      → w.session ≡ idle
      → IsOk
          (handle
            (unless_delivery_error prisma sv)
            (continue (λ x. pure true) (handle (on_delivery_error prisma sv kind new) (r, w)))).0
  handled kind new (ok a) w h = tt
  handled kind new (err f) w h = rw (failed kind new f w h) tt

  sent :
      (kind : EmailKind) (new : NewToken) (u : User) (m : Transport) (w : World)
      → w.session ≡ idle
      → IsOk
          (handle (unless_delivery_error prisma sv) (
            continue
              (λ x. pure true)
              (catching
                (send_in prisma sv m (email_of prisma sv kind new u))
                (on_delivery_error prisma sv kind new)
                w))).0
  sent kind new u disabled w h = tt
  sent kind new u outbox w h = handled kind new (sv.deliver (email_of prisma sv kind new u)) _ h
  sent kind new u resend w h = handled kind new (sv.deliver (email_of prisma sv kind new u)) _ h

  requested :
      (kind : EmailKind) (new : NewToken) (u : User) (w : World)
      → w.session ≡ idle
      → IsOk (catching (create_and_send prisma sv kind new u) (unless_delivery_error prisma sv) w).0
  unfolding create_and_send
  requested kind new u w h = rw (stored kind new u.id w h) (sent kind new u sv.mode _ h)

  answered :
      {A : Type 0} (r : Result A × World)
      → IsOk r.0
      → (continue (λ x. pure RequestState.accepted) r).0 ≡ ok accepted
  answered (ok a, w) h = refl
  answered (err f, w) h = elim h [ ]

  request_for-answer :
      (kind : EmailKind) (new : NewToken) (o : Option User) (w : World)
      → w.session ≡ idle
      → (request_for prisma sv kind new o w).0 ≡ ok accepted
  request_for-answer kind new none w h = refl
  request_for-answer kind new (some u) w h = wanted (wants prisma sv kind u)
    where
      wanted :
          (b : Bool)
          → ((if b
                then catching
                    (create_and_send prisma sv kind new u)
                    (unless_delivery_error prisma sv)
                  >> pure RequestState.accepted
                else pure RequestState.accepted)
              w).0
            ≡ ok accepted
      wanted true = answered _ (requested kind new u w h)
      wanted false = refl

  -- The state that a request is answered with.
  abbrev pub answer : Transport → RequestState
  answer disabled = disabled
  answer outbox = accepted
  answer resend = accepted

  request_in-answer :
      (m : Transport) (kind : EmailKind) (new : NewToken) (email : String) (w : World)
      → w.session ≡ idle
      → (request_in prisma sv m kind new email w).0 ≡ ok (answer m)
  request_in-answer disabled kind new email w h = refl
  request_in-answer outbox kind new email w h =
      rw h (request_for-answer kind new _ (record w { session = idle }) refl)
  request_in-answer resend kind new email w h =
      rw h (request_for-answer kind new _ (record w { session = idle }) refl)

  -- A request for a link is answered in the same way whether the address is that of a user or not,
  -- whatever the user's state is and whether the email can be delivered: the answer depends on the
  -- transport alone. No transaction is open before.
  pub request_link-answer :
      (kind : EmailKind) (new : NewToken) (email : String) (w : World)
      → w.session ≡ idle
      → (request_link prisma sv kind new email w).0 ≡ ok (answer sv.mode)
  unfolding request_link
  request_link-answer kind new email w h = request_in-answer sv.mode kind new email w h
