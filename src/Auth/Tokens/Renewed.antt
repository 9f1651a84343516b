-- ===== src/Auth/Tokens/Renewed.antt =====
-- The links that a request leaves (apps/api/src/auth/auth.service.ts).
use unified_inbox.Prelude.{
  ℕ, String, ◌≡◌, refl, ap, ◌∙◌, Bool, true, false, some, List, [], ◌∷◌, arith, keep, eq_iff, ◌&&◌,
  if◌then◌else◌, str_eq,
}
use unified_inbox.Prelude.Result.{
  Failure, http, unique_violation, error, non_retryable, delivery_error, Result, ok, err, is_ok,
  handle, catching, continue, pure,
}
use unified_inbox.Schema.Rows.{AuthToken, User}
use unified_inbox.Database.{Prisma, map_where}
use unified_inbox.Database.Statements.{World, EmailKind, password_reset, email_verification, idle}
use unified_inbox.Auth.Base.{normalized}
use unified_inbox.Auth.Tokens.{
  Services, NewToken, Transport, disabled, outbox, resend, RequestState, send_in, tokens,
  with_tokens, is_active, is_active_of, has_hash, as_invalidated, new_row, create_and_send,
  on_delivery_error, unless_delivery_error, request_for, request_in, request_link, email_of, wants,
}
use unified_inbox.Auth.Tokens.Requests.{stored}

-- The earlier links of the user are not active any more, whatever is invalidated later.
none_kept :
    (user now : ℕ) (rows : List AuthToken)
    → keep (is_active_of user) (map_where (is_active_of user) (as_invalidated now) rows) ≡ []
none_kept user now [] = refl
none_kept user now (t ∷ rows) = ground (arith, none_kept user now rows)

still_none :
    (user now failed_at : ℕ) (p : AuthToken → Bool) (rows : List AuthToken)
    → keep (is_active_of user) (
        map_where p
          (as_invalidated failed_at)
          (map_where (is_active_of user) (as_invalidated now) rows))
      ≡ []
still_none user now failed_at p [] = refl
still_none user now failed_at p (t ∷ rows) = ground (arith, still_none user now failed_at p rows)

module _ (prisma : Prisma) (sv : Services) where
  -- What a delivery that ended so leaves active of the user's links: the new one, or none.
  abbrev pub renewed : EmailKind → NewToken → ℕ → Result (Unit {0}) → List AuthToken
  renewed kind new user r = if is_ok r then new_row prisma sv kind new user ∷ [] else []

  -- The rows after the new link was stored.
  abbrev with_new : EmailKind → NewToken → ℕ → List AuthToken → List AuthToken
  with_new kind new user rows =
      new_row prisma sv kind new user ∷ map_where (is_active_of user) (as_invalidated new.now) rows

  new-kept :
      (kind : EmailKind) (new : NewToken) (user : ℕ) (rows : List AuthToken)
      → keep (is_active_of user) (with_new kind new user rows)
        ≡ new_row prisma sv kind new user ∷ []
  new-kept kind new user rows = ground (arith, none_kept user new.now rows)

  new-lost :
      (kind : EmailKind) (new : NewToken) (user : ℕ) (rows : List AuthToken)
      → keep (is_active_of user) (
          map_where
            (λ t. has_hash (sv.hashes.token new.raw_token) t && is_active t)
            (as_invalidated new.failed_at)
            (with_new kind new user rows))
        ≡ []
  new-lost kind new user rows = ground (
    arith,
    (eq_iff (sv.hashes.token new.raw_token) (sv.hashes.token new.raw_token)).1 refl,
    still_none user new.now new.failed_at
        (λ t. has_hash (sv.hashes.token new.raw_token) t && is_active t) rows,
  )

  tokens-with_tokens :
      (kind : EmailKind) (rows : List AuthToken) (w : World)
      → tokens kind (with_tokens kind rows w.store) ≡ rows
  tokens-with_tokens password_reset rows w = refl
  tokens-with_tokens email_verification rows w = refl

  -- A failed delivery invalidates the link again.
  failed-tokens :
      (kind : EmailKind) (new : NewToken) (f : Failure) (w : World)
      → w.session ≡ idle
      → tokens kind (on_delivery_error prisma sv kind new f w).1.store
        ≡ map_where
            (λ t. has_hash (sv.hashes.token new.raw_token) t && is_active t)
            (as_invalidated new.failed_at)
            (tokens kind w.store)
  failed-tokens password_reset new f w i =
      rw i (ap (λ x. x.0) (prisma.password_reset_tokens.update_many_lem _ _ _))
  failed-tokens email_verification new f w i =
      rw i (ap (λ x. x.0) (prisma.email_verification_tokens.update_many_lem _ _ _))

  failed-store :
      (kind : EmailKind) (new : NewToken) (f : Failure) (w : World)
      → w.session ≡ idle
      → (handle
          (unless_delivery_error prisma sv)
          (continue (λ x. pure true) (on_delivery_error prisma sv kind new f w))).1.store
        ≡ (on_delivery_error prisma sv kind new f w).1.store
  failed-store kind new (http s m c) w i = rw i refl
  failed-store kind new (unique_violation t) w i = rw i refl
  failed-store kind new (error m) w i = rw i refl
  failed-store kind new (non_retryable m) w i = rw i refl
  failed-store kind new (delivery_error m) w i = rw i refl

  delivered-renewed :
      (kind : EmailKind) (new : NewToken) (user : ℕ) (r : Result (Unit {0})) (rows : List AuthToken)
      (w : World)
      → w.session ≡ idle
      → tokens kind w.store ≡ with_new kind new user rows
      → keep (is_active_of user) (
          tokens kind
            (handle (unless_delivery_error prisma sv) (
              continue
                (λ x. pure true)
                (handle (on_delivery_error prisma sv kind new) (r, w)))).1.store)
        ≡ renewed kind new user r
  delivered-renewed kind new user (ok a) rows w i h =
      ap (keep (is_active_of user)) h ∙ new-kept kind new user rows
  delivered-renewed kind new user (err f) rows w i h =
      ap (λ s. keep (is_active_of user) (tokens kind s)) (failed-store kind new f w i)
      ∙ ap (keep (is_active_of user)) (failed-tokens kind new f w i)
      ∙ ap
          (λ x. keep (is_active_of user) (
            map_where (λ t. has_hash (sv.hashes.token new.raw_token) t && is_active t)
              (as_invalidated new.failed_at) x))
          h
      ∙ new-lost kind new user rows

  abbrev pub is_enabled : Transport → Bool
  is_enabled disabled = false
  is_enabled outbox = true
  is_enabled resend = true

  sent-renewed :
      (kind : EmailKind) (new : NewToken) (u : User) (m : Transport) (rows : List AuthToken)
      (w : World)
      → is_enabled m ≡ true
      → w.session ≡ idle
      → tokens kind w.store ≡ with_new kind new u.id rows
      → keep (is_active_of u.id) (
          tokens kind
            (handle (unless_delivery_error prisma sv) (
              continue
                (λ x. pure true)
                (catching
                  (send_in prisma sv m (email_of prisma sv kind new u))
                  (on_delivery_error prisma sv kind new)
                  w))).1.store)
        ≡ renewed kind new u.id (sv.deliver (email_of prisma sv kind new u))
  sent-renewed kind new u disabled rows w on i h = absurd cc
  sent-renewed kind new u outbox rows w on i h =
      delivered-renewed kind new u.id (sv.deliver (email_of prisma sv kind new u)) rows
        (record w { emails = email_of prisma sv kind new u ∷ w.emails }) i h
  sent-renewed kind new u resend rows w on i h =
      delivered-renewed kind new u.id (sv.deliver (email_of prisma sv kind new u)) rows
        (record w { emails = email_of prisma sv kind new u ∷ w.emails }) i h

  created-renewed :
      (kind : EmailKind) (new : NewToken) (u : User) (w : World)
      → is_enabled sv.mode ≡ true
      → w.session ≡ idle
      → keep (is_active_of u.id) (
          tokens kind
            (catching
              (create_and_send prisma sv kind new u)
              (unless_delivery_error prisma sv)
              w).1.store)
        ≡ renewed kind new u.id (sv.deliver (email_of prisma sv kind new u))
  unfolding create_and_send
  created-renewed kind new u w on i = rw (stored prisma sv kind new u.id w i) (
      sent-renewed kind new u sv.mode (tokens kind w.store) _ on i
        (tokens-with_tokens kind (with_new kind new u.id (tokens kind w.store)) w))

  answered-store :
      {A B : Type 0} (b : B) (r : Result A × World) → (continue (λ x. pure b) r).1.store ≡ r.1.store
  answered-store b (ok a, w) = refl
  answered-store b (err f, w) = refl

  request_for-renewed :
      (kind : EmailKind) (new : NewToken) (u : User) (w : World)
      → is_enabled sv.mode ≡ true
      → w.session ≡ idle
      → wants prisma sv kind u ≡ true
      → keep (is_active_of u.id) (tokens kind (request_for prisma sv kind new (some u) w).1.store)
        ≡ renewed kind new u.id (sv.deliver (email_of prisma sv kind new u))
  request_for-renewed kind new u w on i want = rw want (
      ap (λ s. keep (is_active_of u.id) (tokens kind s)) (answered-store RequestState.accepted _)
      ∙ created-renewed kind new u w on i)

  request_in-renewed :
      (m : Transport) (kind : EmailKind) (new : NewToken) (email : String) (u : User) (w : World)
      → is_enabled m ≡ true
      → is_enabled sv.mode ≡ true
      → w.session ≡ idle
      → prisma.users.find_first (λ x. str_eq x.email (normalized sv.runtime email)) w.users ≡ some u
      → wants prisma sv kind u ≡ true
      → keep (is_active_of u.id) (tokens kind (request_in prisma sv m kind new email w).1.store)
        ≡ renewed kind new u.id (sv.deliver (email_of prisma sv kind new u))
  request_in-renewed disabled kind new email u w here on i found want = absurd cc
  request_in-renewed outbox kind new email u w here on i found want =
      rw (i, found) (request_for-renewed kind new u (record w { session = idle }) on refl want)
  request_in-renewed resend kind new email u w here on i found want =
      rw (i, found) (request_for-renewed kind new u (record w { session = idle }) on refl want)

  -- A request for a link, of a user who can have one, renews it: of the user's links of the kind the
  -- new one is the only one that is active if its email was delivered, and none is if not. Emails
  -- are enabled, and no transaction is open before.
  pub request_link-renews :
      (kind : EmailKind) (new : NewToken) (email : String) (u : User) (w : World)
      → is_enabled sv.mode ≡ true
      → w.session ≡ idle
      → prisma.users.find_first (λ x. str_eq x.email (normalized sv.runtime email)) w.users ≡ some u
      → wants prisma sv kind u ≡ true
      → keep (is_active_of u.id) (tokens kind (request_link prisma sv kind new email w).1.store)
        ≡ renewed kind new u.id (sv.deliver (email_of prisma sv kind new u))
  unfolding request_link
  request_link-renews kind new email u w on i found want =
      request_in-renewed sv.mode kind new email u w on on i found want
