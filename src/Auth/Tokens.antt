-- ===== src/Auth/Tokens.antt =====
-- apps/api/src/auth/auth.service.ts: password resets and email verifications. The two flows have the
-- same steps on two tables: a kind selects the table and the texts.
pub mod Renewed
pub mod Confirm
pub mod Once
pub mod Sessions
pub mod Requests
use Prim.Native.String.{◌++◌ as concat}
use unified_inbox.Prelude.{
  ℕ, String, Bool, true, false, ◌+◌, ◌*◌, ◌&&◌, ◌||◌, Option, none, some, List, [], ◌∷◌,
  if◌then◌else◌, ◌==◌, leb, ltb, not, is_some, str_eq, or_else,
}
use unified_inbox.Prelude.Text.{trim, includes, without_slashes}
use unified_inbox.Prelude.Result.{
  Failure, http, unavailable_503, unique_violation, error, non_retryable, delivery_error,
  bad_request, conflict, Result, ok, err, Exec, pure, throw, catching, ◌>>=◌, ◌>>◌,
}
use unified_inbox.Runtime.{Runtime, Env}
use unified_inbox.Schema.Rows.{User, AuthToken}
use unified_inbox.Database.{Prisma, Store, Table}
use unified_inbox.Database.Statements.{
  World, query, write, insert, transaction, Email, EmailKind, password_reset, email_verification,
}
use unified_inbox.Auth.Base.{SessionPayload, Hashes, filled, normalized}
use unified_inbox.Auth.{get_session_details}

abbrev pub tokens : EmailKind → Store → List AuthToken
tokens password_reset s = s.password_reset_tokens
tokens email_verification s = s.email_verification_tokens

abbrev pub with_tokens : EmailKind → List AuthToken → Store → Store
with_tokens password_reset rows s = record s { password_reset_tokens = rows }
with_tokens email_verification rows s = record s { email_verification_tokens = rows }

abbrev pub table : Prisma → EmailKind → Table AuthToken
table prisma password_reset = prisma.password_reset_tokens
table prisma email_verification = prisma.email_verification_tokens

abbrev invalid : EmailKind → String
invalid password_reset = "Invalid password reset token"
invalid email_verification = "Invalid email verification token"

abbrev pub already_used : EmailKind → String
already_used password_reset = "Password reset link has already been used"
already_used email_verification = "Email verification link has already been used"

abbrev pub no_longer_valid : EmailKind → String
no_longer_valid password_reset = "Password reset link is no longer valid"
no_longer_valid email_verification = "Email verification link is no longer valid"

abbrev pub expired : EmailKind → String
expired password_reset = "Password reset link has expired"
expired email_verification = "Email verification link has expired"

abbrev incomplete : EmailKind → String
incomplete password_reset = "Password reset could not be completed"
incomplete email_verification = "Email verification could not be completed"

-- How long a link is good, in milliseconds.
abbrev lifetime : EmailKind → ℕ
lifetime password_reset = 60 * 60000
lifetime email_verification = 24 * (60 * 60000)

abbrev link_path : EmailKind → String
link_path password_reset = "/password-reset"
link_path email_verification = "/email-verification"

abbrev active_unique : EmailKind → String
active_unique password_reset = "password_reset_tokens_userId_active_unique"
active_unique email_verification = "email_verification_tokens_userId_active_unique"

-- `{ usedAt: null, invalidatedAt: null }`
abbrev pub is_active : AuthToken → Bool
is_active t = not (is_some t.used_at) && not (is_some t.invalidated_at)

abbrev pub is_active_of : ℕ → AuthToken → Bool
is_active_of user t = t.user_id == user && is_active t

abbrev pub is_usable : ℕ → ℕ → AuthToken → Bool
is_usable id now t = t.id == id && (is_active t && ltb now t.expires_at)

abbrev pub as_used : ℕ → AuthToken → AuthToken
as_used now t = record t { used_at = some now }

abbrev pub as_invalidated : ℕ → AuthToken → AuthToken
as_invalidated now t = record t { invalidated_at = some now }

abbrev pub has_hash : String → AuthToken → Bool
has_hash hash t = str_eq t.token_hash hash

-- `buildAppUrl`
abbrev app_url : Option String → String
app_url url = without_slashes (or_else (filled url) "http://localhost:3000")

abbrev pub build_app_url : Env → String → String → String
build_app_url env path raw = concat (app_url env.app_url) (concat path (concat "?token=" raw))

-- `isActiveAuthTokenUniqueViolation`, of the constraint's name in lower case.
abbrev names_active_token : String → Bool
names_active_token target =
    includes "password_reset_tokens_userid_active_unique" target
    || (includes "email_verification_tokens_userid_active_unique" target
        || includes "userid" target)

-- `AuthEmailTransportMode`
pub data Transport : Type 0 where
  disabled outbox resend : Transport

-- What a request draws: the new row's id, the random token, the time of the request, and the time at
-- which a failed delivery is noticed.
pub record NewToken : Type 0 where
  pub id : ℕ
  pub raw_token : String
  pub now : ℕ
  pub failed_at : ℕ

-- The times at which a confirmation reads the clock.
pub record Times : Type 0 where
  pub now : ℕ
  pub rechecked_at : ℕ

pub data RequestState : Type 0 where
  accepted disabled : RequestState

pub data DeliveryState : Type 0 where
  accepted already_verified disabled sent : DeliveryState

-- The environment of the auth service: the parameters of the runtime and of hashing, and the email
-- transport, which delivers a message or fails.
pub record Services : Type 0 where
  pub runtime : Runtime
  pub env : Env
  pub hashes : Hashes
  pub mode : Transport
  pub deliver : Email → Result (Unit {0})

module _ (prisma : Prisma) (sv : Services) where
  abbrev pub check_token : EmailKind → ℕ → Option AuthToken → Exec World AuthToken
  check_token kind now none = throw (bad_request (invalid kind))
  check_token kind now (some t) =
      if is_some t.used_at
      then throw (bad_request (already_used kind))
      else if is_some t.invalidated_at
      then throw (bad_request (no_longer_valid kind))
      else if leb t.expires_at now
      then throw (bad_request (expired kind))
      else pure t

  abbrev pub consume : EmailKind → ℕ → ℕ → Exec World ℕ
  consume kind id now = write λ s.
      let (rows, n) =
        (table prisma kind).update_many (is_usable id now) (as_used now) (tokens kind s) in
      (with_tokens kind rows s, n)

  abbrev not_consumed : EmailKind → ℕ → Option AuthToken → Failure
  not_consumed kind now none = conflict (incomplete kind)
  not_consumed kind now (some t) =
      if is_some t.used_at
      then bad_request (already_used kind)
      else if is_some t.invalidated_at
      then bad_request (no_longer_valid kind)
      else if leb t.expires_at now
      then bad_request (expired kind)
      else conflict (incomplete kind)

  abbrev pub refuse : EmailKind → ℕ → ℕ → Exec World Unit
  refuse kind id now = do
    latest ← query λ s. (table prisma kind).find_first (λ t. t.id == id) (tokens kind s)
    throw (not_consumed kind now latest)

  abbrev pub check_consumed : EmailKind → ℕ → ℕ → ℕ → Exec World Unit
  check_consumed kind id now n = if n == 1 then pure tt else refuse kind id now

  abbrev pub claim_token : EmailKind → Times → AuthToken → Exec World AuthToken
  claim_token kind at t = do
    n ← consume kind t.id at.now
    check_consumed kind t.id at.rechecked_at n
    pure t

  abbrev pub use_token : EmailKind → Times → String → Exec World AuthToken
  use_token kind at hash = do
    found ← query λ s. (table prisma kind).find_first (has_hash hash) (tokens kind s)
    t ← check_token kind at.now found
    claim_token kind at t

  abbrev pub with_password : String → User → User
  with_password hash u = record u {
    password_hash = some hash;
    session_version = u.session_version + 1;
  }

  abbrev pub set_password : ℕ → String → Exec World Unit
  set_password id hash = write λ s. (
    record s {
      users = (prisma.users.update_many (λ u. u.id == id) (with_password hash) s.users).0;
    },
    tt,
  )

  abbrev pub as_verified : ℕ → User → User
  as_verified now u = record u { email_verified_at = some now }

  abbrev pub verify_user : ℕ → ℕ → Exec World Unit
  verify_user id now = write λ s. (
    record s {
      users =
          (prisma.users.update_many (λ u. u.id == id && not (is_some u.email_verified_at))
            (as_verified now) s.users).0;
    },
    tt,
  )

  -- What a confirmed link does: a new password, or a verified address.
  abbrev pub apply_token : EmailKind → Times → String → AuthToken → Exec World Unit
  apply_token password_reset at password t = set_password t.user_id (sv.hashes.hash password)
  apply_token email_verification at password t = verify_user t.user_id at.now

  -- `confirmPasswordReset` and `confirmEmailVerification`; the second takes no password.
  unfoldable pub confirm : EmailKind → Times → String → String → Exec World Unit
  confirm kind at token password =
      transaction
        do t ← use_token kind at (sv.hashes.token (trim token)); apply_token kind at password t

  abbrev pub invalidate_where : EmailKind → (AuthToken → Bool) → ℕ → Exec World Unit
  invalidate_where kind p now = write λ s. (
    with_tokens kind ((table prisma kind).update_many p (as_invalidated now) (tokens kind s)).0 s,
    tt,
  )

  abbrev pub new_row : EmailKind → NewToken → ℕ → AuthToken
  new_row kind new user = record {
    id = new.id;
    token_hash = sv.hashes.token new.raw_token;
    expires_at = new.now + lifetime kind;
    used_at = none;
    invalidated_at = none;
    user_id = user;
  }

  abbrev pub add_token : EmailKind → AuthToken → Store → Option Store
  add_token kind t s =
      elim ((table prisma kind).create (is_active_of t.user_id) t (tokens kind s)) [
        | none ↦ none
        | some rows ↦ some (with_tokens kind rows s)
      ]

  abbrev pub store_token : EmailKind → NewToken → ℕ → Exec World Bool
  store_token kind new user = transaction do
    invalidate_where kind (is_active_of user) new.now
    insert prisma.aborts (active_unique kind) (add_token kind (new_row kind new user)) true

  abbrev pub on_token_error : Failure → Exec World Bool
  on_token_error (http s m c) = throw (http s m c)
  on_token_error (unique_violation target) =
      if names_active_token (sv.runtime.to_lower_case target)
      then pure false
      else throw (unique_violation target)
  on_token_error (error m) = throw (error m)
  on_token_error (non_retryable m) = throw (non_retryable m)
  on_token_error (delivery_error m) = throw (delivery_error m)

  abbrev pub email_of : EmailKind → NewToken → User → Email
  email_of kind new user = record {
    kind = kind;
    to = user.email;
    action_url = build_app_url sv.env (link_path kind) new.raw_token;
    expires_at = new.now + lifetime kind;
    delivery_id = new.id;
  }

  abbrev pub delivered : Email → Exec World Unit
  delivered email w = (sv.deliver email, record w { emails = email ∷ w.emails })

  -- `AuthEmailDeliveryService.send`
  abbrev pub send_in : Transport → Email → Exec World Unit
  send_in disabled email = pure tt
  send_in outbox email = delivered email
  send_in resend email = delivered email

  -- `toAuthEmailDeliveryError`
  abbrev pub delivery_failure : Failure → Failure
  delivery_failure (delivery_error m) = delivery_error m
  delivery_failure (http s m c) = delivery_error "Auth email delivery failed"
  delivery_failure (unique_violation t) = delivery_error "Auth email delivery failed"
  delivery_failure (error m) = delivery_error "Auth email delivery failed"
  delivery_failure (non_retryable m) = delivery_error "Auth email delivery failed"

  abbrev pub on_delivery_error : EmailKind → NewToken → Failure → Exec World Unit
  on_delivery_error kind new failure = do
    invalidate_where kind (λ t. has_hash (sv.hashes.token new.raw_token) t && is_active t)
        new.failed_at
    throw (delivery_failure failure)

  abbrev pub send_stored : EmailKind → NewToken → User → Bool → Exec World Bool
  send_stored kind new user false = pure false
  send_stored kind new user true = do
    catching (send_in sv.mode (email_of kind new user)) (on_delivery_error kind new)
    pure true

  -- `createAndSendPasswordResetToken` and `createAndSendEmailVerificationToken`: whether an email
  -- went out, false where another request made a token at the same time.
  unfoldable pub create_and_send : EmailKind → NewToken → User → Exec World Bool
  create_and_send kind new user = do
    stored ← catching (store_token kind new user.id) on_token_error
    send_stored kind new user stored

  abbrev pub unless_delivery_error : Failure → Exec World Bool
  unless_delivery_error (delivery_error m) = pure false
  unless_delivery_error (http s m c) = throw (http s m c)
  unless_delivery_error (unique_violation t) = throw (unique_violation t)
  unless_delivery_error (error m) = throw (error m)
  unless_delivery_error (non_retryable m) = throw (non_retryable m)

  -- Whether a user gets a link of the kind: one with a password, or one whose address is not
  -- verified.
  abbrev pub wants : EmailKind → User → Bool
  wants password_reset u = is_some (filled u.password_hash)
  wants email_verification u = not (is_some u.email_verified_at)

  abbrev pub request_for : EmailKind → NewToken → Option User → Exec World RequestState
  request_for kind new none = pure accepted
  request_for kind new (some u) =
      if wants kind u
      then catching (create_and_send kind new u) unless_delivery_error >> pure accepted
      else pure accepted

  abbrev pub request_in : Transport → EmailKind → NewToken → String → Exec World RequestState
  request_in disabled kind new email = pure disabled
  request_in outbox kind new email = do
    found ←
        query
          λ s. prisma.users.find_first (λ u. str_eq u.email (normalized sv.runtime email)) s.users
    request_for kind new found
  request_in resend kind new email = do
    found ←
        query
          λ s. prisma.users.find_first (λ u. str_eq u.email (normalized sv.runtime email)) s.users
    request_for kind new found

  -- `requestPasswordReset` and `requestEmailVerification`
  unfoldable pub request_link : EmailKind → NewToken → String → Exec World RequestState
  request_link kind new email = request_in sv.mode kind new email

  abbrev pub resend_state : Bool → DeliveryState
  resend_state true = sent
  resend_state false = accepted

  abbrev pub on_resend_error : Failure → Exec World Bool
  on_resend_error (delivery_error m) = throw (
      http unavailable_503 "Verification email could not be sent right now. Please try again."
        (some "AUTH_EMAIL_DELIVERY_FAILED"))
  on_resend_error (http s m c) = throw (http s m c)
  on_resend_error (unique_violation t) = throw (unique_violation t)
  on_resend_error (error m) = throw (error m)
  on_resend_error (non_retryable m) = throw (non_retryable m)

  abbrev pub resend_to : NewToken → User → Exec World DeliveryState
  resend_to new u = if is_some u.email_verified_at then pure already_verified else do
    went ← catching (create_and_send email_verification new u) on_resend_error
    pure (resend_state went)

  abbrev pub resend_in : Transport → NewToken → SessionPayload → Exec World DeliveryState
  resend_in disabled new session = pure disabled
  resend_in outbox new session = do
    details ← get_session_details prisma sv.runtime sv.env session
    resend_to new details.user
  resend_in resend new session = do
    details ← get_session_details prisma sv.runtime sv.env session
    resend_to new details.user

  -- `resendEmailVerification`
  unfoldable pub resend_verification : NewToken → SessionPayload → Exec World DeliveryState
  resend_verification new session = resend_in sv.mode new session
