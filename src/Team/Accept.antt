-- ===== src/Team/Accept.antt =====
-- apps/api/src/team/team.service.ts: acceptInvite.
pub mod Once
use unified_inbox.Prelude.{
  ℕ, suc, zero, String, Bool, true, false, ◌+◌, ◌&&◌, Option, none, some, List, [], ◌∷◌,
  if◌then◌else◌, ◌==◌, leb, ltb, not, is_some, str_eq,
}
use unified_inbox.Prelude.Result.{
  Failure, HttpStatus, http, bad_request_400, forbidden_403, unique_violation, error, non_retryable,
  delivery_error, bad_request, unauthorized, conflict, Exec, pure, throw, catching, ◌>>=◌, ◌>>◌,
}
use unified_inbox.Runtime.{trimmed}
use unified_inbox.Schema.Rows.{Membership, User, Invitation, AuditLog, Detail, text, role}
use unified_inbox.Database.{Prisma, Store}
use unified_inbox.Database.Statements.{World, query, write, insert, transaction, audit}
use unified_inbox.Auth.Base.{SessionPayload, new_session, Hashes, filled, is_member}

-- `acceptInvite`'s options, the ids of rows that it may create, the moments at which it reads the
-- clock, and the second in which it signs the session.
pub record AcceptOptions : Type 0 where
  pub current_session : Option SessionPayload
  pub name : Option String
  pub password : Option String
  pub user_id : ℕ
  pub membership_id : ℕ
  pub checked_at : ℕ
  pub accepted_at : ℕ
  pub rechecked_at : ℕ
  pub signed_at : ℕ

-- A user that the call created, or one that was there.
pub data Account : Type 0 where
  created existing : User → Account

pub record Accepted : Type 0 where
  pub user : User
  pub organization_id : ℕ

abbrev pub has_token : Hashes → String → Invitation → Bool
has_token hashes token i = str_eq i.token_hash (hashes.token token)

abbrev pub check_invitation : ℕ → Option Invitation → Exec World Invitation
check_invitation now none = throw (bad_request "Invalid invitation token")
check_invitation now (some i) =
    if is_some i.accepted_at
    then throw (bad_request "Invitation has already been accepted")
    else if is_some i.revoked_at
    then throw (bad_request "Invitation has been revoked")
    else if leb i.expires_at now
    then throw (bad_request "Invitation has expired")
    else pure i

abbrev with_password : String → User → User
with_password hash u = record u {
  password_hash = some hash;
  session_version = u.session_version + 1;
}

abbrev is_inactive : ℕ → User → Bool
is_inactive id u = u.id == id && not (is_some u.password_hash)

-- An invitation that can still be accepted.
abbrev pub is_acceptable : ℕ → ℕ → Invitation → Bool
is_acceptable id now i =
    i.id == id
    && (not (is_some i.accepted_at) && (not (is_some i.revoked_at) && ltb now i.expires_at))

abbrev pub as_accepted : ℕ → Invitation → Invitation
as_accepted now i = record i { accepted_at = some now }

abbrev not_accepted : ℕ → Option Invitation → Failure
not_accepted now none = bad_request "Invitation is no longer valid"
not_accepted now (some i) =
    if is_some i.accepted_at
    then bad_request "Invitation has already been accepted"
    else if is_some i.revoked_at
    then bad_request "Invitation has been revoked"
    else if leb i.expires_at now
    then bad_request "Invitation has expired"
    else bad_request "Invitation is no longer valid"

abbrev accepted_log : Invitation → User → AuditLog
accepted_log i u = record {
  action = "invite.accepted";
  target_id = some i.id;
  metadata = ("email", text i.email) ∷ ("role", role i.role) ∷ [];
  organization_id = i.organization_id;
  actor_id = u.id;
}

module _ (prisma : Prisma) (hashes : Hashes) (opts : AcceptOptions) where
  abbrev user_by_email : String → Exec World (Option User)
  user_by_email email = query λ s. prisma.users.find_first (λ u. str_eq u.email email) s.users

  abbrev user_by_id : ℕ → Exec World (Option User)
  user_by_id id = query λ s. prisma.users.find_first (λ u. u.id == id) s.users

  abbrev joined_user : Store → Option Membership → Option User
  joined_user s none = none
  joined_user s (some m) = prisma.users.find_first (λ u. u.id == m.user_id) s.users

  abbrev pub session_user : Invitation → Option User → Exec World (Option User)
  session_user i none = throw (unauthorized "Authentication required")
  session_user i (some u) =
      if str_eq u.email i.email
      then pure (some u)
      else throw (
          http forbidden_403 "The authenticated user does not match this invitation email"
            (some "INVITE_EMAIL_MISMATCH"))

  abbrev find_existing : Invitation → Option SessionPayload → Exec World (Option User)
  find_existing i none = user_by_email i.email
  find_existing i (some session) = do
    found ← query λ s. joined_user s (
        prisma.memberships.find_first (is_member session.organization_id session.user_id)
          s.memberships)
    session_user i found

  abbrev new_user : String → String → String → User
  new_user email name password = record {
    id = opts.user_id;
    email = email;
    name = name;
    password_hash = some (hashes.hash password);
    session_version = 0;
    email_verified_at = none;
  }

  abbrev pub add_user : User → Store → Option Store
  add_user u s = elim (prisma.users.create (λ v. str_eq v.email u.email) u s.users) [
    | none ↦ none
    | some rows ↦ some (record s { users = rows })
  ]

  abbrev pub existing_or_conflict : Option User → Exec World Account
  existing_or_conflict none = throw (conflict "Account creation could not be completed")
  existing_or_conflict (some u) = pure (existing u)

  abbrev pub on_create_error : String → Failure → Exec World Account
  on_create_error email (http s m c) = throw (http s m c)
  on_create_error email (unique_violation target) = do
    found ← user_by_email email
    existing_or_conflict found
  on_create_error email (error m) = throw (error m)
  on_create_error email (non_retryable m) = throw (non_retryable m)
  on_create_error email (delivery_error m) = throw (delivery_error m)

  abbrev pub created_user : String → Option String → Option String → Exec World Account
  created_user email (some name) (some password) =
      catching
        (insert prisma.aborts "email" (add_user (new_user email name password))
          (created (new_user email name password)))
        (on_create_error email)
  created_user email none password = throw (
      http bad_request_400 "name and password are required for new users"
        (some "INVITE_NEW_USER_REQUIRED"))
  created_user email (some name) none = throw (
      http bad_request_400 "name and password are required for new users"
        (some "INVITE_NEW_USER_REQUIRED"))

  abbrev pub find_or_create : Invitation → Option User → Exec World Account
  find_or_create i (some u) = pure (existing u)
  find_or_create i none = created_user i.email (trimmed opts.name) (filled opts.password)

  -- A user with a password proves it, or is signed in already.
  abbrev pub check_password :
      User → String → Option SessionPayload → Option String → Exec World User
  check_password u hash (some session) password = pure u
  check_password u hash none none = throw (
      http bad_request_400 "Enter your password to accept this invitation"
        (some "INVITE_EXISTING_USER_PASSWORD_REQUIRED"))
  check_password u hash none (some password) =
      if hashes.compare password hash then pure u else throw (unauthorized "Invalid credentials")

  abbrev activate_user : ℕ → String → Exec World ℕ
  activate_user id password = write λ s.
      let (rows, n) =
        prisma.users.update_many (is_inactive id) (with_password (hashes.hash password)) s.users in
      (record s { users = rows }, n)

  abbrev pub refreshed_with : String → ℕ → User → Option String → Exec World User
  refreshed_with password n u none = throw (conflict "Account activation could not be completed")
  refreshed_with password n u (some hash) =
      if n == 1
      then pure u
      else if hashes.compare password hash
      then pure u
      else throw (unauthorized "Invalid credentials")

  abbrev pub refreshed : String → ℕ → Option User → Exec World User
  refreshed password n none = throw (conflict "Account activation could not be completed")
  refreshed password n (some u) = refreshed_with password n u (filled u.password_hash)

  -- A user without a password sets one.
  abbrev pub activated : User → Option String → Exec World User
  activated u none = throw (
      http bad_request_400 "Set a password to activate this invited account"
        (some "INVITE_ACCOUNT_ACTIVATION_REQUIRED"))
  activated u (some password) = do
    n ← activate_user u.id password
    latest ← user_by_id u.id
    refreshed password n latest

  abbrev pub authenticated : User → Option String → Exec World User
  authenticated u (some hash) = check_password u hash opts.current_session (filled opts.password)
  authenticated u none = activated u (filled opts.password)

  abbrev pub signed_in : Account → Exec World User
  signed_in (created u) = pure u
  signed_in (existing u) = authenticated u (filled u.password_hash)

  abbrev pub claim_invitation : ℕ → Exec World ℕ
  claim_invitation id = write λ s.
      let (rows, n) =
        prisma.invitations.update_many (is_acceptable id opts.accepted_at)
          (as_accepted opts.accepted_at) s.invitations in
      (record s { invitations = rows }, n)

  abbrev refuse : ℕ → Exec World Unit
  refuse id = do
    latest ← query λ s. prisma.invitations.find_first (λ i. i.id == id) s.invitations
    throw (not_accepted opts.rechecked_at latest)

  abbrev pub check_claimed : ℕ → ℕ → Exec World Unit
  check_claimed id n = if n == 1 then pure tt else refuse id

  abbrev new_membership : Invitation → User → Membership
  new_membership i u = record {
    id = opts.membership_id;
    role = i.role;
    organization_id = i.organization_id;
    user_id = u.id;
    created_at = opts.accepted_at;
  }

  abbrev add_membership : Invitation → User → Store → Option Store
  add_membership i u s =
      elim (prisma.memberships.create (is_member i.organization_id u.id) (new_membership i u)
        s.memberships) [ none ↦ none | some rows ↦ some (record s { memberships = rows }) ]

  abbrev upserted : Invitation → User → Option Membership → Exec World Unit
  upserted i u none = insert prisma.aborts "organizationId_userId" (add_membership i u) tt
  upserted i u (some m) = pure tt

  abbrev pub upsert_membership : Invitation → User → Exec World Unit
  upsert_membership i u = do
    found ←
        query λ s. prisma.memberships.find_first (is_member i.organization_id u.id) s.memberships
    upserted i u found

  abbrev pub accept_as : Invitation → User → Exec World Accepted
  accept_as i u = do
    n ← claim_invitation i.id
    check_claimed i.id n
    upsert_membership i u
    audit (accepted_log i u)
    pure (record { user = u; organization_id = i.organization_id })

  abbrev pub accept_found : Invitation → Exec World Accepted
  accept_found i = do
    found ← find_existing i opts.current_session
    account ← find_or_create i found
    u ← signed_in account
    accept_as i u

  abbrev session_of : Accepted → SessionPayload
  session_of a = new_session opts.signed_at a.user.id a.organization_id a.user.session_version

  -- `acceptInvite`, with the payload of the new session.
  unfoldable pub accept_invite : String → Exec World (Accepted × SessionPayload)
  accept_invite token = do
    a ← transaction do
      found ← query λ s. prisma.invitations.find_first (has_token hashes token) s.invitations
      i ← check_invitation opts.checked_at found
      accept_found i
    pure (a, session_of a)
