-- ===== src/Team/Invites.antt =====
-- apps/api/src/team/team.service.ts: createInvite and revokeInvite.
pub mod Created
use Prim.Native.String.{◌++◌ as concat}
use unified_inbox.Prelude.{
  ℕ, String, Bool, true, false, ◌&&◌, Option, none, some, List, [], ◌∷◌, if◌then◌else◌, ◌==◌, leb,
  not, is_some, str_eq, or_else,
}
use unified_inbox.Prelude.Text.{trim}
use unified_inbox.Prelude.Result.{
  Failure, http, unique_violation, error, non_retryable, delivery_error, bad_request, not_found,
  Exec, pure, throw, catching, ◌>>=◌, ◌>>◌,
}
use unified_inbox.Runtime.{Runtime}
use unified_inbox.Schema.Enums.{Role}
use unified_inbox.Schema.Rows.{Membership, User, Invitation, AuditLog, Detail, text, role}
use unified_inbox.Auth.Base.{normalized}
use unified_inbox.Database.{Prisma, Store}
use unified_inbox.Database.Statements.{World, query, write, insert, transaction, audit}
use unified_inbox.Team.{as_owner, is_pending_for}

abbrev pub is_pending : Invitation → Bool
is_pending i = not (is_some i.accepted_at) && not (is_some i.revoked_at)

-- A pending invitation to the address that has expired.
abbrev pub is_expired_for : ℕ → String → ℕ → Invitation → Bool
is_expired_for org email now i = is_pending_for org email i && leb i.expires_at now

abbrev pub as_revoked : ℕ → Invitation → Invitation
as_revoked now i = record i { revoked_at = some now }

abbrev pub invite_exists : String
invite_exists = "A pending invitation already exists for this email"

-- What a call draws and reads: the new rows' id, the hash of the random token, the time, and the
-- time seven days later (`setDate`).
pub record NewInvite : Type 0 where
  pub id : ℕ
  pub raw_token : String
  pub now : ℕ
  pub expires_at : ℕ

pub record InviteLink : Type 0 where
  pub invite_id : ℕ
  pub invite_link : String

-- `process.env.APP_URL || "http://localhost:3000"`
abbrev app_url : Option String → String
app_url none = "http://localhost:3000"
app_url (some url) = if str_eq url "" then "http://localhost:3000" else url

-- A member with the address, and the user.
pub record KnownMember : Type 0 where
  pub membership : Membership
  pub user : User

module _ (prisma : Prisma) (org actor : ℕ) where
  abbrev has_email : Store → String → Membership → Bool
  has_email s email m =
      elim (prisma.users.find_first (λ u. u.id == m.user_id && str_eq u.email email) s.users) [
        | none ↦ false
        | some u ↦ m.organization_id == org
      ]

  abbrev with_user : Membership → Option User → Option KnownMember
  with_user m none = none
  with_user m (some u) = some (record { membership = m; user = u })

  abbrev joined : Store → Option Membership → Option KnownMember
  joined s none = none
  joined s (some m) = with_user m (prisma.users.find_first (λ u. u.id == m.user_id) s.users)

  -- `{ organizationId, user: { email } }`
  unfoldable pub find_known : String → Store → Option KnownMember
  find_known email s = joined s (prisma.memberships.find_first (has_email s email) s.memberships)

  -- An empty hash is none.
  abbrev pub has_password : Option String → Bool
  has_password none = false
  has_password (some hash) = not (str_eq hash "")

  abbrev pub check_known : Option KnownMember → Exec World Unit
  check_known none = pure tt
  check_known (some k) =
      if has_password k.user.password_hash
      then throw (bad_request "User is already a member of this organization")
      else pure tt

  abbrev pub check_pending : Option Invitation → Exec World Unit
  check_pending none = pure tt
  check_pending (some i) = throw (bad_request invite_exists)

  -- A member without a password is invited in the role that it has.
  abbrev pub invite_role : Role → Option KnownMember → Role
  invite_role r none = r
  invite_role r (some k) = k.membership.role

  abbrev pub invitation : (String → String) → NewInvite → String → Role → Membership → Invitation
  invitation hash new email r a = record {
    id = new.id;
    email = email;
    role = r;
    token_hash = hash new.raw_token;
    expires_at = new.expires_at;
    accepted_at = none;
    revoked_at = none;
    organization_id = org;
    created_by_membership_id = a.id;
    created_at = new.now;
  }

  abbrev pub revoke_where : (Invitation → Bool) → ℕ → Exec World Unit
  revoke_where p now = write λ s. (
    record s { invitations = (prisma.invitations.update_many p (as_revoked now) s.invitations).0 },
    tt,
  )

  abbrev pub add_invitation : Invitation → Store → Option Store
  add_invitation i s =
      elim (prisma.invitations.create (is_pending_for org i.email) i s.invitations) [
        | none ↦ none
        | some rows ↦ some (record s { invitations = rows })
      ]

  abbrev created : Invitation → AuditLog
  created i = record {
    action = "invite.created";
    target_id = some i.id;
    metadata = ("email", text i.email) ∷ ("role", role i.role) ∷ [];
    organization_id = org;
    actor_id = actor;
  }

  abbrev pub create_in_transaction :
      (String → String) → NewInvite → String → Role → Exec World Invitation
  create_in_transaction hash new email r = transaction do
    a ← as_owner prisma org actor
    revoke_where (is_expired_for org email new.now) new.now
    known ← query (find_known email)
    check_known known
    existing ← query λ s. prisma.invitations.find_first (is_pending_for org email) s.invitations
    check_pending existing
    insert prisma.aborts "invitations_org_email_pending_unique"
        (add_invitation (invitation hash new email (invite_role r known) a)) tt
    audit (created (invitation hash new email (invite_role r known) a))
    pure (invitation hash new email (invite_role r known) a)

  -- `isPendingInviteUniqueViolation`
  abbrev pub on_create_error : Failure → Exec World Invitation
  on_create_error (http s m c) = throw (http s m c)
  on_create_error (unique_violation target) =
      if str_eq target "invitations_org_email_pending_unique"
      then throw (bad_request invite_exists)
      else throw (unique_violation target)
  on_create_error (error m) = throw (error m)
  on_create_error (non_retryable m) = throw (non_retryable m)
  on_create_error (delivery_error m) = throw (delivery_error m)

  abbrev link : Option String → NewInvite → Invitation → InviteLink
  link url new i = record {
    invite_id = i.id;
    invite_link = concat (app_url url) (concat "/invite?token=" new.raw_token);
  }

  -- `createInvite`, with `process.env.APP_URL` and the hash of tokens.
  unfoldable pub create_invite :
      Runtime
      → Option String
      → (String → String)
      → NewInvite
      → String
      → Role
      → Exec World InviteLink
  create_invite rt url hash new email r = do
    i ← catching (create_in_transaction hash new (normalized rt email) r) on_create_error
    pure (link url new i)

  abbrev pub invitation_found : Option Invitation → Exec World Invitation
  invitation_found none = throw (not_found "Invitation not found")
  invitation_found (some i) = pure i

  abbrev revoked : Invitation → AuditLog
  revoked i = record {
    action = "invite.revoked";
    target_id = some i.id;
    metadata = ("email", text i.email) ∷ [];
    organization_id = org;
    actor_id = actor;
  }

  abbrev pub is_revocable : ℕ → Invitation → Bool
  is_revocable id i = i.id == id && (i.organization_id == org && is_pending i)

  -- `revokeInvite`
  unfoldable pub revoke_invite : ℕ → ℕ → Exec World Unit
  revoke_invite id now = transaction do
    as_owner prisma org actor
    found ← query λ s. prisma.invitations.find_first (is_revocable id) s.invitations
    i ← invitation_found found
    revoke_where (λ row. row.id == i.id) now
    audit (revoked i)
