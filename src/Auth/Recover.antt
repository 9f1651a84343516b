-- ===== src/Auth/Recover.antt =====
-- apps/api/src/auth/auth.service.ts: recoverOwnerAccess.
pub mod Guarded
use unified_inbox.Prelude.{
  ℕ, String, Bool, true, false, ◌&&◌, ◌+◌, Option, none, some, List, [], ◌∷◌, if◌then◌else◌, ◌==◌,
  is_some, not, ltb, str_eq,
}
use unified_inbox.Prelude.Text.{trim}
use unified_inbox.Prelude.Result.{unauthorized, conflict, not_found, Exec, pure, throw, ◌>>=◌, ◌>>◌}
use unified_inbox.Runtime.{Runtime, Env, trimmed}
use unified_inbox.Schema.Enums.{Role}
use unified_inbox.Schema.Rows.{User, Organization, Membership, AuditLog, text}
use unified_inbox.Database.{Prisma, Store}
use unified_inbox.Database.Statements.{World, query, write, transaction, audit}
use unified_inbox.Auth.Base.{
  SessionPayload, new_session, Hashes, Member, member_found, filled, normalized,
}
use unified_inbox.Team.{is_owner}

-- RecoverOwnerDto
pub record RecoverOwner : Type 0 where
  pub email : String
  pub organization_slug : String
  pub password : String
  pub recovery_secret : String

pub record Recovered : Type 0 where
  pub user : User
  pub organization : Organization

module _ (prisma : Prisma) (rt : Runtime) (env : Env) (hashes : Hashes) where
  abbrev holds_of : {A : Type 0} → (A → Bool) → Option A → Bool
  holds_of p none = false
  holds_of p (some a) = p a

  -- A condition on the row that a foreign key names.
  abbrev pub user_of : Store → Membership → Option User
  user_of s m = prisma.users.find_first (λ u. u.id == m.user_id) s.users

  abbrev pub organization_of : Store → Membership → Option Organization
  organization_of s m =
      prisma.organizations.find_first (λ o. o.id == m.organization_id) s.organizations

  abbrev pub is_owner_at : Store → String → String → Membership → Bool
  is_owner_at s slug email m =
      is_owner m.role
      && (holds_of (λ o. str_eq o.slug slug) (organization_of s m)
          && holds_of (λ u. str_eq u.email email) (user_of s m))

  -- `passwordHash: { not: null }`
  abbrev pub is_password_backed_owner : Store → ℕ → Membership → Bool
  is_password_backed_owner s org m =
      m.organization_id == org
      && (is_owner m.role && holds_of (λ u. is_some u.password_hash) (user_of s m))

  abbrev pub find_target : String → String → Exec World (Option Member)
  find_target slug email = query λ s.
      member_found prisma s (prisma.memberships.find_first (is_owner_at s slug email) s.memberships)

  abbrev pub check_target : Option Member → Exec World Member
  check_target none = throw (not_found "Legacy owner account not found for recovery")
  check_target (some t) = pure t

  abbrev pub check_inactive : Member → Exec World Unit
  check_inactive t =
      if is_some (filled t.user.password_hash)
      then throw (conflict "Owner account already has a password. Use the normal login flow.")
      else pure tt

  abbrev pub check_no_owners : ℕ → Exec World Unit
  check_no_owners n =
      if ltb 0 n
      then throw (
          conflict
            "Owner recovery is only available when the organization has no password-backed owners.")
      else pure tt

  abbrev pub is_without_password : ℕ → User → Bool
  is_without_password id u = u.id == id && not (is_some u.password_hash)

  abbrev pub activate : String → User → User
  activate hash u = record u { password_hash = some hash; session_version = u.session_version + 1 }

  abbrev pub set_password : ℕ → String → Exec World ℕ
  set_password id hash = write λ s.
      let (rows, n) = prisma.users.update_many (is_without_password id) (activate hash) s.users in
      (record s { users = rows }, n)

  abbrev owner_recovered : Member → String → AuditLog
  owner_recovered t email = record {
    action = "auth.owner_recovered";
    target_id = some t.user.id;
    metadata = ("email", text email) ∷ [];
    organization_id = t.membership.organization_id;
    actor_id = t.user.id;
  }

  abbrev recovered : Member → User → Recovered
  recovered t u = record { user = u; organization = t.organization }

  abbrev pub completed_with :
      Member → String → String → ℕ → User → Option String → Exec World Recovered
  completed_with t email password n u none =
      throw (conflict "Owner recovery could not be completed")
  completed_with t email password n u (some hash) =
      if n == 1
      then audit (owner_recovered t email) >> pure (recovered t u)
      else if hashes.compare password hash
      then pure (recovered t u)
      else throw (conflict "Owner recovery could not be completed")

  abbrev pub completed : Member → String → String → ℕ → Option User → Exec World Recovered
  completed t email password n none = throw (conflict "Owner recovery could not be completed")
  completed t email password n (some u) =
      completed_with t email password n u (filled u.password_hash)

  -- The steps after the owners with a password were counted.
  abbrev pub counted : String → String → Member → ℕ → Exec World Recovered
  counted email password t owners = do
    check_no_owners owners
    n ← set_password t.user.id (hashes.hash password)
    refreshed ← query λ s. prisma.users.find_first (λ u. u.id == t.user.id) s.users
    completed t email password n refreshed

  -- The steps on the owner that was found. The lock on the organization's row makes transactions of
  -- this kind wait for each other: they are run one after the other here.
  abbrev pub recover_target : String → String → Member → Exec World Recovered
  recover_target email password t = do
    check_inactive t
    owners ← query λ s.
        prisma.memberships.count_rows (is_password_backed_owner s t.membership.organization_id)
          s.memberships
    counted email password t owners

  abbrev pub recover_in_transaction : String → String → String → Exec World Recovered
  recover_in_transaction slug email password = do
    found ← find_target slug email
    t ← check_target found
    recover_target email password t

  -- `secretsMatch`: two texts have the same bytes if they are the same.
  abbrev pub secrets_match : String → String → Bool
  secrets_match = str_eq

  abbrev pub check_secret : Option String → String → Exec World Unit
  check_secret none given =
      throw (conflict "Owner recovery is disabled. Set AUTH_RECOVERY_SECRET to enable it.")
  check_secret (some secret) given =
      if secrets_match secret given
      then pure tt
      else throw (unauthorized "Invalid recovery credentials")

  abbrev pub owner_session : ℕ → Recovered → SessionPayload
  owner_session now r = new_session now r.user.id r.organization.id r.user.session_version

  -- `recoverOwnerAccess`, whose session starts in the given second.
  unfoldable pub recover_owner_access : ℕ → RecoverOwner → Exec World (Recovered × SessionPayload)
  recover_owner_access now dto = do
    check_secret (trimmed env.auth_recovery_secret) (trim dto.recovery_secret)
    r ← transaction (
        recover_in_transaction (normalized rt dto.organization_slug) (normalized rt dto.email)
          dto.password)
    pure (r, owner_session now r)
