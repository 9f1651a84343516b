-- ===== src/Auth/Base.antt =====
-- apps/api/src/auth/auth.types.ts, session.constants.ts and what the auth and team services share:
-- session payloads, hashes, and a member with its user and organization.
use unified_inbox.Prelude.{
  ℕ, String, Bool, ◌+◌, ◌&&◌, Option, none, some, if◌then◌else◌, ◌==◌, str_eq,
}
use unified_inbox.Prelude.Text.{trim}
use unified_inbox.Runtime.{Runtime}
use unified_inbox.Schema.Enums.{Role}
use unified_inbox.Schema.Rows.{Membership, User, Organization}
use unified_inbox.Database.{Prisma, Store}

-- Times in seconds. A session that is signed has no role; a guard adds it.
pub record SessionPayload : Type 0 where
  pub user_id : ℕ
  pub organization_id : ℕ
  pub session_version : ℕ
  pub role : Option Role
  pub iat : ℕ
  pub exp : ℕ

abbrev pub session_ttl_seconds : ℕ
session_ttl_seconds = 604800

-- The session of a user, its organization and its version, signed in the given second.
abbrev pub new_session : ℕ → ℕ → ℕ → ℕ → SessionPayload
new_session now user org version = record {
  user_id = user;
  organization_id = org;
  session_version = version;
  role = none;
  iat = now;
  exp = now + session_ttl_seconds;
}

-- sha256 of a token, and bcryptjs. `hash` is one call with its salt.
pub record Hashes : Type 0 where
  pub token : String → String
  pub hash : String → String
  pub compare : String → String → Bool

-- An empty string is falsy.
abbrev pub filled : Option String → Option String
filled none = none
filled (some s) = if str_eq s "" then none else some s

-- `value.trim().toLowerCase()`
abbrev pub normalized : Runtime → String → String
normalized rt s = rt.to_lower_case (trim s)

-- `organizationId_userId`
abbrev pub is_member : ℕ → ℕ → Membership → Bool
is_member org user m = m.organization_id == org && m.user_id == user

-- A membership with the user and the organization to which foreign keys tie it.
pub record Member : Type 0 where
  pub membership : Membership
  pub user : User
  pub organization : Organization

module _ (prisma : Prisma) where
  abbrev pub with_organization : Membership → User → Option Organization → Option Member
  with_organization m u none = none
  with_organization m u (some o) = some (record { membership = m; user = u; organization = o })

  abbrev pub with_user : Store → Membership → Option User → Option Member
  with_user s m none = none
  with_user s m (some u) =
      with_organization m u
        (prisma.organizations.find_first (λ o. o.id == m.organization_id) s.organizations)

  abbrev pub member_of : Store → Membership → Option Member
  member_of s m = with_user s m (prisma.users.find_first (λ u. u.id == m.user_id) s.users)

  abbrev pub member_found : Store → Option Membership → Option Member
  member_found s none = none
  member_found s (some m) = member_of s m
