-- ===== src/Auth/Login.antt =====
-- apps/api/src/auth/auth.service.ts: login.
pub mod SignsIn
pub mod Accepted
use unified_inbox.Prelude.{
  ℕ, String, Bool, true, false, ◌&&◌, Option, none, some, List, [], ◌∷◌, map, if◌then◌else◌, ◌==◌,
  not, is_some, str_eq,
}
use unified_inbox.Prelude.Result.{
  http, unauthorized_401, forbidden_403, unauthorized, forbidden, Exec, pure, throw, ◌>>=◌, ◌>>◌,
}
use unified_inbox.Runtime.{Runtime, Env}
use unified_inbox.Schema.Rows.{User, Organization, Membership}
use unified_inbox.Database.{Prisma, Store}
use unified_inbox.Database.Statements.{World, query}
use unified_inbox.Auth.{VerificationMode, soft, login as at_login, verification_mode}
use unified_inbox.Auth.Base.{
  SessionPayload, new_session, Hashes, Member, member_of, filled, normalized,
}

-- LoginDto. An empty organization id is none.
pub record Credentials : Type 0 where
  pub email : String
  pub password : String
  pub organization_id : Option ℕ

-- The answer to a login: the organizations to select from, or a session.
pub data LoginResult : Type 0 where
  select_organization : User → List Organization → LoginResult
  signed_in : User → Organization → SessionPayload → LoginResult

-- A user with its memberships and their organizations.
pub record Profile : Type 0 where
  pub user : User
  pub memberships : List Member

abbrev pub organizations_of : List Member → List Organization
organizations_of = map (λ m. m.organization)

-- `memberships.find(...)`
abbrev pub member_in : ℕ → List Member → Option Member
member_in org [] = none
member_in org (m ∷ ms) = if m.membership.organization_id == org then some m else member_in org ms

abbrev pub only_member : List Member → Option Member
only_member [] = none
only_member (m ∷ []) = some m
only_member (m ∷ n ∷ ms) = none

abbrev pub selected : Option ℕ → List Member → Option Member
selected (some org) ms = member_in org ms
selected none ms = only_member ms

module _ (prisma : Prisma) (rt : Runtime) (env : Env) (hashes : Hashes) where
  abbrev pub with_member : Option Member → List Member → List Member
  with_member none ms = ms
  with_member (some m) ms = m ∷ ms

  -- The memberships with the user and the organization to which foreign keys tie them.
  abbrev pub joined : Store → List Membership → List Member
  joined s [] = []
  joined s (m ∷ ms) = with_member (member_of prisma s m) (joined s ms)

  abbrev pub profile : Store → Option User → Option Profile
  profile s none = none
  profile s (some u) = some (record {
    user = u;
    memberships = joined s (prisma.memberships.find_many (λ m. m.user_id == u.id) s.memberships);
  })

  abbrev pub check_password : String → Option String → Exec World Unit
  check_password password none = throw (
      http unauthorized_401
        "Account activation required. Ask an owner for a fresh invite to set your password."
        (some "AUTH_ACTIVATION_REQUIRED"))
  check_password password (some hash) =
      if hashes.compare password hash then pure tt else throw (unauthorized "Invalid credentials")

  abbrev pub check_verified : VerificationMode → User → Exec World Unit
  check_verified soft u = pure tt
  check_verified at_login u =
      if is_some u.email_verified_at
      then pure tt
      else throw (
          http forbidden_403
            "Email verification is required before you can sign in. Request a new verification link and try again."
            (some "AUTH_EMAIL_VERIFICATION_REQUIRED"))

  abbrev pub check_membership : List Member → Exec World Unit
  check_membership [] = throw (forbidden "User has no organization membership")
  check_membership (m ∷ ms) = pure tt

  abbrev pub answer : ℕ → Option ℕ → Profile → Option Member → Exec World LoginResult
  answer now (some org) p none = throw (forbidden "Organization access denied")
  answer now none p none = pure (select_organization p.user (organizations_of p.memberships))
  answer now org p (some m) = pure (
      signed_in p.user m.organization
        (new_session now p.user.id m.membership.organization_id p.user.session_version))

  abbrev pub login_as : ℕ → Credentials → Option Profile → Exec World LoginResult
  login_as now dto none = throw (unauthorized "Invalid credentials")
  login_as now dto (some p) = do
    check_password dto.password (filled p.user.password_hash)
    mode ← verification_mode rt env
    check_verified mode p.user
    check_membership p.memberships
    answer now dto.organization_id p (selected dto.organization_id p.memberships)

  -- `login`, whose session starts in the given second.
  unfoldable pub login : ℕ → Credentials → Exec World LoginResult
  login now dto = do
    found ← query λ s.
        profile s (prisma.users.find_first (λ u. str_eq u.email (normalized rt dto.email)) s.users)
    login_as now dto found
