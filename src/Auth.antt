-- ===== src/Auth.antt =====
-- apps/api/src/auth/auth.service.ts: sessions, and what its flows share. Login, Tokens (password
-- resets and email verifications), Bootstrap and Recover are the flows.
pub mod Base
pub mod Details
pub mod Tokens
pub mod Login
pub mod Slug
pub mod Bootstrap
pub mod Recover
use unified_inbox.Prelude.{
  ℕ, String, Bool, true, false, Option, none, some, if◌then◌else◌, ◌==◌, str_eq,
}
use unified_inbox.Prelude.Result.{
  Result, ok, err, error, unauthorized, Exec, pure, throw, ◌>>=◌, ◌>>◌,
}
use unified_inbox.Runtime.{Runtime, Env, trimmed}
use unified_inbox.Schema.Enums.{Role}
use unified_inbox.Schema.Rows.{User, Organization}
use unified_inbox.Database.{Prisma, Store}
use unified_inbox.Database.Statements.{World, query}
use unified_inbox.Auth.Base.{SessionPayload, Member, member_found, is_member}

-- Whether a login asks for a verified address.
pub data VerificationMode : Type 0 where
  soft login : VerificationMode

abbrev mode_named : String → Result VerificationMode
mode_named s =
    if str_eq s "soft"
    then ok soft
    else if str_eq s "login"
    then ok login
    else err (error "AUTH_EMAIL_VERIFICATION_MODE must be one of: soft, login")

abbrev configured_mode : Runtime → Option String → Result VerificationMode
configured_mode rt none = ok soft
configured_mode rt (some s) = mode_named (rt.to_lower_case s)

-- `getEmailVerificationMode`
unfoldable pub get_email_verification_mode : Runtime → Env → Result VerificationMode
get_email_verification_mode rt env = configured_mode rt (trimmed env.auth_email_verification_mode)

abbrev pub verification_mode : Runtime → Env → Exec World VerificationMode
verification_mode rt env w = (get_email_verification_mode rt env, w)

pub record SessionDetails : Type 0 where
  pub role : Role
  pub mode : VerificationMode
  pub user : User
  pub organization : Organization

module _ (prisma : Prisma) (rt : Runtime) (env : Env) where
  abbrev pub session_member : SessionPayload → Option Member → Exec World Member
  session_member session none = throw (unauthorized "Invalid session")
  session_member session (some m) =
      if m.user.session_version == session.session_version
      then pure m
      else throw (unauthorized "Invalid session")

  -- `getSessionDetails`
  unfoldable pub get_session_details : SessionPayload → Exec World SessionDetails
  get_session_details session = do
    found ← query λ s. member_found prisma s (
        prisma.memberships.find_first (is_member session.organization_id session.user_id)
          s.memberships)
    m ← session_member session found
    mode ← verification_mode rt env
    pure (record {
      role = m.membership.role;
      mode = mode;
      user = m.user;
      organization = m.organization;
    })
