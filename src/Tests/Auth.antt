-- ===== src/Tests/Auth.antt =====
-- The first owner of an organization, its links and its sessions
-- (apps/api/src/auth/auth.service.spec.ts).
use unified_inbox.Prelude.{
  keep, ℕ, ◌≡◌, ◌≤◌, refl, true, false, none, some, [], ◌∷◌, arith, count, ◌==◌, str_eq,
}
use unified_inbox.Prelude.Text.{trim, is_empty}
use unified_inbox.Prelude.Result.{ok, err, bad_request, conflict, unauthorized}
use unified_inbox.Runtime.{Env, trimmed}
use unified_inbox.Schema.Enums.{owner}
use unified_inbox.Schema.Rows.{User, AuthToken, Membership}
use unified_inbox.Database.{empty_store}
use unified_inbox.Database.Memory.{memory}
use unified_inbox.Database.Statements.{World, empty_world, password_reset}
use unified_inbox.Auth.{SessionDetails, get_session_details, get_email_verification_mode, soft}
use unified_inbox.Auth.Base.{Member, normalized, Hashes, SessionPayload, new_session}
use unified_inbox.Auth.Slug.{slugify_organization_name, slugify-is_slug, is_slug}
use unified_inbox.Auth.Bootstrap.{
  BootstrapOwner, NewIds, Bootstrapped, bootstrap_owner, get_bootstrap_status,
}
use unified_inbox.Auth.Bootstrap.Owner.{bootstrap_once}
use unified_inbox.Auth.Tokens.{
  is_active_of, Services, NewToken, Times, outbox, has_hash, confirm, request_link, create_and_send,
  accepted,
}
use unified_inbox.Auth.Tokens.Renewed.{request_link-renews}
use unified_inbox.Auth.Base.{normalized}
use unified_inbox.Auth.Tokens.Once.{confirm_once}
use unified_inbox.Auth.Tokens.Requests.{request_link-answer}
use unified_inbox.Auth.Tokens.Sessions.{password_reset_ends_sessions}
use unified_inbox.Auth.Login.{Credentials, signed_in, login}
use unified_inbox.Auth.Login.SignsIn.{IsChecked, login-IsChecked}
use unified_inbox.Auth.Login.Accepted.{login-accepted}
use unified_inbox.Auth.Recover.{RecoverOwner, Recovered, recover_owner_access}
use unified_inbox.Auth.Recover.Guarded.{IsGuarded, recover-IsGuarded}
use unified_inbox.Tests.Payloads.{plain_runtime}
use unified_inbox.Tests.Outbound.{empty_env}

abbrev hashes : Hashes
hashes = record { token = λ s. s; hash = λ s. s; compare = str_eq }

abbrev services : Services
services = record {
  runtime = plain_runtime;
  env = empty_env;
  hashes = hashes;
  mode = outbox;
  deliver = λ email. ok tt;
}

abbrev ids : NewIds
ids = record { organization = 4; user = 1; membership = 11; now = 0 }

abbrev dto : BootstrapOwner
dto = record { email = "ada@x.io"; name = "Ada"; organization_name = "acme"; password = "first" }

slug_of : slugify_organization_name plain_runtime "  Acme & Co. " ≡ "cme-o"
unfolding slugify_organization_name
slug_of = refl

slugify-is_slug_example : is_slug (slugify_organization_name plain_runtime "acme & co.") ≡ true
slugify-is_slug_example = slugify-is_slug plain_runtime "acme & co."

abbrev founded : World
founded = (bootstrap_owner memory plain_runtime hashes 50 ids dto empty_world).1

abbrev founder : Bootstrapped
founder = record {
  user = record {
    id = 1;
    email = "ada@x.io";
    name = "Ada";
    password_hash = some "first";
    session_version = 0;
    email_verified_at = none;
  };
  organization = record { id = 4; name = "acme"; slug = "acme" };
}

abbrev session : SessionPayload
session = new_session 50 1 4 0

founded_ok :
    bootstrap_owner memory plain_runtime hashes 50 ids dto empty_world
    ≡ (ok (founder, session), founded)
unfolding bootstrap_owner slugify_organization_name trim
founded_ok = refl

dto_named : is_empty (slugify_organization_name plain_runtime (trim dto.organization_name)) ≡ false
unfolding slugify_organization_name trim
dto_named = refl

bootstrap_once_example :
    (bootstrap_owner memory plain_runtime hashes 60 ids dto founded
      ≡ (err (conflict "Bootstrap is not available after the first owner is created"), founded))
    × (get_bootstrap_status memory plain_runtime hashes founded ≡ (ok false, founded))
bootstrap_once_example =
    bootstrap_once memory plain_runtime hashes 50 60 ids ids dto dto empty_world founded
      (founder, session) founded_ok dto_named

soft_mode : get_email_verification_mode plain_runtime empty_env ≡ ok soft
unfolding get_email_verification_mode
soft_mode = refl

-- A link for a password reset, requested and used.
abbrev new_token : NewToken
new_token = record { id = 70; raw_token = "t0"; now = 100; failed_at = 101 }

abbrev at : Times
at = record { now = 200; rechecked_at = 200 }

abbrev membership : Membership
membership = record { id = 11; role = owner; organization_id = 4; user_id = 1; created_at = 0 }

abbrev home : World
home = record empty_world {
  store = record empty_store {
    organizations = founder.organization ∷ [];
    users = founder.user ∷ [];
    memberships = membership ∷ [];
  };
}

request_link-answer_example :
    (request_link memory services password_reset new_token "bob@x.io" home).0 ≡ ok accepted
request_link-answer_example =
    request_link-answer memory services password_reset new_token "bob@x.io" home refl

abbrev link : AuthToken
link = record {
  id = 70;
  token_hash = "t0";
  expires_at = 3600100;
  used_at = none;
  invalidated_at = none;
  user_id = 1;
}

abbrev linked : World
linked = record home { store = record home.store { password_reset_tokens = link ∷ [] } }

found_ada :
    memory.users.find_first (λ u. str_eq u.email (normalized plain_runtime "ada@x.io")) linked.users
    ≡ some founder.user
unfolding trim
found_ada = refl

-- A second request replaces the link.
request_link-renews_example :
    keep
      (is_active_of 1)
      (request_link memory services password_reset
        (record new_token { id = 71; raw_token = "t1" })
        "ada@x.io"
        linked).1.password_reset_tokens
    ≡ record link { id = 71; token_hash = "t1" } ∷ []
request_link-renews_example =
    request_link-renews memory services password_reset
      (record new_token { id = 71; raw_token = "t1" }) "ada@x.io" founder.user linked refl refl
      found_ada refl

-- A request stores the link and sends it.
request_ok : request_link memory services password_reset new_token " ada@x.io" home ≡ (
  ok accepted,
  record linked {
    emails =
        record {
          kind = password_reset;
          to = "ada@x.io";
          action_url = "http://localhost:3000/password-reset?token=t0";
          expires_at = 3600100;
          delivery_id = 70;
        }
        ∷ [];
  },
)
unfolding request_link create_and_send trim
request_ok = refl

abbrev reset : World
reset = (confirm memory services password_reset at "t0" "second" linked).1

reset_ok : confirm memory services password_reset at "t0" "second" linked ≡ (ok tt, reset)
unfolding confirm trim
reset_ok = refl

link_found :
    memory.password_reset_tokens.find_first
      (has_hash (hashes.token (trim "t0")))
      linked.password_reset_tokens
    ≡ some link
unfolding trim
link_found = refl

one_hash : count (has_hash (hashes.token (trim "t0"))) linked.password_reset_tokens ≤ 1
unfolding trim
one_hash = ground arith

one_token : (id : ℕ) → count (λ (t : AuthToken). t.id == id) linked.password_reset_tokens ≤ 1
one_token id = ground arith

one_user : (id : ℕ) → count (λ (u : User). u.id == id) linked.users ≤ 1
one_user id = ground arith

confirm_once_example :
    confirm memory services password_reset at "t0" "third" reset
    ≡ (err (bad_request "Password reset link has already been used"), reset)
confirm_once_example =
    confirm_once memory services password_reset at at "t0" "second" "third" linked reset one_hash
      one_token reset_ok

abbrev details : SessionDetails
details = record {
  role = owner;
  mode = soft;
  user = founder.user;
  organization = founder.organization;
}

session_ok :
    get_session_details memory plain_runtime empty_env session linked ≡ (ok details, linked)
unfolding get_session_details get_email_verification_mode
session_ok = refl

password_reset_ends_sessions_example :
    get_session_details memory plain_runtime empty_env session reset
    ≡ (err (unauthorized "Invalid session"), reset)
password_reset_ends_sessions_example =
    password_reset_ends_sessions memory services at "t0" "second" session link linked reset linked
      details one_user link_found refl session_ok reset_ok

abbrev credentials : Credentials
credentials = record { email = " ada@x.io"; password = "first"; organization_id = none }

login_ok :
    login memory plain_runtime empty_env hashes 50 credentials home
    ≡ (ok (signed_in founder.user founder.organization session), home)
unfolding login get_email_verification_mode trim
login_ok = refl

login-IsChecked_example :
    (memory.users.find_first (λ u. str_eq u.email (normalized plain_runtime " ada@x.io")) home.users
      ≡ some founder.user)
    × IsChecked memory plain_runtime empty_env hashes credentials founder.user
    × (home ≡ home)
login-IsChecked_example =
    login-IsChecked memory plain_runtime empty_env hashes 50 credentials founder.user
      founder.organization session home home login_ok

one_email : count (λ u. str_eq u.email (normalized plain_runtime credentials.email)) home.users ≤ 1
one_email = ground arith

login-accepted_example :
    (d : SessionDetails) × (get_session_details memory plain_runtime empty_env session home
      ≡ (ok d, home))
    × (d.user ≡ founder.user)
    × (d.organization ≡ founder.organization)
login-accepted_example =
    login-accepted memory plain_runtime empty_env hashes 50 credentials founder.user
      founder.organization session home home refl one_email one_user login_ok

-- An organization whose owner has no password.
abbrev legacy : World
legacy = record home {
  store = record home.store { users = record founder.user { password_hash = none } ∷ [] };
}

abbrev recovery_env : Env
recovery_env = record empty_env { auth_recovery_secret = some "s3" }

abbrev recovery : RecoverOwner
recovery = record {
  email = "ada@x.io";
  organization_slug = "acme";
  password = "second";
  recovery_secret = "s3";
}

abbrev recovered : World
recovered = (recover_owner_access memory plain_runtime recovery_env hashes 50 recovery legacy).1

abbrev recovered_owner : Recovered
recovered_owner = record {
  user = record founder.user { password_hash = some "second"; session_version = 1 };
  organization = founder.organization;
}

recovered_ok :
    recover_owner_access memory plain_runtime recovery_env hashes 50 recovery legacy
    ≡ (ok (recovered_owner, new_session 50 1 4 1), recovered)
unfolding recover_owner_access trim
recovered_ok = refl

recover-IsGuarded_example :
    (trimmed recovery_env.auth_recovery_secret ≡ some (trim "s3"))
    × ((t : Member) × IsGuarded memory plain_runtime recovery_env hashes recovery legacy.store
          recovered recovered_owner t
        × ((new_session 50 1 4 1).user_id ≡ t.user.id)
        × ((new_session 50 1 4 1).organization_id ≡ t.organization.id))
recover-IsGuarded_example =
    recover-IsGuarded memory plain_runtime recovery_env hashes 50 recovery legacy recovered
      (recovered_owner, new_session 50 1 4 1) recovered_ok
