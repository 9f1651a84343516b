-- ===== src/Auth/Bootstrap.antt =====
-- apps/api/src/auth/auth.service.ts: getBootstrapStatus and bootstrapOwner.
pub mod Owner
use unified_inbox.Prelude.{
  ℕ, String, Bool, true, false, ◌&&◌, Option, none, some, List, [], ◌∷◌, if◌then◌else◌, ◌==◌, ◌||◌,
  str_eq,
}
use unified_inbox.Prelude.Text.{trim, is_empty}
use unified_inbox.Prelude.Result.{bad_request, conflict, Exec, pure, throw, ◌>>=◌, ◌>>◌}
use unified_inbox.Runtime.{Runtime}
use unified_inbox.Schema.Enums.{owner}
use unified_inbox.Schema.Rows.{User, Organization, Membership, AuditLog, text}
use unified_inbox.Database.{Prisma, Store, Table}
use unified_inbox.Database.Statements.{World, query, insert, transaction, audit}
use unified_inbox.Auth.Base.{SessionPayload, new_session, Hashes, normalized, is_member}
use unified_inbox.Auth.Slug.{slugify_organization_name}

-- BootstrapOwnerDto
pub record BootstrapOwner : Type 0 where
  pub email : String
  pub name : String
  pub organization_name : String
  pub password : String

-- The ids that the database gives the new rows, and the time.
pub record NewIds : Type 0 where
  pub organization : ℕ
  pub user : ℕ
  pub membership : ℕ
  pub now : ℕ

pub record Bootstrapped : Type 0 where
  pub user : User
  pub organization : Organization

module _ (prisma : Prisma) (rt : Runtime) (hashes : Hashes) where
  -- `isBootstrapAvailable`
  abbrev pub is_bootstrap_available : Store → Bool
  is_bootstrap_available s =
      prisma.organizations.count_rows (λ o. true) s.organizations == 0
      && (prisma.users.count_rows (λ u. true) s.users == 0
          && prisma.memberships.count_rows (λ m. true) s.memberships == 0)

  -- `getBootstrapStatus`
  unfoldable pub get_bootstrap_status : Exec World Bool
  get_bootstrap_status = query is_bootstrap_available

  abbrev pub check_available : Bool → Exec World Unit
  check_available true = pure tt
  check_available false =
      throw (conflict "Bootstrap is not available after the first owner is created")

  abbrev pub add_organization : Organization → Store → Option Store
  add_organization o s =
      elim (prisma.organizations.create (λ x. str_eq x.slug o.slug || x.id == o.id) o
        s.organizations) [ none ↦ none | some rows ↦ some (record s { organizations = rows }) ]

  abbrev pub add_user : User → Store → Option Store
  add_user u s =
      elim (prisma.users.create (λ x. str_eq x.email u.email || x.id == u.id) u s.users) [
        | none ↦ none
        | some rows ↦ some (record s { users = rows })
      ]

  abbrev pub add_membership : Membership → Store → Option Store
  add_membership m s =
      elim (prisma.memberships.create (λ x. is_member m.organization_id m.user_id x || x.id == m.id)
        m s.memberships) [ none ↦ none | some rows ↦ some (record s { memberships = rows }) ]

  abbrev pub new_organization : NewIds → BootstrapOwner → Organization
  new_organization ids dto = record {
    id = ids.organization;
    name = trim dto.organization_name;
    slug = slugify_organization_name rt (trim dto.organization_name);
  }

  abbrev pub new_user : NewIds → BootstrapOwner → User
  new_user ids dto = record {
    id = ids.user;
    email = normalized rt dto.email;
    name = trim dto.name;
    password_hash = some (hashes.hash dto.password);
    session_version = 0;
    email_verified_at = none;
  }

  abbrev pub new_membership : NewIds → Membership
  new_membership ids = record {
    id = ids.membership;
    role = owner;
    organization_id = ids.organization;
    user_id = ids.user;
    created_at = ids.now;
  }

  abbrev pub bootstrap_completed : NewIds → BootstrapOwner → AuditLog
  bootstrap_completed ids dto = record {
    action = "auth.bootstrap_completed";
    target_id = some ids.organization;
    metadata = ("email", text (normalized rt dto.email)) ∷ [];
    organization_id = ids.organization;
    actor_id = ids.user;
  }

  -- The transaction. The advisory lock makes transactions of this kind wait for each other: they are
  -- run one after the other here.
  abbrev pub create_owner : NewIds → BootstrapOwner → Exec World Bootstrapped
  create_owner ids dto = do
    available ← query is_bootstrap_available
    check_available available
    o ←
        insert prisma.aborts "slug" (add_organization (new_organization ids dto))
          (new_organization ids dto)
    u ← insert prisma.aborts "email" (add_user (new_user ids dto)) (new_user ids dto)
    insert prisma.aborts "organizationId,userId" (add_membership (new_membership ids)) tt
    audit (bootstrap_completed ids dto)
    pure (record { user = u; organization = o })

  abbrev pub owner_session : ℕ → Bootstrapped → SessionPayload
  owner_session now r = new_session now r.user.id r.organization.id r.user.session_version

  abbrev pub create_and_sign_in :
      ℕ → NewIds → BootstrapOwner → Exec World (Bootstrapped × SessionPayload)
  create_and_sign_in now ids dto = do
    r ← transaction (create_owner ids dto)
    pure (r, owner_session now r)

  -- `bootstrapOwner`, whose session starts in the given second.
  unfoldable pub bootstrap_owner :
      ℕ → NewIds → BootstrapOwner → Exec World (Bootstrapped × SessionPayload)
  bootstrap_owner now ids dto =
      if is_empty (slugify_organization_name rt (trim dto.organization_name))
      then throw (bad_request "Organization name must include letters or numbers")
      else create_and_sign_in now ids dto
