-- ===== src/Auth/Tokens/Sessions.antt =====
-- The sessions that a password reset ends (apps/api/src/auth/auth.service.ts).
use unified_inbox.Prelude.{
  ℕ, String, ◌≡◌, ◌≤◌, refl, sym, subst, ◌∙◌, ap, Option, some, or_else, arith, count, ◌==◌,
}
use unified_inbox.Prelude.Text.{trim}
use unified_inbox.Prelude.Result.{ok, err, unauthorized}
use unified_inbox.Schema.Rows.{AuthToken, User}
use unified_inbox.Database.{Prisma}
use unified_inbox.Database.Statements.{World, password_reset}
use unified_inbox.Database.Unique.{changed_found}
use unified_inbox.Database.Lookups.{find_first-meets}
use unified_inbox.Auth.{SessionDetails, get_session_details}
use unified_inbox.Auth.Base.{SessionPayload, Member, is_member}
use unified_inbox.Auth.Details.{IsMemberOf, details-IsMemberOf, details-refused}
use unified_inbox.Auth.Tokens.{Services, Times, has_hash, with_password, confirm}
use unified_inbox.Auth.Tokens.Confirm.{confirmed, confirm-ok}

module _ (prisma : Prisma) (sv : Services) where
  -- The member of a session after the user's password was reset.
  abbrev reset_member : String → Member → Member
  reset_member password x = record x {
    user = with_password prisma sv (sv.hashes.hash password) x.user;
  }

  reset-IsMemberOf :
      (at : Times) (password : String) (session : SessionPayload) (t : AuthToken) (w : World)
      (x : Member)
      → ((id : ℕ) → count (λ (u : User). u.id == id) w.users ≤ 1)
      → t.user_id ≡ session.user_id
      → IsMemberOf prisma sv.runtime sv.env w.store session x
      → IsMemberOf prisma sv.runtime sv.env
          (confirmed prisma sv password_reset at password t w.store)
          session
          (reset_member password x)
  reset-IsMemberOf at password session t w x one own h = record {
    membership = h.membership;
    user =
        changed_found prisma.users (λ u. u.id == x.membership.user_id) (λ u. u.id == t.user_id)
          (with_password prisma sv (sv.hashes.hash password)) x.user w.users (λ r. refl)
          (one x.membership.user_id)
          (ground (
            arith,
            find_first-meets prisma.memberships (is_member session.organization_id session.user_id)
                x.membership w.memberships h.membership,
            find_first-meets prisma.users (λ u. u.id == x.membership.user_id) x.user w.users h.user,
          ))
          h.user;
    organization = h.organization;
  }

  -- A password reset ends the sessions of the user: one that was accepted before is refused after it.
  -- Ids of users are unique.
  pub password_reset_ends_sessions :
      (at : Times) (token password : String) (session : SessionPayload) (t : AuthToken)
      (w v w' : World) (d : SessionDetails)
      → ((id : ℕ) → count (λ (u : User). u.id == id) w.users ≤ 1)
      → prisma.password_reset_tokens.find_first
          (has_hash (sv.hashes.token (trim token)))
          w.password_reset_tokens
        ≡ some t
      → t.user_id ≡ session.user_id
      → get_session_details prisma sv.runtime sv.env session w ≡ (ok d, w')
      → confirm prisma sv password_reset at token password w ≡ (ok tt, v)
      → get_session_details prisma sv.runtime sv.env session v
        ≡ (err (unauthorized "Invalid session"), v)
  password_reset_ends_sessions at token password session t w v w' d one found own was h =
      let (x, member, version) = details-IsMemberOf prisma sv.runtime sv.env session w w' d was in
      let (t', found', n, e) = confirm-ok prisma sv password_reset at token password w v h in
      details-refused prisma sv.runtime sv.env session v (reset_member password x)
        (ap (λ u. u.session) e)
        (subst (λ u. IsMemberOf prisma sv.runtime sv.env u.store session (reset_member password x))
          (sym e)
          (reset-IsMemberOf at password session t' w x one
            (ap (λ (o : Option AuthToken). (or_else o t).user_id) (sym found' ∙ found) ∙ own)
            member))
        (ground arith)
