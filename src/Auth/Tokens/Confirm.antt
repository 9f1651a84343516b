-- ===== src/Auth/Tokens/Confirm.antt =====
-- What a confirmed link changes (apps/api/src/auth/auth.service.ts).
use unified_inbox.Prelude.{
  String, ◌≡◌, refl, Bool, true, false, Option, none, some, arith, count, ◌==◌, is_some,
  if◌then◌else◌, not, ◌&&◌, leb,
}
use unified_inbox.Prelude.Text.{trim}
use unified_inbox.Prelude.Result.{ok, bad_request, pure, throw, continue, ◌>>=◌}
use unified_inbox.Schema.Rows.{AuthToken}
use unified_inbox.Database.{Prisma, Store, map_where}
use unified_inbox.Database.Statements.{
  World, active, idle, finish, EmailKind, password_reset, email_verification,
}
use unified_inbox.Auth.Tokens.{
  Services, Times, tokens, table, is_usable, as_used, has_hash, check_token, claim_token,
  apply_token, confirm, already_used, no_longer_valid, expired, with_password, as_verified,
}

module _ (prisma : Prisma) (sv : Services) where
  -- The store after a confirmed link.
  abbrev pub confirmed : EmailKind → Times → String → AuthToken → Store → Store
  confirmed password_reset at password t s = record s {
    password_reset_tokens =
        map_where (is_usable t.id at.now) (as_used at.now) s.password_reset_tokens;
    users =
        map_where (λ u. u.id == t.user_id) (with_password prisma sv (sv.hashes.hash password))
          s.users;
  }
  confirmed email_verification at password t s = record s {
    email_verification_tokens =
        map_where (is_usable t.id at.now) (as_used at.now) s.email_verification_tokens;
    users =
        (prisma.users.update_many (λ u. u.id == t.user_id && not (is_some u.email_verified_at))
          (as_verified prisma sv at.now) s.users).0;
  }

  claimed-ok :
      (kind : EmailKind) (at : Times) (password : String) (t : AuthToken) (w v : World)
      → finish w (
          (claim_token prisma sv kind at t >>= apply_token prisma sv kind at password)
            (record w { session = active }))
        ≡ (ok tt, v)
      → (count (is_usable t.id at.now) (tokens kind w.store) ≡ 1)
        × (v ≡ record w { store = confirmed kind at password t w.store; session = idle })
  claimed-ok password_reset at password t w v h = ground (
    arith,
    prisma.password_reset_tokens.update_many_lem (is_usable t.id at.now) (as_used at.now)
        w.password_reset_tokens,
    prisma.users.update_many_lem (λ u. u.id == t.user_id)
        (with_password prisma sv (sv.hashes.hash password)) w.users,
  )
  claimed-ok email_verification at password t w v h = ground (
    arith,
    prisma.email_verification_tokens.update_many_lem (is_usable t.id at.now) (as_used at.now)
        w.email_verification_tokens,
  )

  checked-ok :
      (kind : EmailKind) (at : Times) (password : String) (o : Option AuthToken) (w v : World)
      → finish w (
          ((check_token prisma sv kind at.now o >>= claim_token prisma sv kind at)
              >>= apply_token prisma sv kind at password)
            (record w { session = active }))
        ≡ (ok tt, v)
      → (t : AuthToken) × (o ≡ some t)
        × (count (is_usable t.id at.now) (tokens kind w.store) ≡ 1)
        × (v ≡ record w { store = confirmed kind at password t w.store; session = idle })
  checked-ok kind at password none w v h = absurd cc
  checked-ok kind at password (some t) w v h =
      let (n, e) =
        claimed-ok kind at password t w v
          (guarded (is_some t.used_at) (is_some t.invalidated_at) (leb t.expires_at at.now) h) in
      (t, refl, n, e)
    where
      guarded :
          (b c d : Bool)
          → finish w (
              continue (apply_token prisma sv kind at password) (
                continue (claim_token prisma sv kind at) (
                  (if b
                      then throw (bad_request (already_used kind))
                      else if c
                      then throw (bad_request (no_longer_valid kind))
                      else if d
                      then throw (bad_request (expired kind))
                      else pure t)
                    (record w { session = active }))))
            ≡ (ok tt, v)
          → finish w (
              (claim_token prisma sv kind at t >>= apply_token prisma sv kind at password)
                (record w { session = active }))
            ≡ (ok tt, v)
      guarded true c d h = absurd cc
      guarded false true d h = absurd cc
      guarded false false true h = absurd cc
      guarded false false false h = h

  -- What a confirmation that succeeded found and changed.
  pub confirm-ok :
      (kind : EmailKind) (at : Times) (token password : String) (w v : World)
      → confirm prisma sv kind at token password w ≡ (ok tt, v)
      → (t : AuthToken) × ((table prisma kind).find_first
            (has_hash (sv.hashes.token (trim token)))
            (tokens kind w.store)
          ≡ some t)
        × (count (is_usable t.id at.now) (tokens kind w.store) ≡ 1)
        × (v ≡ record w { store = confirmed kind at password t w.store; session = idle })
  unfolding confirm
  confirm-ok kind at token password w v h = checked-ok kind at password _ w v h
