-- ===== src/Auth/Tokens/Once.antt =====
-- Repeated use of a link (apps/api/src/auth/auth.service.ts).
use unified_inbox.Prelude.{ℕ, String, ◌≡◌, ◌≤◌, refl, ◌∙◌, ap, some, arith, count, ◌==◌}
use unified_inbox.Prelude.Text.{trim}
use unified_inbox.Prelude.Result.{ok, err, bad_request}
use unified_inbox.Schema.Rows.{AuthToken}
use unified_inbox.Database.{Prisma, Store, map_where}
use unified_inbox.Database.Statements.{World, EmailKind, password_reset, email_verification}
use unified_inbox.Database.Unique.{claimed_found}
use unified_inbox.Auth.Tokens.{
  Services, Times, tokens, table, is_usable, as_used, has_hash, confirm, already_used,
}
use unified_inbox.Auth.Tokens.Confirm.{confirmed, confirm-ok}

module _ (prisma : Prisma) (sv : Services) where
  tokens-confirmed :
      (kind : EmailKind) (at : Times) (password : String) (t : AuthToken) (s : Store)
      → tokens kind (confirmed prisma sv kind at password t s)
        ≡ map_where (is_usable t.id at.now) (as_used at.now) (tokens kind s)
  tokens-confirmed password_reset at password t s = refl
  tokens-confirmed email_verification at password t s = refl

  used-refused :
      (kind : EmailKind) (at : Times) (token password : String) (n : ℕ) (t : AuthToken) (v : World)
      → (table prisma kind).find_first
          (has_hash (sv.hashes.token (trim token)))
          (tokens kind v.store)
        ≡ some (as_used n t)
      → confirm prisma sv kind at token password v ≡ (err (bad_request (already_used kind)), v)
  unfolding confirm
  used-refused kind at token password n t v h = rw h refl

  -- A link works once: after a confirmation that succeeded, another one with the same token fails,
  -- with whatever password and whenever, and changes nothing. Hashes and ids of tokens are unique.
  pub confirm_once :
      (kind : EmailKind) (at at' : Times) (token password password' : String) (w v : World)
      → count (has_hash (sv.hashes.token (trim token))) (tokens kind w.store) ≤ 1
      → ((id : ℕ) → count (λ t. t.id == id) (tokens kind w.store) ≤ 1)
      → confirm prisma sv kind at token password w ≡ (ok tt, v)
      → confirm prisma sv kind at' token password' v ≡ (err (bad_request (already_used kind)), v)
  confirm_once kind at at' token password password' w v one one_id h =
      let (t, found, n, e) = confirm-ok prisma sv kind at token password w v h in
      used-refused kind at' token password' at.now t v (
        ap
          (λ x.
            (table prisma kind).find_first (has_hash (sv.hashes.token (trim token)))
              (tokens kind x.store))
          e
        ∙ ap ((table prisma kind).find_first (has_hash (sv.hashes.token (trim token))))
            (tokens-confirmed kind at password t w.store)
        ∙ claimed_found (table prisma kind) (has_hash (sv.hashes.token (trim token)))
            (λ r. r.id == t.id) (is_usable t.id at.now) (as_used at.now) t (tokens kind w.store)
            (λ r. refl) one (one_id t.id) (λ r k. ground arith) (ground arith) found n)
