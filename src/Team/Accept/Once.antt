-- ===== src/Team/Accept/Once.antt =====
-- Repeated calls of acceptInvite (apps/api/src/team/team.service.ts).
use unified_inbox.Prelude.{
  ℕ, String, ◌≡◌, ◌≤◌, ◌≢◌, refl, Bool, true, false, Option, none, some, List, arith, if◌then◌else◌,
  count, leb, is_some, ◌==◌,
}
use unified_inbox.Prelude.Result.{
  Failure, Result, ok, err, Exec, pure, throw, bad_request, continue, http, unique_violation, error,
  non_retryable, delivery_error, ◌>>=◌,
}
use unified_inbox.Schema.Rows.{User, Invitation}
use unified_inbox.Database.{Prisma, Store, map_where}
use unified_inbox.Database.Statements.{World, active, aborted, finish}
use unified_inbox.Database.Keeps.{Keeps, keeps_rules, Keeps-write, Keeps-bind}
use unified_inbox.Database.Unique.{claimed_found}
use unified_inbox.Auth.Base.{SessionPayload, Hashes, filled}
use unified_inbox.Team.Accept.{
  AcceptOptions, Accepted, Account, created, existing, has_token, is_acceptable, as_accepted,
  accept_as, accept_found, accept_invite, check_invitation, find_existing, find_or_create,
  signed_in, session_user, created_user, on_create_error, existing_or_conflict, authenticated,
  activated, refreshed, refreshed_with, add_user, check_password,
}
use unified_inbox.Runtime.{trimmed}

module _ (prisma : Prisma) (hashes : Hashes) (opts : AcceptOptions) where
  module _ (rows : List Invitation) where
    -- The table of invitations.
    abbrev Same : Store → Type 0
    Same s = s.invitations ≡ rows

    session_user-Keeps :
        (i : Invitation) (o : Option User) → Keeps Same (session_user prisma hashes opts i o)
    session_user-Keeps i none = search keeps_rules
    session_user-Keeps i (some u) = search keeps_rules

    find_existing-Keeps :
        (i : Invitation) (o : Option SessionPayload)
        → Keeps Same (find_existing prisma hashes opts i o)
    find_existing-Keeps i none = search keeps_rules
    find_existing-Keeps i (some session) = search (keeps_rules, session_user-Keeps)

    add_user-keeps :
        (u : User) (s s' : Store) → Same s → add_user prisma hashes opts u s ≡ some s' → Same s'
    add_user-keeps u s s' h k = ground arith

    existing_or_conflict-Keeps :
        (o : Option User) → Keeps Same (existing_or_conflict prisma hashes opts o)
    existing_or_conflict-Keeps none = search keeps_rules
    existing_or_conflict-Keeps (some u) = search keeps_rules

    on_create_error-Keeps :
        (email : String) (f : Failure) → Keeps Same (on_create_error prisma hashes opts email f)
    on_create_error-Keeps email (http s m c) = search keeps_rules
    on_create_error-Keeps email (unique_violation t) =
        search (keeps_rules, existing_or_conflict-Keeps)
    on_create_error-Keeps email (error m) = search keeps_rules
    on_create_error-Keeps email (non_retryable m) = search keeps_rules
    on_create_error-Keeps email (delivery_error m) = search keeps_rules

    created_user-Keeps :
        (email : String) (name password : Option String)
        → Keeps Same (created_user prisma hashes opts email name password)
    created_user-Keeps email (some name) (some password) =
        search (keeps_rules, add_user-keeps, on_create_error-Keeps) depth 8
    created_user-Keeps email none password = search keeps_rules
    created_user-Keeps email (some name) none = search keeps_rules

    find_or_create-Keeps :
        (i : Invitation) (o : Option User) → Keeps Same (find_or_create prisma hashes opts i o)
    find_or_create-Keeps i (some u) = search keeps_rules
    find_or_create-Keeps i none =
        created_user-Keeps i.email (trimmed opts.name) (filled opts.password)

    check_password-Keeps :
        (u : User) (hash : String) (s : Option SessionPayload) (p : Option String)
        → Keeps Same (check_password prisma hashes opts u hash s p)
    check_password-Keeps u hash (some s) p = search keeps_rules
    check_password-Keeps u hash none none = search keeps_rules
    check_password-Keeps u hash none (some p) = search keeps_rules

    refreshed_with-Keeps :
        (p : String) (n : ℕ) (u : User) (o : Option String)
        → Keeps Same (refreshed_with prisma hashes opts p n u o)
    refreshed_with-Keeps p n u none = search keeps_rules
    refreshed_with-Keeps p n u (some hash) = search keeps_rules

    refreshed-Keeps :
        (p : String) (n : ℕ) (o : Option User) → Keeps Same (refreshed prisma hashes opts p n o)
    refreshed-Keeps p n none = search keeps_rules
    refreshed-Keeps p n (some u) = refreshed_with-Keeps p n u (filled u.password_hash)

    activated-Keeps : (u : User) (o : Option String) → Keeps Same (activated prisma hashes opts u o)
    activated-Keeps u none = search keeps_rules
    activated-Keeps u (some p) =
        Keeps-bind _ _ (Keeps-write _ (λ s h. h)) (λ n. search (keeps_rules, refreshed-Keeps))

    authenticated-Keeps :
        (u : User) (o : Option String) → Keeps Same (authenticated prisma hashes opts u o)
    authenticated-Keeps u (some hash) =
        check_password-Keeps u hash opts.current_session (filled opts.password)
    authenticated-Keeps u none = activated-Keeps u (filled opts.password)

    signed_in-Keeps : (a : Account) → Keeps Same (signed_in prisma hashes opts a)
    signed_in-Keeps (created u) = search keeps_rules
    signed_in-Keeps (existing u) = authenticated-Keeps u (filled u.password_hash)

    -- A claim that was not lost: one invitation with the id was acceptable, and now it is accepted.
    abbrev Claimed : {A : Type 0} → ℕ → Result A × World → Type 0
    Claimed id (err f, v) = Unit
    Claimed id (ok a, v) =
        (count (is_acceptable id opts.accepted_at) rows ≡ 1)
        × (v.invitations
            ≡ map_where (is_acceptable id opts.accepted_at) (as_accepted opts.accepted_at) rows)
        × (v.session ≢ aborted)

    accept_as-Claimed :
        (i : Invitation) (u : User) (v : World)
        → v.invitations ≡ rows
        → Claimed i.id (accept_as prisma hashes opts i u v)
    accept_as-Claimed i u v h = ground (
      arith,
      prisma.invitations.update_many_lem (is_acceptable i.id opts.accepted_at)
          (as_accepted opts.accepted_at) rows,
    )

    -- What keeps the invitations may come before a claim.
    Claimed-bind :
        {A B : Type 0} (id : ℕ) (k : A → Exec World B) (r : Result A × World)
        → r.1.invitations ≡ rows
        → ((a : A) (v : World) → v.invitations ≡ rows → Claimed id (k a v))
        → Claimed id (continue k r)
    Claimed-bind id k (ok a, v) h next = next a v h
    Claimed-bind id k (err f, v) h next = tt

    accept_found-Claimed :
        (i : Invitation) (v : World)
        → v.invitations ≡ rows
        → Claimed i.id (accept_found prisma hashes opts i v)
    accept_found-Claimed i v h =
        Claimed-bind i.id _ (find_existing prisma hashes opts i opts.current_session v)
          ((find_existing-Keeps i opts.current_session).at v h)
          λ o v' h'.
            Claimed-bind i.id _ (find_or_create prisma hashes opts i o v')
              ((find_or_create-Keeps i o).at v' h')
              λ a v'' h''.
                Claimed-bind i.id _ (signed_in prisma hashes opts a v'')
                  ((signed_in-Keeps a).at v'' h'') (accept_as-Claimed i)

    same_token :
        (token : String) (r : Invitation)
        → has_token hashes token (as_accepted opts.accepted_at r) ≡ has_token hashes token r
    same_token token r = refl

    -- After the claim the token is that of an accepted invitation.
    claimed-found :
        (token : String) (i : Invitation)
        → count (has_token hashes token) rows ≤ 1
        → count (λ r. r.id == i.id) rows ≤ 1
        → prisma.invitations.find_first (has_token hashes token) rows ≡ some i
        → count (is_acceptable i.id opts.accepted_at) rows ≡ 1
        → prisma.invitations.find_first
            (has_token hashes token)
            (map_where (is_acceptable i.id opts.accepted_at) (as_accepted opts.accepted_at) rows)
          ≡ some (as_accepted opts.accepted_at i)
    claimed-found token i one one_id found n =
        claimed_found prisma.invitations (has_token hashes token) (λ r. r.id == i.id)
          (is_acceptable i.id opts.accepted_at) (as_accepted opts.accepted_at) i rows
          (same_token token) one one_id (λ r k. ground arith) (ground arith) found n

  -- A transaction that ended well left the token to an invitation that is accepted.
  abbrev EndsAccepted : String → World → Result Accepted × World → Type 0
  EndsAccepted token w x =
      (a : Accepted) (v : World)
      → finish w x ≡ (ok a, v)
      → (i : Invitation) × (prisma.invitations.find_first (has_token hashes token) v.invitations
          ≡ some (as_accepted opts.accepted_at i))

  Claimed-Ends :
      (token : String) (w : World) (i : Invitation) (x : Result Accepted × World)
      → count (has_token hashes token) w.invitations ≤ 1
      → count (λ r. r.id == i.id) w.invitations ≤ 1
      → prisma.invitations.find_first (has_token hashes token) w.invitations ≡ some i
      → Claimed w.invitations i.id x
      → EndsAccepted token w x
  Claimed-Ends token w i (err f, u) one one_id found c a v h = cc
  Claimed-Ends token w i (ok b, u) one one_id found c a v h =
      (i, ground (arith, claimed-found w.invitations token i one one_id found c.0))

  checked-Ends :
      (token : String) (w : World) (o : Option Invitation)
      → count (has_token hashes token) w.invitations ≤ 1
      → ((i : Invitation) → count (λ r. r.id == i.id) w.invitations ≤ 1)
      → prisma.invitations.find_first (has_token hashes token) w.invitations ≡ o
      → EndsAccepted token w (
          (check_invitation opts.checked_at o >>= accept_found prisma hashes opts)
            (record w { session = active }))
  checked-Ends token w none one one_id found = λ a v h. cc
  checked-Ends token w (some i) one one_id found =
      guarded (is_some i.accepted_at) (is_some i.revoked_at) (leb i.expires_at opts.checked_at)
    where
      guarded :
          (b c d : Bool)
          → EndsAccepted token w (
              continue (accept_found prisma hashes opts) (
                (if b
                    then throw (bad_request "Invitation has already been accepted")
                    else if c
                    then throw (bad_request "Invitation has been revoked")
                    else if d
                    then throw (bad_request "Invitation has expired")
                    else pure i)
                  (record w { session = active })))
      guarded true c d = λ a v h. cc
      guarded false true d = λ a v h. cc
      guarded false false true = λ a v h. cc
      guarded false false false =
          Claimed-Ends token w i _ one (one_id i) found
            (accept_found-Claimed w.invitations i (record w { session = active }) refl)

accepted-refused :
    (prisma : Prisma) (hashes : Hashes) (opts : AcceptOptions) (token : String) (at : ℕ)
    (i : Invitation) (v : World)
    → prisma.invitations.find_first (has_token hashes token) v.invitations ≡ some (as_accepted at i)
    → accept_invite prisma hashes opts token v
      ≡ (err (bad_request "Invitation has already been accepted"), v)
unfolding accept_invite
accepted-refused prisma hashes opts token at i v h = rw h refl

-- What the session is signed for was returned by the transaction.
transacted :
    {A B : Type 0} (f : A → B) (y : Result A × World) (b : B) (v : World)
    → continue (λ a. pure (f a)) y ≡ (ok b, v)
    → (a : A) × (y ≡ (ok a, v))
transacted f (ok a, u) b v h = (a, cc)
transacted f (err e, u) b v h = absurd cc

-- An invitation is accepted once: after a call that accepted it, a call with the same token fails,
-- whoever makes it and whenever, and changes nothing. Tokens and ids of invitations are unique.
pub accept_once :
    (prisma : Prisma) (hashes : Hashes) (opts opts' : AcceptOptions) (token : String) (w v : World)
    (r : Accepted × SessionPayload)
    → count (has_token hashes token) w.invitations ≤ 1
    → ((i : Invitation) → count (λ r. r.id == i.id) w.invitations ≤ 1)
    → accept_invite prisma hashes opts token w ≡ (ok r, v)
    → accept_invite prisma hashes opts' token v
      ≡ (err (bad_request "Invitation has already been accepted"), v)
unfolding accept_invite
accept_once prisma hashes opts opts' token w v r one one_id h =
    let (a, e) = transacted _ _ r v h in
    let (i, found) =
      checked-Ends prisma hashes opts token w
        (prisma.invitations.find_first (has_token hashes token) w.invitations) one one_id refl a v
        e in
    accepted-refused prisma hashes opts' token opts.accepted_at i v found
