-- ===== src/Team/Invites/Created.antt =====
-- What a successful createInvite leaves (apps/api/src/team/team.service.ts).
use unified_inbox.Prelude.{
  ℕ, String, ◌≡◌, refl, sym, subst, ◌∙◌, ap, Bool, true, false, Option, none, some, List, [], ◌∷◌,
  arith, count, ◌&&◌, leb, ltb, is_some, eq_iff, Bool-cases, inl, inr, any, not, str_eq,
  if◌then◌else◌,
}
use unified_inbox.Prelude.Result.{
  Failure, http, unique_violation, error, non_retryable, delivery_error, Result, ok, ok-injective,
  err, handle, continue-ok, continue, Exec, pure, throw, bad_request, ◌>>=◌, ◌>>◌,
}
use unified_inbox.Runtime.{Runtime}
use unified_inbox.Schema.Enums.{Role}
use unified_inbox.Schema.Rows.{Membership, Invitation}
use unified_inbox.Auth.Base.{filled, normalized}
use unified_inbox.Database.{Prisma, Store, map_where}
use unified_inbox.Database.Unique.{any-count}
use unified_inbox.Database.Statements.{World, finish, insert, audit}
use unified_inbox.Team.{is_pending_for}
use unified_inbox.Team.Members.Steps.{as_owner-then, IsOwnerIn, opened}
use unified_inbox.Team.Invites.{
  NewInvite, InviteLink, KnownMember, invite_role, find_known, invitation, on_create_error,
  create_in_transaction, create_invite, check_known, check_pending, has_password, add_invitation,
  created, is_expired_for, as_revoked,
}

module _ (prisma : Prisma) (org actor : ℕ) where
  -- Nobody who can sign in.
  abbrev pub IsOutsider : Option KnownMember → Type 0
  IsOutsider none = Unit
  IsOutsider (some k) = is_some (filled k.user.password_hash) ≡ false

  -- The invitation that a call of an owner stores.
  abbrev pub expected :
      (String → String) → NewInvite → String → Role → Store → Membership → Invitation
  expected hash new email r s a = record {
    id = new.id;
    email = email;
    role = invite_role prisma org actor r (find_known prisma org actor email s);
    token_hash = hash new.raw_token;
    expires_at = new.expires_at;
    accepted_at = none;
    revoked_at = none;
    organization_id = org;
    created_by_membership_id = a.id;
    created_at = new.now;
  }

  pub record IsCreated (hash : String → String) (new : NewInvite) (email : String) (r : Role)
      (w v : World) (a : Membership) : Type 0 where
    -- the creator is an owner
    pub by_owner : IsOwnerIn prisma org actor w a
    -- the address is not one of a member who has a password
    pub outsider : IsOutsider (find_known prisma org actor email w.store)
    -- before, every pending invitation to the address had expired
    pub was_free :
        count (λ i. is_pending_for org email i && ltb new.now i.expires_at) w.invitations ≡ 0
    -- those are revoked, and nothing else becomes of the invitations
    pub stored :
        v.invitations
        ≡ expected hash new email r w.store a
          ∷ map_where
              (λ i. is_pending_for org email i && leb i.expires_at new.now)
              (λ i. record i { revoked_at = some new.now })
              w.invitations
    -- the new one is the only pending one
    pub only : count (is_pending_for org email) v.invitations ≡ 1

  free_before :
      (email : String) (now : ℕ) (rows : List Invitation)
      → any (is_pending_for org email) (
          map_where
            (λ i. is_pending_for org email i && leb i.expires_at now)
            (λ i. record i { revoked_at = some now })
            rows)
        ≡ false
      → count (λ i. is_pending_for org email i && ltb now i.expires_at) rows ≡ 0
  free_before email now [] h = refl
  free_before email now (i ∷ rows) h = ground (arith, free_before email now rows)

  known-same :
      (email : String) (rows : List Invitation) (s : Store)
      → find_known prisma org actor email (record s { invitations = rows })
        ≡ find_known prisma org actor email s
  unfolding find_known
  known-same email rows s = refl

  -- The invitations without the expired ones.
  abbrev freed : String → ℕ → List Invitation → List Invitation
  freed email now rows =
      map_where (λ i. is_pending_for org email i && leb i.expires_at now)
        (λ i. record i { revoked_at = some now }) rows

  module _ {B : Type 0} (P : Result B × World → Type 0) (w : World)
      (on_throw : (f : Failure) → P (err f, w)) (k : Unit {0} → Exec World B) where
    after_text :
        (b : Bool) (hash : String)
        → (is_some (if b then none else some hash) ≡ false → P (k tt w))
        → P (
            continue k (
              (if not b
                  then throw (bad_request "User is already a member of this organization")
                  else pure tt)
                w))
    after_text true hash next = next refl
    after_text false hash next = on_throw _

    after_hash :
        (o : Option String)
        → (is_some (filled o) ≡ false → P (k tt w))
        → P (
            continue k (
              (if has_password prisma org actor o
                  then throw (bad_request "User is already a member of this organization")
                  else pure tt)
                w))
    after_hash none next = next refl
    after_hash (some hash) next = after_text (str_eq hash "") hash next

    check_known-then :
        (o : Option KnownMember)
        → (IsOutsider o → P (k tt w))
        → P ((check_known prisma org actor o >>= k) w)
    check_known-then none next = next tt
    check_known-then (some m) next = after_hash m.user.password_hash next

    check_pending-then :
        (o : Option Invitation) → P (k tt w) → P ((check_pending prisma org actor o >>= k) w)
    check_pending-then none next = next
    check_pending-then (some i) next = on_throw _

  abbrev EndsCreated :
      (String → String) → NewInvite → String → Role → World → Result Invitation × World → Type 0
  EndsCreated hash new email r w x =
      (i : Invitation) (v : World)
      → finish w x ≡ (ok i, v)
      → (i.id ≡ new.id) × ((a : Membership) × IsCreated hash new email r w v a)

  -- The row is stored where the constraint allows it.
  inserted-ok :
      (hash : String → String) (new : NewInvite) (email : String) (k : Role) (a : Membership)
      (w u : World) (rows : List Invitation) (j : Invitation)
      → finish w (
          (insert prisma.aborts "invitations_org_email_pending_unique"
                (add_invitation prisma org actor (invitation prisma org actor hash new email k a))
                tt
              >> (audit (created prisma org actor (invitation prisma org actor hash new email k a))
                  >> pure (invitation prisma org actor hash new email k a)))
            (record (opened w) { store = record w.store { invitations = rows } }))
        ≡ (ok j, u)
      → (j ≡ invitation prisma org actor hash new email k a)
        × (u.invitations ≡ invitation prisma org actor hash new email k a ∷ rows)
        × (any (is_pending_for org email) rows ≡ false)
  inserted-ok hash new email k a w u rows j h =
      let c =
        prisma.invitations.create_lem (is_pending_for org email)
          (invitation prisma org actor hash new email k a) rows in
      elim (Bool-cases (any (is_pending_for org email) rows)) [
        | inl p ↦ absurd ground arith
        | inr p ↦ (ground arith, ground arith, p)
      ]

  new-only :
      (hash : String → String) (new : NewInvite) (email : String) (k : Role) (a : Membership)
      (rows : List Invitation)
      → any (is_pending_for org email) rows ≡ false
      → count (is_pending_for org email) (invitation prisma org actor hash new email k a ∷ rows) ≡ 1
  new-only hash new email k a rows h =
      ground (arith, any-count (is_pending_for org email) rows h, (eq_iff email email).1 refl)

  stored-Created :
      (hash : String → String) (new : NewInvite) (email : String) (r k : Role) (a : Membership)
      (w : World) (rows : List Invitation)
      → IsOwnerIn prisma org actor w a
      → IsOutsider (find_known prisma org actor email w.store)
      → rows ≡ freed email new.now w.invitations
      → k ≡ invite_role prisma org actor r (find_known prisma org actor email w.store)
      → EndsCreated hash new email r w (
          (insert prisma.aborts "invitations_org_email_pending_unique"
                (add_invitation prisma org actor (invitation prisma org actor hash new email k a))
                tt
              >> (audit (created prisma org actor (invitation prisma org actor hash new email k a))
                  >> pure (invitation prisma org actor hash new email k a)))
            (record (opened w) { store = record w.store { invitations = rows } }))
  stored-Created hash new email r k a w rows o out e x j u h =
      let (same, stored, free) = inserted-ok hash new email k a w u rows j h in
      (
        ap (λ i. i.id) same,
        (
          a,
          record {
            by_owner = o;
            outsider = out;
            was_free =
                free_before email new.now w.invitations
                  (ap (any (is_pending_for org email)) (sym e) ∙ free);
            stored =
                stored
                ∙ ap (λ y. invitation prisma org actor hash new email y a ∷ rows) x
                ∙ ap (λ y. expected hash new email r w.store a ∷ y) e;
            only =
                ap (count (is_pending_for org email)) stored
                ∙ new-only hash new email k a rows free;
          },
        ),
      )

  create_in_transaction-Created :
      (hash : String → String) (new : NewInvite) (email : String) (r : Role) (w v : World)
      (i : Invitation)
      → create_in_transaction prisma org actor hash new email r w ≡ (ok i, v)
      → (i.id ≡ new.id) × ((a : Membership) × IsCreated hash new email r w v a)
  create_in_transaction-Created hash new email r w v i =
      as_owner-then prisma org actor (EndsCreated hash new email r w) w (λ f j u h. cc) _
        (λ a o j u h.
          let rows =
            (prisma.invitations.update_many (is_expired_for org email new.now) (as_revoked new.now)
              w.invitations).0 in
          let k = find_known prisma org actor email (record w.store { invitations = rows }) in
          check_known-then (EndsCreated hash new email r w) _ (λ f j u h. cc) _ k
            (λ out.
              check_pending-then (EndsCreated hash new email r w) _ (λ f j u h. cc) _
                (prisma.invitations.find_first (is_pending_for org email) rows)
                (stored-Created hash new email r (invite_role prisma org actor r k) a w rows o
                  (subst IsOutsider (known-same email rows w.store) out)
                  (ap (λ y. y.0)
                    (prisma.invitations.update_many_lem (is_expired_for org email new.now)
                      (as_revoked new.now) w.invitations))
                  (ap (invite_role prisma org actor r) (known-same email rows w.store))))
            j u h)
        i v

  -- Only a transaction that ends well gives an invitation.
  handled-ok :
      (x : Result Invitation × World) (i : Invitation) (v : World)
      → handle (on_create_error prisma org actor) x ≡ (ok i, v)
      → x ≡ (ok i, v)
  handled-ok (ok a, u) i v h = h
  handled-ok (err (http s m c), u) i v h = absurd cc
  handled-ok (err (unique_violation t), u) i v h = absurd ground arith
  handled-ok (err (error m), u) i v h = absurd cc
  handled-ok (err (non_retryable m), u) i v h = absurd cc
  handled-ok (err (delivery_error m), u) i v h = absurd cc

  -- An invitation that was created was created by an owner, for an address that is not one of a
  -- member with a password and to which there was no pending invitation but expired ones. Those are
  -- revoked, and the new one, with the hash of its token, is stored before them and is the only
  -- pending one to the address.
  pub create_invite-IsCreated :
      (rt : Runtime) (url : Option String) (hash : String → String) (new : NewInvite)
      (email : String) (r : Role) (w v : World) (l : InviteLink)
      → create_invite prisma org actor rt url hash new email r w ≡ (ok l, v)
      → (l.invite_id ≡ new.id)
        × ((a : Membership) × IsCreated hash new (normalized rt email) r w v a)
  unfolding create_invite
  create_invite-IsCreated rt url hash new email r w v l h =
      let (i, u, e, h1) =
        continue-ok _
          (handle (on_create_error prisma org actor)
            (create_in_transaction prisma org actor hash new (normalized rt email) r w))
          l v h in
      let (same, (a, c)) =
        create_in_transaction-Created hash new (normalized rt email) r w u i (handled-ok _ i u e) in
      (
        ap (λ x. x.invite_id) (sym (ok-injective (ap (λ x. x.0) h1))) ∙ same,
        (a, subst (λ x. IsCreated hash new (normalized rt email) r w x a) (ap (λ x. x.1) h1) c),
      )
