-- ===== src/Conversations/Changes/Tagged.antt =====
-- Tags that are added repeatedly (apps/api/src/conversations/conversations.service.ts).
use unified_inbox.Prelude.{
  ℕ, String, ◌≡◌, refl, sym, subst, ◌∙◌, ap, Bool, true, false, Option, none, some, List, [], ◌∷◌,
  arith, count, any, ◌==◌, ◌||◌, eq_iff,
}
use unified_inbox.Prelude.Result.{ok, pure, catching, ◌>>◌, continue, continue-ok}
use unified_inbox.Runtime.{Runtime}
use unified_inbox.Schema.Events.{tag_added}
use unified_inbox.Schema.Rows.{Conversation, Tag, ConversationTag}
use unified_inbox.Database.{Prisma, Store, Table}
use unified_inbox.Database.Statements.{World, active, finish, inserted, emit, transaction}
use unified_inbox.Auth.Base.{normalized}
use unified_inbox.Conversations.{is_conversation}
use unified_inbox.Conversations.Changes.{
  is_tag, is_link, tags_stored, tag_conversation, add_in_transaction, found_or_throw, new_tag,
  upserted, link_tag, unless_linked, add_tag_to_conversation,
}

conflict-any :
    {Row : Type 0} (t : Table Row) (p : Row → Bool) (r : Row) (rows : List Row)
    → t.create p r rows ≡ none
    → any p rows ≡ true
conflict-any t p r rows h = ground (arith, t.create_lem p r rows)

created-rows :
    {Row : Type 0} (t : Table Row) (p : Row → Bool) (r : Row) (rows rows' : List Row)
    → t.create p r rows ≡ some rows'
    → rows' ≡ r ∷ rows
created-rows t p r rows rows' h = ground (arith, t.create_lem p r rows)

module _ (prisma : Prisma) (org actor : ℕ) where
  -- The conversation has the tag, under its name.
  abbrev pub IsTagged : ℕ → String → Tag → Store → Type 0
  IsTagged id name t s =
      (c : Conversation) × (prisma.conversations.find_first (is_conversation org id) s.conversations
        ≡ some c)
      × (prisma.tags.find_first (is_tag org name) s.tags ≡ some t)
      × (any (is_link c.id t.id) s.conversation_tags ≡ true)

  tagged_again :
      (rt : Runtime) (tag_id now id : ℕ) (name : String) (t : Tag) (w : World)
      → IsTagged id (normalized rt name) t w.store
      → ((add_tag_to_conversation prisma org actor rt tag_id now id name w).0 ≡ ok t)
        × ((add_tag_to_conversation prisma org actor rt tag_id now id name w).1.store ≡ w.store)
  unfolding add_tag_to_conversation
  tagged_again rt tag_id now id name t w (c, found, tag, linked) = ground (
    arith,
    found,
    tag,
    prisma.conversation_tags.create_lem (is_link c.id t.id)
        (record { conversation_id = c.id; tag_id = t.id; created_at = now })
        w.store.conversation_tags,
  )

  -- The end of the transaction, from the world in which the tag is stored.
  linked-ok :
      (now : ℕ) (c : Conversation) (t t' : Tag) (w w1 v : World) (o : Option (List ConversationTag))
      → prisma.conversation_tags.create
          (is_link c.id t.id)
          (record { conversation_id = c.id; tag_id = t.id; created_at = now })
          w1.conversation_tags
        ≡ o
      → w1.session ≡ active
      → (o ≡ none → w1.store ≡ w.store)
      → finish w (
          continue
            (λ _. pure t)
            (catching (link_tag prisma org actor now c.id t) (unless_linked prisma org actor) w1))
        ≡ (ok t', v)
      → (t' ≡ t)
        × (v.conversations ≡ w1.conversations)
        × (v.tags ≡ w1.tags)
        × (any (is_link c.id t.id) v.conversation_tags ≡ true)
  linked-ok now c t t' w w1 v none e i same h =
      let k = ap (λ s. s.conversation_tags) (same refl) in
      let l =
        conflict-any prisma.conversation_tags (is_link c.id t.id)
          (record { conversation_id = c.id; tag_id = t.id; created_at = now }) w1.conversation_tags
          e in
      ground (arith, e, ap (λ s. s.conversations) (same refl), ap (λ s. s.tags) (same refl), k, l)
  linked-ok now c t t' w w1 v (some rows) e i same h =
      let l =
        created-rows prisma.conversation_tags (is_link c.id t.id)
          (record { conversation_id = c.id; tag_id = t.id; created_at = now }) w1.conversation_tags
          rows e in
      ground (arith, e, l)

  new_tag_found :
      (tag_id : ℕ) (name : String) (rows : List Tag)
      → prisma.tags.find_first (is_tag org name) rows ≡ none
      → prisma.tags.find_first (is_tag org name) (new_tag prisma org actor tag_id name ∷ rows)
        ≡ some (new_tag prisma org actor tag_id name)
  new_tag_found tag_id name rows h = ground (
    arith,
    (eq_iff name name).1 refl,
    prisma.tags.find_first_none (is_tag org name) rows h,
    prisma.tags.find_first_only (is_tag org name) (new_tag prisma org actor tag_id name ∷ rows),
  )

  fresh-any :
      (c tag : ℕ) (rows : List ConversationTag)
      → count (λ l. l.tag_id == tag) rows ≡ 0
      → any (is_link c tag) rows ≡ false
  fresh-any c tag [] h = refl
  fresh-any c tag (r ∷ rows) h = ground (arith, fresh-any c tag rows)

  new_tag-ok :
      (tag_id now id : ℕ) (name : String) (c : Conversation) (t : Tag) (w v : World)
      (o : Option (List Tag))
      → count (λ l. l.tag_id == tag_id) w.conversation_tags ≡ 0
      → prisma.conversations.find_first (is_conversation org id) w.conversations ≡ some c
      → prisma.tags.find_first (is_tag org name) w.tags ≡ none
      → prisma.tags.create
          (λ x. is_tag org name x || x.id == tag_id)
          (new_tag prisma org actor tag_id name)
          w.tags
        ≡ o
      → finish w (
          continue
            (λ x.
              catching (link_tag prisma org actor now c.id x) (unless_linked prisma org actor)
              >> pure x)
            (inserted prisma.aborts "organizationId,name"
              (new_tag prisma org actor tag_id name)
              (tags_stored prisma org actor w.store o)
              (record w { session = active })))
        ≡ (ok t, v)
      → IsTagged id name t v.store
  new_tag-ok tag_id now id name c t w v none fresh found e k h = absurd cc
  new_tag-ok tag_id now id name c t w v (some rows) fresh found e k h =
      let new = new_tag prisma org actor tag_id name in
      let (a, b, d, f) =
        linked-ok now c new t w
          (record w { store = record w.store { tags = rows }; session = active }) v _ refl refl
          (λ g. absurd ground (
            arith,
            conflict-any prisma.conversation_tags (is_link c.id tag_id)
                (record { conversation_id = c.id; tag_id = tag_id; created_at = now })
                w.conversation_tags g,
            fresh-any c.id tag_id w.conversation_tags fresh,
          ))
          h in
      (
        c,
        ap (prisma.conversations.find_first (is_conversation org id)) b ∙ found,
        ap (prisma.tags.find_first (is_tag org name)) (
              d
              ∙ created-rows prisma.tags (λ x. is_tag org name x || x.id == tag_id) new w.tags rows
                  k)
            ∙ new_tag_found tag_id name w.tags e
            ∙ ap some (sym a),
        ap (λ y. any (is_link c.id y.id) v.conversation_tags) a ∙ f,
      )

  -- The transaction after the lookup of the tag.
  tag-ok :
      (tag_id now id : ℕ) (name : String) (c : Conversation) (t : Tag) (w v : World)
      (o : Option Tag)
      → count (λ l. l.tag_id == tag_id) w.conversation_tags ≡ 0
      → prisma.conversations.find_first (is_conversation org id) w.conversations ≡ some c
      → prisma.tags.find_first (is_tag org name) w.tags ≡ o
      → finish w (
          continue
            (λ x.
              catching (link_tag prisma org actor now c.id x) (unless_linked prisma org actor)
              >> pure x)
            (upserted prisma org actor tag_id name o (record w { session = active })))
        ≡ (ok t, v)
      → IsTagged id name t v.store
  tag-ok tag_id now id name c t w v (some x) fresh found e h =
      let (a, b, d, f) =
        linked-ok now c x t w (record w { session = active }) v _ refl refl (λ _. refl) h in
      (
        c,
        ap (prisma.conversations.find_first (is_conversation org id)) b ∙ found,
        ap (prisma.tags.find_first (is_tag org name)) d ∙ e ∙ ap some (sym a),
        ap (λ y. any (is_link c.id y.id) v.conversation_tags) a ∙ f,
      )
  tag-ok tag_id now id name c t w v none fresh found e h =
      new_tag-ok tag_id now id name c t w v _ fresh found e refl h

  conversation-ok :
      (tag_id now id : ℕ) (name : String) (t : Tag) (w v : World) (o : Option Conversation)
      → count (λ l. l.tag_id == tag_id) w.conversation_tags ≡ 0
      → prisma.conversations.find_first (is_conversation org id) w.conversations ≡ o
      → finish w (
          continue
            (tag_conversation prisma org actor tag_id now name)
            (found_or_throw prisma org actor o (record w { session = active })))
        ≡ (ok t, v)
      → IsTagged id name t v.store
  conversation-ok tag_id now id name t w v none fresh found h = absurd cc
  conversation-ok tag_id now id name t w v (some c) fresh found h =
      tag-ok tag_id now id name c t w v _ fresh found refl h

  emitted-ok :
      (id : ℕ) (t t' : Tag) (u v : World)
      → (emit org (record { event = tag_added t'.id t'.name; conversation_id = id }) >> pure t') u
        ≡ (ok t, v)
      → (t' ≡ t) × (u.store ≡ v.store)
  emitted-ok id t t' u v h = (cc, cc)

  -- After a tag was added, it is the tag that the conversation has under the name, and adding the
  -- same name again, with whatever id and time, gives that tag and leaves the database as it is. The
  -- first call's id is not that of a tag that a conversation has.
  pub add_tag_twice :
      (rt : Runtime) (tag_id tag_id' now now' id : ℕ) (name name' : String) (t : Tag) (w v : World)
      → count (λ l. l.tag_id == tag_id) w.conversation_tags ≡ 0
      → normalized rt name' ≡ normalized rt name
      → add_tag_to_conversation prisma org actor rt tag_id now id name w ≡ (ok t, v)
      → IsTagged id (normalized rt name) t v.store
        × ((add_tag_to_conversation prisma org actor rt tag_id' now' id name' v).0 ≡ ok t)
        × ((add_tag_to_conversation prisma org actor rt tag_id' now' id name' v).1.store ≡ v.store)
  unfolding add_tag_to_conversation
  add_tag_twice rt tag_id tag_id' now now' id name name' t w v fresh same h =
      let (t', u, e, h1) =
        continue-ok
          (λ x. emit org (record { event = tag_added x.id x.name; conversation_id = id }) >> pure x)
          (transaction (add_in_transaction prisma org actor tag_id now id (normalized rt name)) w) t
          v h in
      let (st, ss) = emitted-ok id t t' u v h1 in
      let tagged = subst (IsTagged id (normalized rt name) t) ss (
        subst (λ y. IsTagged id (normalized rt name) y u.store) st
          (conversation-ok tag_id now id (normalized rt name) t' w u _ fresh refl e)) in
      let (again, kept) =
        tagged_again rt tag_id' now' id name' t v
          (subst (λ n. IsTagged id n t v.store) (sym same) tagged) in
      (tagged, again, kept)
