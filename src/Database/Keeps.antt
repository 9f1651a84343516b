-- ===== src/Database/Keeps.antt =====
-- Invariants of the tables: one rule for each way to build an action. An action keeps a property
-- of the store whether it returns or throws.
use unified_inbox.Prelude.{
  ◌≡◌, refl, Bool, true, false, Option, none, some, List, if◌then◌else◌, ℕ, [], ◌∷◌, All,
}
use unified_inbox.Prelude.Result.{
  Failure, Result, ok, err, Exec, pure, throw, catching, handle, continue, ◌>>=◌,
}
use unified_inbox.Schema.Events.{SseEvent}
use unified_inbox.Database.{Store, map_where, Table}
use unified_inbox.Database.Statements.{
  World, Session, idle, active, aborted, query, write, insert, inserted, transaction, finish,
  commit, gate, emit,
}

pub record Keeps {A : Type 0} (P : Store → Type 0) (m : Exec World A) : Type 0 where
  pub at : (w : World) → P w.store → P (m w).1.store

module _ {A : Type 0} (P : Store → Type 0) where
  gate-keeps :
      (s : Session) (r : Result A × World) (w : World)
      → P w.store
      → P r.1.store
      → P (gate s r w).1.store
  gate-keeps idle r w h k = k
  gate-keeps active r w h k = k
  gate-keeps aborted r w h k = h

  commit-keeps :
      (s : Session) (r : Result A) (v w : World)
      → P w.store
      → P v.store
      → P (commit s r v w).1.store
  commit-keeps idle r v w h k = k
  commit-keeps active r v w h k = k
  commit-keeps aborted r v w h k = h

  finish-keeps :
      (w : World) (r : Result A × World) → P w.store → P r.1.store → P (finish w r).1.store
  finish-keeps w (ok a, v) h k = commit-keeps v.session (ok a) v w h k
  finish-keeps w (err f, v) h k = h

module _ {A : Type 0} {P : Store → Type 0} where
  pub Keeps-pure : (a : A) → Keeps P (pure a)
  Keeps-pure a = record { at = λ w h. h }

  pub Keeps-throw : (f : Failure) → Keeps P (throw {A = A} f)
  Keeps-throw f = record { at = λ w h. h }

  pub Keeps-query : (f : Store → A) → Keeps P (query f)
  Keeps-query f = record { at = λ w h. gate-keeps P w.session (ok (f w.store), w) w h h }

  pub Keeps-write : (f : Store → Store × A) → ((s : Store) → P s → P (f s).0) → Keeps P (write f)
  Keeps-write f k = record {
    at = λ w h.
        gate-keeps P w.session (ok (f w.store).1, record w { store = (f w.store).0 }) w h
          (k w.store h);
  }

  inserted-keeps :
      (aborts : Bool) (c : _) (a : A) (o : Option Store) (w : World)
      → P w.store
      → ((s : Store) → o ≡ some s → P s)
      → P (inserted aborts c a o w).1.store
  inserted-keeps aborts c a none w h k = h
  inserted-keeps aborts c a (some s) w h k = k s refl

  pub Keeps-insert :
      (aborts : Bool) (c : _) (f : Store → Option Store) (a : A)
      → ((s s' : Store) → P s → f s ≡ some s' → P s')
      → Keeps P (insert aborts c f a)
  Keeps-insert aborts c f a k = record {
    at = λ w h.
        gate-keeps P w.session (inserted aborts c a (f w.store) w) w h
          (inserted-keeps aborts c a (f w.store) w h (λ s. k w.store s h));
  }

  pub Keeps-transaction : (m : Exec World A) → Keeps P m → Keeps P (transaction m)
  Keeps-transaction m k = record {
    at = λ w h.
        finish-keeps P w (m (record w { session = active })) h
          (k.at (record w { session = active }) h);
  }

  handle-keeps :
      (g : Failure → Exec World A) (r : Result A × World)
      → ((f : Failure) → Keeps P (g f))
      → P r.1.store
      → P (handle g r).1.store
  handle-keeps g (ok a, v) k h = h
  handle-keeps g (err f, v) k h = (k f).at v h

  pub Keeps-catching :
      (m : Exec World A) (g : Failure → Exec World A)
      → Keeps P m
      → ((f : Failure) → Keeps P (g f))
      → Keeps P (catching m g)
  Keeps-catching m g k l = record { at = λ w h. handle-keeps g (m w) l (k.at w h) }

  pub Keeps-if :
      (b : Bool) (m n : Exec World A)
      → (b ≡ true → Keeps P m)
      → (b ≡ false → Keeps P n)
      → Keeps P (if b then m else n)
  Keeps-if true m n k l = k refl
  Keeps-if false m n k l = l refl

module _ {A B : Type 0} {P : Store → Type 0} where
  continue-keeps :
      (f : A → Exec World B) (r : Result A × World)
      → ((a : A) → Keeps P (f a))
      → P r.1.store
      → P (continue f r).1.store
  continue-keeps f (ok a, v) k h = (k a).at v h
  continue-keeps f (err e, v) k h = h

  pub Keeps-bind :
      (m : Exec World A) (f : A → Exec World B)
      → Keeps P m
      → ((a : A) → Keeps P (f a))
      → Keeps P (m >>= f)
  Keeps-bind m f k l = record { at = λ w h. continue-keeps f (m w) l (k.at w h) }

module _ {P : Store → Type 0} where
  pub Keeps-emit : (org : ℕ) (event : SseEvent) → Keeps P (emit org event)
  Keeps-emit org event = record { at = λ w h. h }

pub ruleset keeps_rules = (
  Keeps-pure, Keeps-throw, Keeps-query, Keeps-write, Keeps-insert, Keeps-transaction,
  Keeps-catching, Keeps-if, Keeps-bind, Keeps-emit,
)

-- An update keeps what it keeps of each row that it changes.
pub All-map_where :
    {Row : Type 0} (P : Row → Type 0) (p : Row → Bool) (f : Row → Row) (rows : List Row)
    → ((r : Row) → p r ≡ true → P r → P (f r))
    → All P rows
    → All P (map_where p f rows)
All-map_where P p f [] k h = tt
All-map_where P p f (r ∷ rows) k h = (changed (p r) (k r), All-map_where P p f rows k h.1)
  where
    changed : (b : Bool) → (b ≡ true → P r → P (f r)) → P (if b then f r else r)
    changed true k' = k' refl h.0
    changed false k' = h.0

pub All-update_many :
    {Row : Type 0} (t : Table Row) (P : Row → Type 0) (p : Row → Bool) (f : Row → Row)
    (rows : List Row)
    → ((r : Row) → p r ≡ true → P r → P (f r))
    → All P rows
    → All P (t.update_many p f rows).0
All-update_many t P p f rows k h = rw (t.update_many_lem p f rows) (All-map_where P p f rows k h)
