-- ===== src/Database/Statements.antt =====
-- One statement of a service on the database, inside and outside a transaction, and what else a
-- service leaves behind: events for the clients and jobs in the queues.
use unified_inbox.Prelude.{ℕ, String, Bool, true, false, Option, none, some, List, [], ◌∷◌}
use unified_inbox.Prelude.Result.{Failure, unique_violation, error, Result, ok, err, Exec}
use unified_inbox.Schema.Rows.{AuditLog}
use unified_inbox.Schema.Events.{SseEvent}
use unified_inbox.Database.{Store, empty_store}

-- A request to a provider's send endpoint.
pub record Request : Type 0 where
  pub endpoint : String
  pub token : String
  pub to : String
  pub text : String

-- An email of the auth service: its kind and address, the link in it, and the key under which the
-- provider sends it once.
pub data EmailKind : Type 0 where
  password_reset email_verification : EmailKind

pub record Email : Type 0 where
  pub kind : EmailKind
  pub to : String
  pub action_url : String
  pub expires_at : ℕ
  pub delivery_id : ℕ

-- Whether a transaction is open, and whether a statement in it failed.
pub data Session : Type 0 where
  idle active aborted : Session

pub record World : Type 0 where
  pub store : Store
  pub open store use *
  pub session : Session
  -- published events with their organization, and queued jobs, newest first
  pub events : List (ℕ × SseEvent)
  pub webhook_jobs : List ℕ
  pub outbound_jobs : List ℕ
  -- requests sent to the providers, newest first
  pub requests : List Request
  -- emails handed to the transport, newest first
  pub emails : List Email

abbrev pub empty_world : World
empty_world = record {
  store = empty_store;
  session = idle;
  events = [];
  webhook_jobs = [];
  outbound_jobs = [];
  requests = [];
  emails = [];
}

abbrev pub aborted_error : Failure
aborted_error =
    error "current transaction is aborted, commands ignored until end of transaction block"

abbrev after_failure : Bool → Session → Session
after_failure aborts idle = idle
after_failure true active = aborted
after_failure false active = active
after_failure aborts aborted = aborted

module _ {A : Type 0} where
  -- A statement in an aborted transaction is refused.
  abbrev pub gate : Session → Result A × World → World → Result A × World
  gate idle r w = r
  gate active r w = r
  gate aborted r w = (err aborted_error, w)

  -- A statement that reads.
  abbrev pub query : (Store → A) → Exec World A
  query f w = gate w.session (ok (f w.store), w) w

  -- A statement that writes and gives a result.
  abbrev pub write : (Store → Store × A) → Exec World A
  write f w = let (s, a) = f w.store in gate w.session (ok a, record w { store = s }) w

  abbrev pub inserted : Bool → String → A → Option Store → World → Result A × World
  inserted aborts constraint a (some s) w = (ok a, record w { store = s })
  inserted aborts constraint a none w =
      (err (unique_violation constraint), record w { session = after_failure aborts w.session })

  -- `create`: the new row, or the unique constraint that it violates.
  abbrev pub insert : Bool → String → (Store → Option Store) → A → Exec World A
  insert aborts constraint f a w = gate w.session (inserted aborts constraint a (f w.store) w) w

  abbrev pub commit : Session → Result A → World → World → Result A × World
  commit idle r w' w = (r, record w' { session = idle })
  commit active r w' w = (r, record w' { session = idle })
  commit aborted r w' w = (r, w)

  abbrev pub finish : World → Result A × World → Result A × World
  finish w (ok a, w') = commit w'.session (ok a) w' w
  finish w (err e, w') = (err e, w)

  -- `prisma.$transaction(body)`: a body that throws is rolled back, and so is one that ends in an
  -- aborted transaction.
  abbrev pub transaction : Exec World A → Exec World A
  transaction body w = finish w (body (record w { session = active }))

-- `auditLog.create`
abbrev pub audit : AuditLog → Exec World Unit
audit entry = write (λ s. (record s { audit_logs = entry ∷ s.audit_logs }, tt))

-- `eventsService.emit`, whose delivery no service waits for.
abbrev pub emit : ℕ → SseEvent → Exec World Unit
emit organization_id event w = (ok tt, record w { events = (organization_id, event) ∷ w.events })
