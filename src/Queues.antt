-- ===== src/Queues.antt =====
-- apps/api/src/webhooks/webhooks.queue.service.ts and src/outbound/outbound.queue.service.ts: which
-- queue a process uses. BullMQ is not of this repository: it is a parameter.
use Prim.Native.String.{◌++◌ as concat}
use unified_inbox.Prelude.{
  ℕ, String, ◌≡◌, Bool, true, false, Option, none, some, List, ◌∷◌, any, ◌==◌, if◌then◌else◌,
}
use unified_inbox.Prelude.Result.{Result, ok, err, error, Exec}
use unified_inbox.Runtime.{Env, trimmed, env_is}
use unified_inbox.Database.Statements.{World}

-- Whether the job of this row is one of the jobs.
abbrev pub is_queued : ℕ → List ℕ → Bool
is_queued id jobs = any (λ job. job == id) jobs

-- A queue of BullMQ. The id of a job names the row that the job is about, so that the row's id
-- stands for it.
pub record BullMq : Type 0 where
  -- `add` of a job with its `jobId`: the jobs that the queue has after it, waiting, running or kept
  -- after they ended, none where Redis failed
  pub add : ℕ → List ℕ → Option (List ℕ)
  -- the message of the failure
  pub failure : String
  -- a job whose id the queue has is ignored
  pub add_lem :
      (id : ℕ) (jobs after : List ℕ)
      → add id jobs ≡ some after
      → after ≡ (if is_queued id jobs then jobs else id ∷ jobs)

-- Before the module is initialized a queue is neither.
pub data Mode : Type 0 where
  uninitialized inline_fallback : Mode
  bull_mq : BullMq → Mode

abbrev without_redis : String → Bool → Bool → Result Mode
without_redis work true dev =
    err (error (concat "REDIS_URL is required in production for durable " work))
without_redis work false false =
    err (error "REDIS_URL is required unless ENABLE_DEV_ENDPOINTS=true in non-production")
without_redis work false true = ok inline_fallback

abbrev mode_of : BullMq → String → Bool → Bool → Option String → Result Mode
mode_of queue work production dev (some url) = ok (bull_mq queue)
mode_of queue work production dev none = without_redis work production dev

-- `onModuleInit`, of the queue of this work.
unfoldable pub on_module_init : BullMq → String → Env → Result Mode
on_module_init queue work env =
    mode_of queue work (env_is env.node_env "production") (env_is env.enable_dev_endpoints "true")
      (trimmed env.redis_url)

abbrev webhook_added : BullMq → World → Option (List ℕ) → Result (Unit {0}) × World
webhook_added queue w none = (err (error queue.failure), w)
webhook_added queue w (some jobs) = (ok tt, record w { webhook_jobs = jobs })

-- `enqueue` of the webhook queue: a job for BullMQ, or one that runs when the handler is done.
unfoldable pub enqueue : Mode → ℕ → Exec World Unit
enqueue uninitialized id w = (err (error "Webhook queue is not initialized"), w)
enqueue (bull_mq queue) id w = webhook_added queue w (queue.add id w.webhook_jobs)
enqueue inline_fallback id w = (ok tt, record w { webhook_jobs = id ∷ w.webhook_jobs })

abbrev outbound_added : BullMq → World → Option (List ℕ) → Result (Unit {0}) × World
outbound_added queue w none = (err (error queue.failure), w)
outbound_added queue w (some jobs) = (ok tt, record w { outbound_jobs = jobs })

-- `enqueue` of the outbound queue.
unfoldable pub enqueue_outbound : Mode → ℕ → Exec World Unit
enqueue_outbound uninitialized id w = (err (error "Outbound queue is not initialized"), w)
enqueue_outbound (bull_mq queue) id w = outbound_added queue w (queue.add id w.outbound_jobs)
enqueue_outbound inline_fallback id w = (ok tt, record w { outbound_jobs = id ∷ w.outbound_jobs })
