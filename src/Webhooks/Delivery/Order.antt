-- ===== src/Webhooks/Delivery/Order.antt =====
-- Status updates arrive in any order, some of them twice.
use mathlib.Core.List.{Perm, Permᴰ}
use mathlib.Core.Path.{ap₂}
use mathlib.Core.Logic.{∥∥₁_elim}
use unified_inbox.Prelude.{
  ℕ, ◌≡◌, refl, sym, ap, subst, ◌∙◌, ◌≢◌, Option, some, List, [], ◌∷◌, arith, if◌then◌else◌, All,
  ◌⊎◌,
}
use unified_inbox.Prelude.Int.{Date}
use unified_inbox.Schema.Enums.{DeliveryStatus, delivered, read}
use unified_inbox.Schema.Rows.{Message}
use unified_inbox.Webhooks.WhatsAppPayload.{StatusUpdate}
use unified_inbox.Webhooks.Delivery.{should_apply_status_transition, apply_status, apply_all}

abbrev next_status : Option DeliveryStatus → DeliveryStatus → Option DeliveryStatus
next_status c i = if should_apply_status_transition c i then some i else c

apply_status-status :
    (now : ℕ) (u : StatusUpdate) (m : Message)
    → (apply_status now u m).delivery_status ≡ next_status m.delivery_status u.delivery_status
unfolding apply_status
apply_status-status now u m = ground arith

-- A report of success.
abbrev IsReport : StatusUpdate → Type 0
IsReport u = u.delivery_status ≢ DeliveryStatus.failed

next_status_comm :
    (c : Option DeliveryStatus) (i j : DeliveryStatus)
    → i ≢ DeliveryStatus.failed
    → j ≢ DeliveryStatus.failed
    → next_status (next_status c i) j ≡ next_status (next_status c j) i
unfolding should_apply_status_transition
next_status_comm c i j h k = ground arith

abbrev final_status : Option DeliveryStatus → List StatusUpdate → Option DeliveryStatus
final_status c [] = c
final_status c (u ∷ us) = final_status (next_status c u.delivery_status) us

apply_all-status :
    (now : ℕ) (us : List StatusUpdate) (m : Message)
    → (apply_all now us m).delivery_status ≡ final_status m.delivery_status us
unfolding apply_all
apply_all-status now [] m = refl
apply_all-status now (u ∷ us) m =
    apply_all-status now us (apply_status now u m)
    ∙ ap (λ c. final_status c us) (apply_status-status now u m)

delivered_stays_once :
    (now : ℕ) (u : StatusUpdate) (m : Message)
    → (m.delivery_status ≡ some read → (apply_status now u m).delivery_status ≡ some read)
      × (m.delivery_status ≡ some delivered
          → ((apply_status now u m).delivery_status ≡ some delivered)
            ⊎ ((apply_status now u m).delivery_status ≡ some read))
unfolding apply_status
delivered_stays_once now u m = ground arith

-- A message that was read stays read, and one that was delivered stays delivered until it is
-- read, whatever updates follow, failures too.
pub delivered_stays :
    (now : ℕ) (us : List StatusUpdate) (m : Message)
    → (m.delivery_status ≡ some read → (apply_all now us m).delivery_status ≡ some read)
      × (m.delivery_status ≡ some delivered
          → ((apply_all now us m).delivery_status ≡ some delivered)
            ⊎ ((apply_all now us m).delivery_status ≡ some read))
unfolding apply_all
delivered_stays now [] m = ground arith
delivered_stays now (u ∷ us) m =
    ground (arith, delivered_stays_once now u m, delivered_stays now us (apply_status now u m))

milestones_stay_once :
    (now : ℕ) (u : StatusUpdate) (m : Message) (d : Date)
    → (m.sent_at ≡ some d → (apply_status now u m).sent_at ≡ some d)
      × (m.delivered_at ≡ some d → (apply_status now u m).delivered_at ≡ some d)
      × (m.read_at ≡ some d → (apply_status now u m).read_at ≡ some d)
unfolding apply_status
milestones_stay_once now u m d = ground arith

-- No reports change a time at which a message was sent, delivered or read.
pub milestones_stay :
    (now : ℕ) (us : List StatusUpdate) (m : Message) (d : Date)
    → (m.sent_at ≡ some d → (apply_all now us m).sent_at ≡ some d)
      × (m.delivered_at ≡ some d → (apply_all now us m).delivered_at ≡ some d)
      × (m.read_at ≡ some d → (apply_all now us m).read_at ≡ some d)
unfolding apply_all
milestones_stay now [] m d = ground arith
milestones_stay now (u ∷ us) m d =
    ground (arith, milestones_stay_once now u m d, milestones_stay now us (apply_status now u m) d)

-- Reordered reports are reports, and they lead every status to the same one.
final_status-perm :
    {us vs : List StatusUpdate}
    → Permᴰ us vs
    → All IsReport us
    → All IsReport vs × ((c : Option DeliveryStatus) → final_status c us ≡ final_status c vs)
final_status-perm Permᴰ.nil h = (tt, λ c. refl)
final_status-perm (Permᴰ.cons {a} {b} {l₂ = rest} e p) h =
    let (k, same) = final_status-perm p h.1 in
    (
      (subst IsReport e h.0, k),
      λ c.
          same (next_status c a.delivery_status)
          ∙ ap (λ (u : StatusUpdate). final_status (next_status c u.delivery_status) rest) e,
    )
final_status-perm (Permᴰ.swap {a} {b} {a'} {b'} {l} e f) h = (
  (subst IsReport f h.1.0, (subst IsReport e h.0, h.1.1)),
  λ c.
      ap (λ t. final_status t l)
        (next_status_comm c a.delivery_status b.delivery_status h.0 h.1.0
          ∙ ap₂
              (λ (x y : StatusUpdate).
                next_status (next_status c x.delivery_status) y.delivery_status)
              f e),
)
final_status-perm (Permᴰ.trans p q) h =
    let (k, same) = final_status-perm p h in
    let (l, again) = final_status-perm q k in (l, λ c. same c ∙ again c)

DeliveryStatus-set : IsSet (Option DeliveryStatus)
DeliveryStatus-set = hlevel

-- Reports none of which is a failure lead to the same status in whatever order they arrive.
pub order_independent :
    (now : ℕ) (us vs : List StatusUpdate) (m : Message)
    → Perm us vs
    → All IsReport us
    → (apply_all now us m).delivery_status ≡ (apply_all now vs m).delivery_status
order_independent now us vs m p h = ∥∥₁_elim p (DeliveryStatus-set _ _) λ d.
    apply_all-status now us m
    ∙ (final_status-perm d h).1 m.delivery_status
    ∙ sym (apply_all-status now vs m)
