-- ===== src/Procurement/Lifecycle.antt =====
-- The states of a purchase order, as a relation between its rows, and what follows from it.
use backend_project.Prelude.{Time, ◌≡◌, ◌≢◌, ◌∙◌, sym, ap, refl, some, arith}
use backend_project.Models.{PurchaseOrder}
use backend_project.Models.Enums.{
  PurchaseOrderStatus, draft, submitted, confirmed, received, cancelled,
}

-- One step: only these fields ever change, in these orders.
pub data Step (o : PurchaseOrder) : PurchaseOrder → Type 0 where
  submits :
      (t : Time)
      → o.status ≡ draft
      → Step o (record o { status = submitted; submitted_at = some t })
  confirms :
      (t : Time)
      → o.status ≡ submitted
      → Step o (record o { status = confirmed; confirmed_at = some t })
  receives_submitted :
      (t : Time)
      → o.status ≡ submitted
      → Step o (record o { status = received; received_at = some t })
  receives_confirmed :
      (t : Time)
      → o.status ≡ confirmed
      → Step o (record o { status = received; received_at = some t })
  cancels : o.status ≢ received → Step o (record o { status = cancelled })

pub data Reaches (o : PurchaseOrder) : PurchaseOrder → Type 0 where
  here : Reaches o o
  then : (u v : PurchaseOrder) → Reaches o u → Step u v → Reaches o v

received≢cancelled : received ≢ PurchaseOrderStatus.cancelled
received≢cancelled e = ground arith

-- An order that is received takes no step.
received-Step : (o u : PurchaseOrder) → o.status ≡ received → ¬ (Step o u)
received-Step o _ e (submits t q) = ground arith
received-Step o _ e (confirms t q) = ground arith
received-Step o _ e (receives_submitted t q) = ground arith
received-Step o _ e (receives_confirmed t q) = ground arith
received-Step o _ e (cancels q) = q e

pub received-Reaches : (o u : PurchaseOrder) → o.status ≡ received → Reaches o u → u ≡ o
received-Reaches o _ e here = refl
received-Reaches o _ e (then u v r s) =
    absurd
      (received-Step u v (ap (λ (x : PurchaseOrder). x.status) (received-Reaches o u e r) ∙ e) s)

-- One that is cancelled may be cancelled again, which changes nothing.
cancelled-Step : (o u : PurchaseOrder) → o.status ≡ PurchaseOrderStatus.cancelled → Step o u → u ≡ o
cancelled-Step o _ e (submits t q) = ground arith
cancelled-Step o _ e (confirms t q) = ground arith
cancelled-Step o _ e (receives_submitted t q) = ground arith
cancelled-Step o _ e (receives_confirmed t q) = ground arith
cancelled-Step o _ e (cancels q) = ap (λ st. record o { status = st }) (sym e)

pub cancelled-Reaches :
    (o u : PurchaseOrder) → o.status ≡ PurchaseOrderStatus.cancelled → Reaches o u → u ≡ o
cancelled-Reaches o _ e here = refl
cancelled-Reaches o _ e (then u v r s) =
    let same = cancelled-Reaches o u e r in
    cancelled-Step u v (ap (λ (x : PurchaseOrder). x.status) same ∙ e) s ∙ same
