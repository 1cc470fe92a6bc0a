-- ===== src/Domain/Enums.antt =====
-- backend/src/domain/enums.ts: the closed sets that the lifecycle is built of.
use text.Mathlib.Text.{◌==◌ as str_eq}
use mathlib.Core.Logic.{◌↔◌}
use skrynia.Prelude.{String, List, [], ◌∷◌, Bool, true, false, any, arith, ◌≡◌}
use skrynia.Prelude.Table.{Eq}

pub data OrderStatus : Type 0 where
  pending paid in_progress delivered disputed completed refunded canceled : OrderStatus

pub data ProductStatus : Type 0 where
  active paused blocked deleted : ProductStatus

pub data DisputeStatus : Type 0 where
  open_dispute resolving resolved resolution_failed : DisputeStatus

pub data DisputeDecision : Type 0 where
  refund release : DisputeDecision

pub data DeliveryType : Type 0 where
  manual instant : DeliveryType

pub data Role : Type 0 where
  user moderator admin : Role

pub data CurrencyCode : Type 0 where
  uah usd eur : CurrencyCode

abbrev pub same_status : OrderStatus → OrderStatus → Bool
same_status pending pending = true
same_status paid paid = true
same_status in_progress in_progress = true
same_status delivered delivered = true
same_status disputed disputed = true
same_status completed completed = true
same_status refunded refunded = true
same_status canceled canceled = true
same_status _ _ = false

abbrev pub same_currency : CurrencyCode → CurrencyCode → Bool
same_currency uah uah = true
same_currency usd usd = true
same_currency eur eur = true
same_currency _ _ = false

abbrev pub same_decision : DisputeDecision → DisputeDecision → Bool
same_decision refund refund = true
same_decision release release = true
same_decision _ _ = false

pub same_status_iff : (a b : OrderStatus) → (same_status a b ≡ true) ↔ (a ≡ b)
same_status_iff a b = ((λ h. ground arith), (λ h. ground arith))

pub same_currency_iff : (a b : CurrencyCode) → (same_currency a b ≡ true) ↔ (a ≡ b)
same_currency_iff a b = ((λ h. ground arith), (λ h. ground arith))

pub same_decision_iff : (a b : DisputeDecision) → (same_decision a b ≡ true) ↔ (a ≡ b)
same_decision_iff a b = ((λ h. ground arith), (λ h. ground arith))

instance abbrev pub status_eq : Eq OrderStatus
status_eq = record { beq = same_status; beq_iff = same_status_iff }

instance abbrev pub currency_eq : Eq CurrencyCode
currency_eq = record { beq = same_currency; beq_iff = same_currency_iff }

instance abbrev pub decision_eq : Eq DisputeDecision
decision_eq = record { beq = same_decision; beq_iff = same_decision_iff }

-- The wire names, in the order of the source.
abbrev pub order_statuses : List String
order_statuses =
    "pending" ∷ "paid" ∷ "in_progress" ∷ "delivered" ∷ "disputed" ∷ "completed" ∷ "refunded"
    ∷ "canceled" ∷ []

pub status_name : OrderStatus → String
status_name pending = "pending"
status_name paid = "paid"
status_name in_progress = "in_progress"
status_name delivered = "delivered"
status_name disputed = "disputed"
status_name completed = "completed"
status_name refunded = "refunded"
status_name canceled = "canceled"

abbrev pub includes : List String → String → Bool
includes values value = any (λ v. str_eq v value) values

unfoldable pub is_order_status : String → Bool
is_order_status value = includes order_statuses value
