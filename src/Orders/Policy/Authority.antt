-- ===== src/Orders/Policy/Authority.antt =====
-- Who may move an order: `assertActorPermission` of
-- backend/src/modules/orders/order-transition.service.ts as a proposition.
use mathlib.Core.Logic.{◌↔◌}
use skrynia.Prelude.{ℕ, ◌≡◌, ◌⊎◌, true, Option, some, arith, ◌&&◌}
use skrynia.Domain.Enums.{OrderStatus, Role, admin}
use skrynia.Common.Errors.{ok}
use skrynia.Db.Rows.{
  OrderRow, OrderTransitionRole, OrderTransitionReason, buyer, seller, participant, admin_role,
  payment_provider_role, auto_release, test_payment, system,
}
use skrynia.Orders.Policy.{permission, policy_to, policy_roles, has_role, same_id, is_admin}
use skrynia.Orders.Transitions.{has_status}

-- What each role says of the actor.
abbrev pub IsGenuine : OrderRow → Option ℕ → OrderTransitionRole → Option Role → Type 0
IsGenuine o id buyer stored = id ≡ some o.buyer_id
IsGenuine o id seller stored = id ≡ some o.seller_id
IsGenuine o id participant stored = (id ≡ some o.buyer_id) ⊎ (id ≡ some o.seller_id)
IsGenuine o id admin_role stored = stored ≡ some admin
IsGenuine o id payment_provider_role stored = Unit {0}
IsGenuine o id auto_release stored = Unit {0}
IsGenuine o id test_payment stored = id ≡ some o.buyer_id
IsGenuine o id system stored = Unit {0}

same_id_iff : (a b : Option ℕ) → (same_id a b ≡ true) ↔ (a ≡ b)
same_id_iff a b = ((λ h. ground arith), (λ h. ground arith))

is_admin_iff : (r : Option Role) → (is_admin r ≡ true) ↔ (r ≡ some admin)
is_admin_iff r = ((λ h. ground arith), (λ h. ground arith))

module _ (o : OrderRow) (id : Option ℕ) (stored : Option Role) where
  -- An actor gets through exactly where the reason allows the status and the role, and the role is
  -- the actor's own: the order's buyer or seller, either of them, or an administrator.
  pub permission_iff :
      (role : OrderTransitionRole) (reason : OrderTransitionReason) (to : OrderStatus)
      → (permission o (record { id = id; role = role }) reason to stored ≡ ok tt) ↔ (
          (has_status to (policy_to reason) && has_role role (policy_roles reason) ≡ true)
          × IsGenuine o id role stored)
  unfolding permission
  permission_iff buyer reason to = (
    (λ h. ground (arith, same_id_iff id (some o.buyer_id))),
    (λ h. ground (arith, same_id_iff id (some o.buyer_id))),
  )
  permission_iff seller reason to = (
    (λ h. ground (arith, same_id_iff id (some o.seller_id))),
    (λ h. ground (arith, same_id_iff id (some o.seller_id))),
  )
  permission_iff participant reason to = (
    (λ h. ground (arith, same_id_iff id (some o.buyer_id), same_id_iff id (some o.seller_id))),
    (λ h. ground (arith, same_id_iff id (some o.buyer_id), same_id_iff id (some o.seller_id))),
  )
  permission_iff admin_role reason to =
      ((λ h. ground (arith, is_admin_iff stored)), (λ h. ground (arith, is_admin_iff stored)))
  permission_iff payment_provider_role reason to = ((λ h. ground arith), (λ h. ground arith))
  permission_iff auto_release reason to = ((λ h. ground arith), (λ h. ground arith))
  permission_iff test_payment reason to = (
    (λ h. ground (arith, same_id_iff id (some o.buyer_id))),
    (λ h. ground (arith, same_id_iff id (some o.buyer_id))),
  )
  permission_iff system reason to = ((λ h. ground arith), (λ h. ground arith))
