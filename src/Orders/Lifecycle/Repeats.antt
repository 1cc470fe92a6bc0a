-- ===== src/Orders/Lifecycle/Repeats.antt =====
-- The repeat test of `transitionOrder` of backend/src/modules/orders/order-transition.service.ts, as a
-- statement about the timeline.
use skrynia.Prelude.{
  ℕ, ◌≡◌, refl, ap, sym, ◌∙◌, inl, inr, Bool, true, false, any, Option, none, some, ◌==◌, ==_iff,
  List, [], ◌∷◌, String, arith, Bool-cases, ◌&&◌,
}
use skrynia.Domain.Enums.{status_eq, same_status, same_status_iff}
use skrynia.Common.Errors.{Result, ok, err}
use skrynia.Db.Rows.{
  OrderRow, OrderEvent, OrderEventType, Transition, OrderTransitionReason, OrderTransitionRole,
}
use skrynia.Orders.Policy.{
  TransitionOrderInput, reason_code, role_code, event_type_code, same_id, event_descriptor,
}
use skrynia.Orders.Lifecycle.{is_idempotent_repeat, is_event_of, is_same_transition}

-- The element is in the list.
pub data IsIn {A : Type 0} (x : A) : List A → Type 0 where
  here : (xs : List A) → IsIn x (x ∷ xs)
  there : (y : A) (xs : List A) → IsIn x xs → IsIn x (y ∷ xs)

any-found :
    {A : Type 0} (p : A → Bool) (xs : List A) → any p xs ≡ true → (x : A) × IsIn x xs × (p x ≡ true)
any-found p [] h = absurd (cc)
any-found p (x ∷ xs) h = elim (Bool-cases (p x)) [
  | inl holds ↦ (x, here xs, holds)
  | inr fails ↦
      let (y, inside, holds) = any-found p xs (ground arith) in (y, there x xs inside, holds)
]

reason_code-injective :
    (a b : OrderTransitionReason) → (reason_code a == reason_code b) ≡ true → a ≡ b
reason_code-injective a b h = ground arith

role_code-injective : (a b : OrderTransitionRole) → (role_code a == role_code b) ≡ true → a ≡ b
role_code-injective a b h = ground arith

event_type_code-injective :
    (a b : OrderEventType) → (event_type_code a == event_type_code b) ≡ true → a ≡ b
event_type_code-injective a b h = ground arith

same_id_iff : (a b : Option ℕ) → same_id a b ≡ true → a ≡ b
same_id_iff none none h = refl
same_id_iff none (some b) h = absurd (cc)
same_id_iff (some a) none h = absurd (cc)
same_id_iff (some a) (some b) h = ap some (ground arith)

-- The timeline row of this transition: of the same order, of the type that the reason has, for the same
-- status and the same reason, by the same user in the same role.
pub record IsRecorded (i : TransitionOrderInput) (o : OrderRow) (events : List OrderEvent)
    : Type 0 where
  pub event : OrderEvent
  pub transition : Transition
  pub listed : IsIn event events
  pub metadata : event.transition ≡ some transition
  pub order : event.order_id ≡ o.id
  pub type : (body : Option String) × (event_descriptor i ≡ ok (event.type, body))
  pub to : transition.to ≡ i.to
  pub reason : transition.reason ≡ i.reason
  pub role : transition.actor.role ≡ i.actor.role
  pub user : transition.actor.id ≡ i.actor.id

both_hold : (a b : Bool) → (a && b) ≡ true → (a ≡ true) × (b ≡ true)
both_hold true true h = (refl, refl)
both_hold true false h = absurd (cc)
both_hold false b h = absurd (cc)

is_event_of-IsRecorded :
    (i : TransitionOrderInput) (o : OrderRow) (events : List OrderEvent) (type : OrderEventType)
    (body : Option String) (e : OrderEvent) (m : Option Transition)
    → e.transition ≡ m
    → IsIn e events
    → event_descriptor i ≡ ok (type, body)
    → is_event_of i o.id type e ≡ true
    → IsRecorded i o events
is_event_of-IsRecorded i o events type body e none missing inside described h =
    let k : is_event_of i o.id type e ≡ false = rw missing (ground arith) in absurd (cc)
is_event_of-IsRecorded i o events type body e (some t) there_is inside described h =
    let k : ((e.order_id == o.id)
          && (event_type_code e.type == event_type_code type)
          && is_same_transition i (some t))
        ≡ true =
      ap
        (λ m.
          (e.order_id == o.id)
          && (event_type_code e.type == event_type_code type)
          && is_same_transition i m)
        (sym there_is)
      ∙ h in
    let (row, metadata) = both_hold _ (is_same_transition i (some t)) k in
    let (owner, kind) =
      both_hold (e.order_id == o.id) (event_type_code e.type == event_type_code type) row in
    let (more, who) = both_hold _ (same_id t.actor.id i.actor.id) metadata in
    let (more, role) = both_hold _ (role_code t.actor.role == role_code i.actor.role) more in
    let (aim, why) =
      both_hold (same_status t.to i.to) (reason_code t.reason == reason_code i.reason) more in
    let same : e.type ≡ type = event_type_code-injective e.type type kind in
    record {
      event = e;
      transition = t;
      listed = inside;
      metadata = there_is;
      order = (==_iff e.order_id o.id).0 owner;
      type = (body, described ∙ ap (λ x. ok (x, body)) (sym same));
      to = (same_status_iff t.to i.to).0 aim;
      reason = reason_code-injective t.reason i.reason why;
      role = role_code-injective t.actor.role i.actor.role role;
      user = same_id_iff t.actor.id i.actor.id who;
    }

pub is_idempotent_repeat-IsRecorded :
    (i : TransitionOrderInput) (o : OrderRow) (events : List OrderEvent)
    → is_idempotent_repeat o i events ≡ ok true
    → o.status ≡ i.to
    → IsRecorded i o events
unfolding is_idempotent_repeat
is_idempotent_repeat-IsRecorded i o events h status = by_descriptor (event_descriptor i) refl
  where
    reached : same_status o.status i.to ≡ true
    reached = (same_status_iff o.status i.to).1 status

    by_descriptor :
        (q : Result (OrderEventType × Option String))
        → event_descriptor i ≡ q
        → IsRecorded i o events
    by_descriptor (err x) q =
        let k : is_idempotent_repeat o i events ≡ err x = rw (reached, q) refl in absurd (cc)
    by_descriptor (ok (type, body)) q =
        let k : is_idempotent_repeat o i events ≡ ok (any (is_event_of i o.id type) events) =
          rw (reached, q) refl in
        let (e, inside, holds) = any-found (is_event_of i o.id type) events (cc) in
        is_event_of-IsRecorded i o events type body e e.transition refl inside q holds
