-- ===== src/Outbox.antt =====
-- store/operator_api.py, `enqueue_event`: operator events and their webhook deliveries, written in
-- the caller's transaction. An event id is uuid5 of "openleg:<event_type>:<identity>", which is
-- taken to be as distinct as that name, so the pair of type and identity stands for it.
-- Identifiers are numbers, since the program only compares them; an identity is a list of them.
mod Tests
use openleg.Prelude.Text.{text_eq}
use openleg.Prelude.{
  ℕ, ◌==◌, Bool, true, false, ◌&&◌, not, Option, none, some, List, [], ◌∷◌, any, if◌then◌else◌,
}

pub data Kind : Type 0 where
  -- "invoice.<event_type>", by the rank of the event type
  invoice : ℕ → Kind
  -- "payment.match.confirmed"
  payment_confirmed : Kind
  -- "formation.signature.recorded"
  signature_recorded : Kind
  -- "membership.mutation.<state>", by the rank of the state
  mutation : ℕ → Kind
  -- "invoice.case.updated"
  case_updated : Kind

abbrev pub kind_eq : Kind → Kind → Bool
kind_eq (Kind.invoice a) (Kind.invoice b) = a == b
kind_eq Kind.payment_confirmed Kind.payment_confirmed = true
kind_eq Kind.signature_recorded Kind.signature_recorded = true
kind_eq (Kind.mutation a) (Kind.mutation b) = a == b
kind_eq Kind.case_updated Kind.case_updated = true
kind_eq _ _ = false

pub data Capability : Type 0 where
  metering_read cases_read billing_read payments_read formation_read membership_read : Capability

abbrev pub capability_eq : Capability → Capability → Bool
capability_eq Capability.metering_read Capability.metering_read = true
capability_eq Capability.cases_read Capability.cases_read = true
capability_eq Capability.billing_read Capability.billing_read = true
capability_eq Capability.payments_read Capability.payments_read = true
capability_eq Capability.formation_read Capability.formation_read = true
capability_eq Capability.membership_read Capability.membership_read = true
capability_eq _ _ = false

-- `_subscription_capability`, for the types that the modelled operations write
abbrev pub subscription_capability : Kind → Option Capability
subscription_capability (Kind.invoice e) = some Capability.billing_read
subscription_capability Kind.payment_confirmed = some Capability.payments_read
subscription_capability Kind.signature_recorded = some Capability.formation_read
subscription_capability (Kind.mutation s) = some Capability.membership_read
subscription_capability Kind.case_updated = some Capability.cases_read

pub record EventId : Type 0 where
  pub kind : Kind
  pub identity : List ℕ

abbrev pub event_id_eq : EventId → EventId → Bool
event_id_eq a b = kind_eq a.kind b.kind && text_eq a.identity b.identity

pub record OperatorEvent : Type 0 where
  pub event_id : EventId
  pub aggregate_id : List ℕ
  pub community_id : ℕ

pub record Client : Type 0 where
  pub id : ℕ
  pub community_id : ℕ
  pub active : Bool
  pub has_webhook : Bool
  pub capabilities : List Capability

pub record Delivery : Type 0 where
  pub event_id : EventId
  pub client_id : ℕ

pub record Outbox : Type 0 where
  pub clients : List Client
  pub events : List OperatorEvent
  pub deliveries : List Delivery

subscribes : ℕ → Option Capability → Client → Bool
subscribes community_id none c = c.community_id == community_id && c.active && c.has_webhook
subscribes community_id (some cap) c =
    c.community_id == community_id
    && c.active
    && c.has_webhook
    && any (capability_eq cap) c.capabilities

-- INSERT ... ON CONFLICT (event_id, client_id) DO NOTHING, for each client of the selection
deliver_to : EventId → ℕ → Option Capability → List Client → List Delivery → List Delivery
unfolding subscribes
deliver_to id community_id cap [] sent = sent
deliver_to id community_id cap (c ∷ cs) sent =
    let known = any (λ d. event_id_eq d.event_id id && d.client_id == c.id) sent in
    let fresh = subscribes community_id cap c && not known in
    let entry : Delivery = record { event_id = id; client_id = c.id } in
    deliver_to id community_id cap cs (if fresh then entry ∷ sent else sent)

-- `enqueue_event`
unfoldable pub enqueue_event : Kind → List ℕ → ℕ → List ℕ → Outbox → Outbox
unfolding deliver_to
enqueue_event kind aggregate_id community_id identity o =
    let id : EventId = record { kind = kind; identity = identity } in
    let entry : OperatorEvent = record {
      event_id = id;
      aggregate_id = aggregate_id;
      community_id = community_id;
    } in
    let known = any (λ e. event_id_eq e.event_id id) o.events in
    record o {
      events = if known then o.events else entry ∷ o.events;
      deliveries = deliver_to id community_id (subscription_capability kind) o.clients o.deliveries;
    }
