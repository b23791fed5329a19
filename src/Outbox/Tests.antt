-- ===== src/Outbox/Tests.antt =====
-- A run of the outbox at a client that reads bills.
use openleg.Prelude.{◌≡◌, ◌==◌, refl, true, [], ◌∷◌, count}
use openleg.Outbox.{Capability, Delivery, Kind, Outbox, enqueue_event}

abbrev one_client : Outbox
one_client = record {
  clients =
      record {
        id = 5;
        community_id = 7;
        active = true;
        has_webhook = true;
        capabilities = Capability.billing_read ∷ [];
      }
      ∷ [];
  events = [];
  deliveries = [];
}

one_delivery :
    count
      (λ (d : Delivery). d.client_id == 5)
      (enqueue_event (Kind.invoice 3) (1 ∷ []) 7 (1 ∷ []) one_client).deliveries
    ≡ 1
unfolding enqueue_event
one_delivery = refl
