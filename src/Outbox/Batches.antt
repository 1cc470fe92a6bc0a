-- ===== src/Outbox/Batches.antt =====
-- What a batch of the outbox reports.
use skrynia.Prelude.{ℕ, suc, ◌≡◌, true, false, List, [], ◌∷◌, length}
use skrynia.Prelude.Order.{filter}
use skrynia.Db.Keys.{event_key_eq}
use skrynia.Db.Rows.{Db}
use skrynia.Outbox.{OutboxOptions}
use skrynia.Outbox.Claim.{Event}
use skrynia.Outbox.Worker.{Handler, process_claimed_event, process_events}

-- The work on the events of a batch, one after the other and each one once: how many of them it reports
-- as processed, and how many as failed.
pub data Worked (o : OutboxOptions) (handler : Handler)
    : List Event → Db → ℕ → ℕ → Db → Type 0 where
  finished : (d : Db) → Worked o handler [] d 0 0 d
  succeeds :
      (event : Event) (events : List Event) (d s t : Db) (p f : ℕ)
      → process_claimed_event o handler event d ≡ (true, s)
      → Worked o handler events s p f t
      → Worked o handler (event ∷ events) d (suc p) f t
  fails :
      (event : Event) (events : List Event) (d s t : Db) (p f : ℕ)
      → process_claimed_event o handler event d ≡ (false, s)
      → Worked o handler events s p f t
      → Worked o handler (event ∷ events) d p (suc f) t

abbrev successes : OutboxOptions → Handler → List Event → Db → ℕ
successes o handler events d = length (filter (λ b. b) (process_events o handler events d).0)
