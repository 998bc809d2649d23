-- ===== src/Payment/Outbox.antt =====
-- How a handler of services/payment goes on after it has written to the outbox.
use laundry_platform.Db.{M, ◌>>=◌}
use laundry_platform.Db.Runs.{Runs, Runs-pure, Runs-assoc, seeing, broken}
use laundry_platform.Db.Calls.{Runs-write, Runs-exec_tx_broken}
use laundry_platform.Payment.Tables.{Tables, Response, OutboxRow, announce, write_outbox_event}

module _ {B : Type 0} {t : Tables} {Q : Response → Tables → Type 0} where
  pub Runs-write_outbox_event :
      (x : Tables) (e : OutboxRow) (f : Unit {0} → M Tables Response B)
      → Runs t (seeing (announce e x)) (f tt) Q
      → Runs t broken (f tt) Q
      → Runs t (seeing x) (write_outbox_event e >>= f) Q
  unfolding write_outbox_event
  Runs-write_outbox_event x e f good bad =
      Runs-assoc _ _ _ (Runs-write _ _ _ _ (Runs-pure _ _ good) (Runs-pure _ _ bad))

  pub Runs-write_outbox_event_broken :
      (e : OutboxRow) (f : Unit {0} → M Tables Response B)
      → Runs t broken (f tt) Q
      → Runs t broken (write_outbox_event e >>= f) Q
  unfolding write_outbox_event
  Runs-write_outbox_event_broken e f bad =
      Runs-assoc _ _ _ (Runs-exec_tx_broken _ _ (Runs-pure _ _ bad))
