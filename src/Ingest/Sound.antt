-- ===== src/Ingest/Sound.antt =====
-- Ingestion together with the payment state machine.
use pay_twin_os.Prelude.{sym, subst, All}
use pay_twin_os.Payments.Rows.{Db}
use pay_twin_os.Payments.Money.{IsSound}
use pay_twin_os.Payments.Money.Events.{apply_events-IsSound}
use pay_twin_os.Ingest.Rows.{Store, Deployment}
use pay_twin_os.Ingest.Once.{Quiet, Replayed}
use pay_twin_os.Ingest.Reached.{Reached, Reached-Replayed}

-- Whatever deliveries come, in whatever order and however often, every payment stays sound: no more
-- is refunded than its amount, and a refunded amount means a captured status.
pub Reached-IsSound :
    (base : Db) (d : Deployment) (start t : Store)
    → All IsSound base.payments
    → Replayed base start
    → Quiet start
    → Reached base d start t
    → All IsSound t.core.payments
Reached-IsSound base d start t sound h q r =
    let (log, after) = Reached-Replayed base d start t h q r in
    subst (λ (db : Db). All IsSound db.payments) (sym after.replayed)
      (apply_events-IsSound base log sound)
