-- ===== src/Bus/History.antt =====
-- Histories of one database session: its transactions, the savepoints in them (`begin_nested`), and
-- the subscribers of services/api/paytwin_api/services/bus.py that come and go.
use pay_twin_os.Prelude.{ℕ, String, Bool, true, false, List, [], ◌∷◌, ◌++◌, ◌||◌}
use pay_twin_os.Bus.Delivery.{
  BusEvent, Session, subscribe, unsubscribe, publish_outbox, commit, rollback, release,
  roll_back_to,
}

pub data Op (P : Type 0) : Type 0 where
  subscribes : String → Op P
  unsubscribes : String → ℕ → Op P
  publishes : String → String → P → Op P
  commits rolls_back : Op P
  begins_nested releases rolls_back_to : Op P

-- A session and the outbox as it was at the beginning of each open savepoint, the innermost first.
pub record Transaction (P : Type 0) : Type 0 where
  pub session : Session P
  pub savepoints : List (List (BusEvent P))

abbrev pub in_transaction : {P : Type 0} → Session P → Transaction P
in_transaction s = record { session = s; savepoints = [] }

module _ {P : Type 0} where
  -- The end of a savepoint where none is open is no step.
  abbrev pub released : List (List (BusEvent P)) → Transaction P → Transaction P
  released [] t = t
  released (saved ∷ outer) t = record { session = release t.session; savepoints = outer }

  abbrev pub rolled_back : List (List (BusEvent P)) → Transaction P → Transaction P
  rolled_back [] t = t
  rolled_back (saved ∷ outer) t = record {
    session = roll_back_to saved t.session;
    savepoints = outer;
  }

  unfoldable pub step : Op P → Transaction P → Transaction P
  step (subscribes org) t = record t { session = subscribe org t.session }
  step (unsubscribes org id) t = record t { session = unsubscribe org id t.session }
  step (publishes org topic payload) t = record t {
    session = publish_outbox org topic payload t.session;
  }
  step commits t = in_transaction (commit t.session)
  step rolls_back t = in_transaction (rollback t.session)
  step begins_nested t = record t { savepoints = t.session.outbox ∷ t.savepoints }
  step releases t = released t.savepoints t
  step rolls_back_to t = rolled_back t.savepoints t

  unfoldable pub run : List (Op P) → Transaction P → Transaction P
  run [] t = t
  run (o ∷ os) t = run os (step o t)

  abbrev pub waits : Transaction P → Bool
  waits t = elim t.session.pending [ [] ↦ false | e ∷ es ↦ true ]

  abbrev pub ends_waiting : Op P → Transaction P → Bool
  ends_waiting releases t = waits t
  ends_waiting rolls_back_to t = waits t
  ends_waiting _ t = false

  -- Some savepoint ends while an event waits.
  unfoldable pub disturbs : List (Op P) → Transaction P → Bool
  disturbs [] t = false
  disturbs (o ∷ os) t = let rest = disturbs os (step o t) in ends_waiting o t || rest

  abbrev pub event_by : Op P → List (BusEvent P)
  event_by (publishes org topic payload) =
      record { topic = topic; organization_id = org; payload = payload } ∷ []
  event_by _ = []

  -- The events that a history publishes, in their order.
  abbrev pub published_by : List (Op P) → List (BusEvent P)
  published_by [] = []
  published_by (o ∷ os) = event_by o ++ published_by os
