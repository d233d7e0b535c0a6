-- ===== src/Bus/Tests.antt =====
-- A session with two subscribers, a rolled back event and a committed one.
use pay_twin_os.Prelude.{false, ℕ, ◌≡◌, refl, List, [], ◌∷◌}
use pay_twin_os.Bus.Delivery.{
  Subscriber, Session, subscribe, offer, publish, publish_all, publish_outbox, commit, rollback,
  release, new_session,
}
use pay_twin_os.Bus.History.{
  Op, subscribes, publishes, rolls_back, begins_nested, releases, in_transaction, step, run,
  disturbs,
}
use pay_twin_os.Bus.Safe.{Consistent, run-Consistent}
use pay_twin_os.Bus.Known.{Known, run-Known}

abbrev history : List (Op ℕ)
history =
    subscribes "org_1"
    ∷ subscribes "org_2"
    ∷ publishes "org_1" "payment.updated" 1
    ∷ rolls_back
    ∷ begins_nested
    ∷ releases
    ∷ publishes "org_1" "payment.updated" 2
    ∷ []

abbrev listener : Subscriber ℕ
listener = record { id = 0; organization_id = "org_1"; items = [] }

abbrev waiting : Session ℕ
waiting = record {
  durable = [];
  outbox = record { topic = "payment.updated"; organization_id = "org_1"; payload = 2 } ∷ [];
  pending = record { topic = "payment.updated"; organization_id = "org_1"; payload = 2 } ∷ [];
  subscribers = listener ∷ record { id = 1; organization_id = "org_2"; items = [] } ∷ [];
  next_queue = 2;
}

history_waits : run history (in_transaction (new_session ℕ)) ≡ in_transaction waiting
unfolding run step subscribe publish_outbox rollback release publish_all
history_waits = refl

only_the_own_queue_receives :
    (commit waiting).subscribers
    ≡ record listener { items = waiting.pending }
      ∷ record { id = 1; organization_id = "org_2"; items = [] }
      ∷ []
unfolding commit publish_all publish offer
only_the_own_queue_receives = refl

history_is_undisturbed : disturbs history (in_transaction (new_session ℕ)) ≡ false
unfolding disturbs run step subscribe publish_outbox rollback release publish_all
history_is_undisturbed = refl

run-Consistent_example : Consistent (run history (in_transaction (new_session ℕ)))
run-Consistent_example =
    run-Consistent history (in_transaction (new_session ℕ)) history_is_undisturbed
      (record { waiting = refl; sound = tt; saved = tt })

-- An event goes out at the release of a savepoint, and its transaction is rolled back.
abbrev leaking : List (Op ℕ)
leaking =
    subscribes "org_1"
    ∷ publishes "org_1" "payment.updated" 3
    ∷ begins_nested
    ∷ releases
    ∷ rolls_back
    ∷ []

abbrev told : Session ℕ
told = record {
  durable = [];
  outbox = [];
  pending = [];
  subscribers =
      record listener {
        items = record { topic = "payment.updated"; organization_id = "org_1"; payload = 3 } ∷ [];
      }
      ∷ [];
  next_queue = 1;
}

leaking_is_told : run leaking (in_transaction (new_session ℕ)) ≡ in_transaction told
unfolding run step subscribe publish_outbox rollback release publish_all publish offer
leaking_is_told = refl

run-Known_example :
    Known
      (record { topic = "payment.updated"; organization_id = "org_1"; payload = 3 } ∷ [])
      (run leaking (in_transaction (new_session ℕ)))
run-Known_example =
    run-Known leaking (in_transaction (new_session ℕ)) [] (record { pending = tt; received = tt })
