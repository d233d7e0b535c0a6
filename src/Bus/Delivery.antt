-- ===== src/Bus/Delivery.antt =====
-- `Bus`, `publish_outbox` and the hooks on commit and rollback, of transactions and of savepoints
-- (services/api/paytwin_api/services/bus.py), over any type of payloads.
use pay_twin_os.Prelude.{
  ℕ, ◌+◌, String, Bool, not, List, [], ◌∷◌, ◌++◌, ◌&&◌, ◌==◌, ltb, str_eq, if◌then◌else◌, length,
  map,
}
use pay_twin_os.Table.{rows_where}

pub record BusEvent (P : Type 0) : Type 0 where
  pub topic : String
  pub organization_id : String
  pub payload : P

-- A queue with the organization under which it is registered.
pub record Subscriber (P : Type 0) : Type 0 where
  pub id : ℕ
  pub organization_id : String
  pub items : List (BusEvent P)

abbrev pub maxsize : ℕ
maxsize = 200

pub record Session (P : Type 0) : Type 0 where
  pub durable : List (BusEvent P)
  pub outbox : List (BusEvent P)
  pub pending : List (BusEvent P)
  pub subscribers : List (Subscriber P)
  pub next_queue : ℕ

module _ {P : Type 0} where
  unfoldable pub subscribe : String → Session P → Session P
  subscribe org s = record s {
    subscribers =
        s.subscribers ++ record { id = s.next_queue; organization_id = org; items = [] } ∷ [];
    next_queue = s.next_queue + 1;
  }

  abbrev pub is_other : String → ℕ → Subscriber P → Bool
  is_other org id q = not (str_eq q.organization_id org && q.id == id)

  -- An unknown queue is ignored.
  unfoldable pub unsubscribe : String → ℕ → Session P → Session P
  unsubscribe org id s = record s { subscribers = rows_where (is_other org id) s.subscribers }

  -- `put_nowait`: a full queue drops the event.
  abbrev pub put_nowait : BusEvent P → Subscriber P → Subscriber P
  put_nowait e q =
      if ltb (length q.items) maxsize then record q { items = q.items ++ e ∷ [] } else q

  unfoldable pub offer : BusEvent P → Subscriber P → Subscriber P
  offer e q = if str_eq q.organization_id e.organization_id then put_nowait e q else q

  unfoldable pub publish : BusEvent P → List (Subscriber P) → List (Subscriber P)
  publish e qs = map (offer e) qs

  unfoldable pub publish_all : List (BusEvent P) → List (Subscriber P) → List (Subscriber P)
  publish_all [] qs = qs
  publish_all (e ∷ es) qs = publish_all es (publish e qs)

  unfoldable pub publish_outbox : String → String → P → Session P → Session P
  publish_outbox org topic payload s =
      let e : BusEvent P = record { topic = topic; organization_id = org; payload = payload } in
      record s { outbox = s.outbox ++ e ∷ []; pending = s.pending ++ e ∷ [] }

  -- The transaction becomes durable, and then `_after_commit` runs.
  unfoldable pub commit : Session P → Session P
  commit s = record s {
    durable = s.outbox;
    pending = [];
    subscribers = publish_all s.pending s.subscribers;
  }

  -- The transaction is undone, and then `_after_rollback` runs.
  unfoldable pub rollback : Session P → Session P
  rollback s = record s { outbox = s.durable; pending = [] }

  -- The same hooks run at the end of a savepoint. A release hands out what waits while the
  -- transaction around it is open.
  unfoldable pub release : Session P → Session P
  release s = record s { pending = []; subscribers = publish_all s.pending s.subscribers }

  -- The outbox returns to what it held when the savepoint began, and all that waits is dropped.
  unfoldable pub roll_back_to : List (BusEvent P) → Session P → Session P
  roll_back_to saved s = record s { outbox = saved; pending = [] }

abbrev pub new_session : (P : Type 0) → Session P
new_session P = record { durable = []; outbox = []; pending = []; subscribers = []; next_queue = 0 }
