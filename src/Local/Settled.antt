-- ===== src/Local/Settled.antt =====
-- What an outcome makes of a payment link (services/api/paytwin_api/services/razorpay_local.py).
use pay_twin_os.Prelude.{
  ℕ, ◌≤◌, ◌≡◌, refl, sym, subst, false, not, some, List, ◌&&◌, ◌==◌, ltb, leb, max, arith, get_or,
  Result, ok, err, ◌>>=◌, or_raise, >>=-ok, raise_if-ok, or_raise-ok, All,
}
use pay_twin_os.Table.{find_row, All-find_row, All-put_row}
use pay_twin_os.Payments.Rows.{Order, Db}
use pay_twin_os.Executor.Rows.{LinkStatus, PaymentLink}
use pay_twin_os.Connectors.Dialect.{Library, Owner}
use pay_twin_os.Local.Emulator.{captured, simulate_payment}
use pay_twin_os.Local.Outcomes.{
  LinkError, link_not_found, no_order, link_closed, link_expired, bad_partial_amount, LinkOutcome,
  paid, expired, cancelled, partially_paid, ends, is_closed, Names, recovery_method, paid_link,
  part_paid_link, put_link, lifted, is_link, outcome_of, simulate_payment_link_outcome,
}

-- No more is paid than is asked for, and a paid link is paid in full.
pub record IsWellPaid (link : PaymentLink) : Type 0 where
  pub within : link.amount_paid_paise ≤ link.amount_paise
  pub full : link.status ≡ LinkStatus.paid → link.amount_paid_paise ≡ link.amount_paise

-- A link of the same name and amount that is well paid.
pub record Follows (link changed : PaymentLink) : Type 0 where
  pub id : changed.id ≡ link.id
  pub amount : changed.amount_paise ≡ link.amount_paise
  pub well_paid : IsWellPaid changed

last_of :
    (m : Result LinkError Db) (x : PaymentLink) {changed : PaymentLink} {after : Db}
    → ◌>>=◌ {B = PaymentLink × Db} m (λ (db : Db). ok (x, db)) ≡ ok (changed, after)
    → x ≡ changed
last_of (err raised) x h = cc
last_of (ok db) x h = ground arith

follows : {link x changed : PaymentLink} → x ≡ changed → Follows link x → Follows link changed
follows {link} same f = subst (Follows link) same f

part_fits :
    (amount : ℕ) (link : PaymentLink)
    → not (leb 1 amount && ltb amount link.amount_paise) ≡ false
    → link.amount_paid_paise ≤ link.amount_paise
    → max link.amount_paid_paise amount ≤ link.amount_paise
part_fits amount link fits within = ground arith

module _ (l : Library) (owner : Owner) (n : Names) (at now : ℕ) where
  outcome_of-Follows :
      (outcome : LinkOutcome) (link : PaymentLink) (order : Order) (db : Db) {changed : PaymentLink}
      {after : Db}
      → IsWellPaid link
      → outcome_of l owner n at now outcome link order db ≡ ok (changed, after)
      → Follows link changed
  unfolding outcome_of
  outcome_of-Follows paid link order db {changed} w h =
      let (db₁, _, h1) =
        >>=-ok
          (lifted (
            simulate_payment l owner n.payment_event at now n.payment_ref order.order_ref captured
              (recovery_method link) db))
          _ h in
      follows (last_of _ (paid_link link) h1) (record {
        id = refl;
        amount = refl;
        well_paid = record { within = omega arith; full = λ _. refl };
      })
  outcome_of-Follows (partially_paid given_amount) link order db {changed} w h =
      let amount = get_or given_amount 0 in
      let (fits, h1) =
        raise_if-ok (not (leb 1 amount && ltb amount link.amount_paise)) bad_partial_amount _ h in
      let same = last_of _ (part_paid_link amount link) h1 in
      follows same (record {
        id = refl;
        amount = refl;
        well_paid = record { within = part_fits amount link fits w.within; full = λ e. cc };
      })
  outcome_of-Follows expired link order db {changed} w h = follows (last_of _ _ h) (record {
    id = refl;
    amount = refl;
    well_paid = record { within = w.within; full = λ e. cc };
  })
  outcome_of-Follows cancelled link order db {changed} w h = follows (last_of _ _ h) (record {
    id = refl;
    amount = refl;
    well_paid = record { within = w.within; full = λ e. cc };
  })

  -- An outcome that the emulator reports is one of an open link, and changes that link only: it keeps
  -- its name and its amount, no more is paid than is asked for, and it is paid in full where it is
  -- paid. So every link stays well paid.
  pub simulate_payment_link_outcome-IsWellPaid :
      (id : ℕ) (outcome : LinkOutcome) (links : List PaymentLink) (db : Db)
      {changed : List PaymentLink} {after : Db}
      → All IsWellPaid links
      → simulate_payment_link_outcome l owner n at now id outcome links db ≡ ok (changed, after)
      → (link : PaymentLink) × (row : PaymentLink) × (find_row (is_link owner.merchant_id id) links
          ≡ some link)
        × (is_closed link.status ≡ false)
        × (changed ≡ put_link row links)
        × Follows link row
        × All IsWellPaid changed
  unfolding simulate_payment_link_outcome
  simulate_payment_link_outcome-IsWellPaid id outcome links db {changed} {after} w h =
      let (link, found, h1) =
        >>=-ok (or_raise (find_row (is_link owner.merchant_id id) links) link_not_found) _ h in
      let (order, _, h2) =
        >>=-ok (or_raise (find_row (λ (o : Order). o.id == link.order_id) db.orders) no_order) _
          h1 in
      let (opened, h3) = raise_if-ok (is_closed link.status) link_closed _ h2 in
      let (_, h4) = raise_if-ok (ltb link.expires_at now && not (ends outcome)) link_expired _ h3 in
      let ((row, tables), made, h5) =
        >>=-ok (outcome_of l owner n at now outcome link order db) _ h4 in
      let there =
        or_raise-ok (find_row (is_link owner.merchant_id id) links) link_not_found found in
      let f =
        outcome_of-Follows outcome link order db
          (All-find_row IsWellPaid (is_link owner.merchant_id id) links there w) made in
      let same : put_link row links ≡ changed = ground arith in
      (
        link,
        row,
        there,
        opened,
        sym same,
        f,
        subst (All IsWellPaid) same
            (All-put_row IsWellPaid (λ (r : PaymentLink). r.id) row links f.well_paid w),
      )
