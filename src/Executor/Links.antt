-- ===== src/Executor/Links.antt =====
-- `create_order`, `create_payment_link` and `cancel_open_payment_links`
-- (services/api/paytwin_api/services/razorpay_local.py) as the executor calls them: the amount is a
-- whole number of paise, the currency INR, the reference given. A cancelled link also emits a webhook
-- that goes through ingestion, which is not part of this world.
use Prim.Native.String.{count}
use pay_twin_os.Prelude.{
  ℕ, ◌+◌, ◌*◌, String, Bool, not, none, some, List, [], ◌∷◌, ◌++◌, ◌&&◌, ◌||◌, ◌==◌, ltb, leb,
  str_eq, if◌then◌else◌, length, Result, ok, err, ◌>>=◌, ◌>>◌, raise_if,
}
use pay_twin_os.Table.{find_row, rows_where, update_where}
use pay_twin_os.Executor.Rows.{
  LinkStatus, is_open, PaymentLink, LocalOrder, ActionExecution, World, Raised, local_error,
  Deployment,
}

abbrev pub by_receipt : String → String → String → LocalOrder → Bool
by_receipt org merchant receipt row =
    str_eq row.organization_id org && str_eq row.merchant_id merchant && str_eq row.receipt receipt

abbrev pub by_reference : String → String → String → PaymentLink → Bool
by_reference org merchant reference row =
    str_eq row.organization_id org
    && str_eq row.merchant_id merchant
    && str_eq row.reference_id reference

abbrev pub is_channel : String → Bool
is_channel c = str_eq c "whatsapp" || str_eq c "sms" || str_eq c "email"

unfoldable pub create_order :
    String → String → ℕ → String → World → Result Raised (LocalOrder × World)
create_order org merchant amount receipt w = do
  raise_if (ltb amount 100) local_error
  raise_if (ltb 80 (count receipt)) local_error
  elim (find_row (by_receipt org merchant receipt) w.orders) [
    | some existing ↦ if existing.amount_paise == amount then ok (existing, w) else err local_error
    | none ↦
        let order : LocalOrder = record {
          id = w.next_id;
          organization_id = org;
          merchant_id = merchant;
          receipt = receipt;
          amount_paise = amount;
        } in
        ok (order, record w { orders = w.orders ++ order ∷ []; next_id = w.next_id + 1 })
  ]

module _ (d : Deployment) (now : ℕ) (ex : ActionExecution) (amount expires_after_min : ℕ)
    (channel : String) where
  unfoldable pub new_link : String → String → LocalOrder → World → PaymentLink
  new_link reference group order w = record {
    id = w.next_id;
    organization_id = ex.organization_id;
    merchant_id = ex.merchant_id;
    reference_id = reference;
    order_id = order.id;
    action_execution_id = ex.id;
    payment_group_id = group;
    amount_paise = amount;
    amount_paid_paise = 0;
    channel = channel;
    expires_at = now + expires_after_min * d.minute;
    status = LinkStatus.issued;
    terminal_reason = none;
  }

  unfoldable pub insert_link : String → String → World → Result Raised (PaymentLink × World)
  insert_link reference group w = do
    (order, w') ← create_order ex.organization_id ex.merchant_id amount (d.receipt reference) w
    let link = new_link reference group order w'
    ok (link, record w' { links = w'.links ++ link ∷ []; next_id = w'.next_id + 1 })

  unfoldable pub create_payment_link : String → String → World → Result Raised (PaymentLink × World)
  create_payment_link reference group w = do
    raise_if (not (is_channel channel)) local_error
    raise_if (not (leb 5 expires_after_min && leb expires_after_min 1440)) local_error
    raise_if (count reference == 0 || ltb 80 (count reference)) local_error
    elim (find_row (by_reference ex.organization_id ex.merchant_id reference) w.links) [
      | some existing ↦
          if existing.amount_paise == amount then ok (existing, w) else err local_error
      | none ↦ insert_link reference group w
    ]

  -- The loop over the groups, numbered from `index`.
  unfoldable pub issue_links : ℕ → List String → World → Result Raised World
  issue_links index [] w = ok w
  issue_links index (g ∷ gs) w = do
    (link, w') ← create_payment_link (d.reference ex.human_number index) g w
    issue_links (index + 1) gs w'

abbrev pub open_link_of : ℕ → PaymentLink → Bool
open_link_of id link = link.action_execution_id == id && is_open link.status

abbrev pub cancel : String → PaymentLink → PaymentLink
cancel reason link = record link { status = LinkStatus.cancelled; terminal_reason = some reason }

unfoldable pub cancel_open_payment_links : ℕ → String → World → ℕ × World
cancel_open_payment_links id reason w = (
  length (rows_where (open_link_of id) w.links),
  record w { links = update_where (open_link_of id) (cancel reason) w.links },
)
