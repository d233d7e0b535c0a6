-- ===== src/Executor/Frame.antt =====
-- What the issue of payment links leaves alone (`create_payment_link`,
-- services/api/paytwin_api/services/razorpay_local.py): all tables but the links and orders.
use pay_twin_os.Prelude.{
  ℕ, ◌+◌, ◌≤◌, ◌≡◌, refl, ◌∙◌, inl, inr, String, List, [], ◌∷◌, arith, >>=-ok, sym, subst,
  Option-cases, ok,
}
use pay_twin_os.Table.{find_row}
use pay_twin_os.Executor.Rows.{ActionExecution, LocalOrder, PaymentLink, World, Deployment}
use pay_twin_os.Executor.Links.{
  by_reference, create_order, insert_link, create_payment_link, issue_links,
}

-- Links and orders are new, nothing else.
pub record LinksOnly (w v : World) : Type 0 where
  pub executions : v.executions ≡ w.executions
  pub merchants : v.merchants ≡ w.merchants
  pub calls : v.calls ≡ w.calls
  pub next_id : w.next_id ≤ v.next_id

LinksOnly-refl : (w : World) → LinksOnly w w
LinksOnly-refl w = record {
  executions = refl;
  merchants = refl;
  calls = refl;
  next_id = omega arith;
}

LinksOnly-trans : (u v w : World) → LinksOnly u v → LinksOnly v w → LinksOnly u w
LinksOnly-trans u v w h k = record {
  executions = k.executions ∙ h.executions;
  merchants = k.merchants ∙ h.merchants;
  calls = k.calls ∙ h.calls;
  next_id = omega (arith, h.next_id, k.next_id);
}

create_order-LinksOnly :
    (org merchant : String) (amount : ℕ) (receipt : String) (w : World) {o : LocalOrder} {v : World}
    → create_order org merchant amount receipt w ≡ ok (o, v)
    → LinksOnly w v
unfolding create_order
create_order-LinksOnly org merchant amount receipt w h = record {
  executions = ground arith;
  merchants = ground arith;
  calls = ground arith;
  next_id = ground arith;
}

module _ (d : Deployment) (now : ℕ) (ex : ActionExecution) (amount minutes : ℕ)
    (channel : String) where
  insert_link-LinksOnly :
      (reference group : String) (w : World) {l : PaymentLink} {v : World}
      → insert_link d now ex amount minutes channel reference group w ≡ ok (l, v)
      → LinksOnly w v
  unfolding insert_link
  insert_link-LinksOnly reference group w h =
      let ((o, u), created, rest) =
        >>=-ok (create_order ex.organization_id ex.merchant_id amount (d.receipt reference) w) _
          h in
      let k : LinksOnly w u =
        create_order-LinksOnly ex.organization_id ex.merchant_id amount (d.receipt reference) w
          created in
      record {
        executions = ground (arith, k.executions);
        merchants = ground (arith, k.merchants);
        calls = ground (arith, k.calls);
        next_id = ground (arith, k.next_id);
      }

  create_payment_link-LinksOnly :
      (reference group : String) (w : World) {l : PaymentLink} {v : World}
      → create_payment_link d now ex amount minutes channel reference group w ≡ ok (l, v)
      → LinksOnly w v
  unfolding create_payment_link
  create_payment_link-LinksOnly reference group w {l} {v} h =
      elim (Option-cases
        (find_row (by_reference ex.organization_id ex.merchant_id reference) w.links)) [
          | inl free ↦ insert_link-LinksOnly reference group w {l = l} {v = v} (ground arith)
          | inr (row, found) ↦
              let e : v ≡ w = ground arith in subst (LinksOnly w) (sym e) (LinksOnly-refl w)
        ]

  pub issue_links-LinksOnly :
      (index : ℕ) (groups : List String) (w : World) {v : World}
      → issue_links d now ex amount minutes channel index groups w ≡ ok v
      → LinksOnly w v
  unfolding issue_links
  issue_links-LinksOnly index [] w {v} h =
      let e : v ≡ w = ground arith in subst (LinksOnly w) (sym e) (LinksOnly-refl w)
  issue_links-LinksOnly index (g ∷ gs) w {v} h =
      let ((link, u), created, rest) =
        >>=-ok
          (create_payment_link d now ex amount minutes channel (d.reference ex.human_number index) g
            w)
          _ h in
      LinksOnly-trans w u v
        (create_payment_link-LinksOnly (d.reference ex.human_number index) g w created)
        (issue_links-LinksOnly (index + 1) gs u rest)
