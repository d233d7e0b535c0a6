-- ===== src/Reconciliation/Cleared.antt =====
-- What the repair sweep leaves (services/api/paytwin_api/services/reconciliation.py).
use pay_twin_os.Prelude.{
  ℕ, zero, suc, ◌≡◌, refl, inl, inr, String, Bool, true, false, Option, List, [], ◌∷◌, ◌&&◌, ◌==◌,
  arith, leb, if_intro, Bool-cases, length, take, All,
}
use pay_twin_os.Table.{rows_where, All-put_row}
use pay_twin_os.Tenancy.{Integration}
use pay_twin_os.Payments.Rows.{Payment, Refund, Db, is_captured, is_held}
use pay_twin_os.Payments.Refunds.{
  settle_refund, is_held_for, settle_held, settle_pending_refunds, reconcile_pending_refunds,
}
use pay_twin_os.Payments.Credit.{settle_held_none_left}
use pay_twin_os.Payments.Money.{IsSound}
use pay_twin_os.Payments.Money.Events.{reconcile_pending_refunds-Sound}
use pay_twin_os.Reconciliation.Sweep.{
  is_swept, insert_by_update, by_update, swept, put_payment, reconcile_all,
  reconcile_financial_state,
}

-- No refund is held for the payment.
abbrev pub Cleared : ℕ → List Refund → Type 0
Cleared id rows = All (λ (row : Refund). is_held_for id row ≡ false) rows

and_false : (b : Bool) → (b && false) ≡ false
and_false true = refl
and_false false = refl

settle_refund_settles :
    (p : Payment) (row : Refund) (at : ℕ) → is_held (settle_refund p row at).1.status ≡ false
unfolding settle_refund
settle_refund_settles p row at = ground arith

settle_held-keeps :
    (id : ℕ) (p : Payment) (rows : List Refund) (at : ℕ)
    → Cleared id rows
    → Cleared id (settle_held p rows at).1
unfolding settle_held
settle_held-keeps id p [] at c = tt
settle_held-keeps id p (row ∷ rows) at (c, cs) = elim (Bool-cases (is_held_for p.id row)) [
  | inr e ↦ rw (e) (c, settle_held-keeps id p rows at cs)
  | inl e ↦
      let settled = settle_refund_settles p row at in
      rw (e)
        (rw (settled) (and_false _), settle_held-keeps id (settle_refund p row at).0 rows at cs)
]

none_held-Cleared :
    (id : ℕ) (rows : List Refund) → length (rows_where (is_held_for id) rows) ≡ 0 → Cleared id rows
none_held-Cleared id [] h = tt
none_held-Cleared id (row ∷ rows) h = elim (Bool-cases (is_held_for id row)) [
  | inl e ↦ absurd (ground arith)
  | inr e ↦ (e, none_held-Cleared id rows (ground arith))
]

reconcile_pending_refunds-Cleared :
    (p : Payment) (db : Db) (at : ℕ)
    → is_captured p.status ≡ true
    → Cleared p.id (reconcile_pending_refunds p db at).2.refunds
unfolding reconcile_pending_refunds settle_pending_refunds
reconcile_pending_refunds-Cleared p db at c =
    elim (Bool-cases (length (rows_where (is_held_for p.id) db.refunds) == 0)) [
      | inl e ↦ rw (c, e) (none_held-Cleared p.id db.refunds (ground arith))
      | inr e ↦ rw (c, e) (settle_held_none_left p db.refunds at).0
    ]

reconcile_pending_refunds-keeps :
    (id : ℕ) (p : Payment) (db : Db) (at : ℕ)
    → Cleared id db.refunds
    → Cleared id (reconcile_pending_refunds p db at).2.refunds
unfolding reconcile_pending_refunds settle_pending_refunds
reconcile_pending_refunds-keeps id p db at h = elim (Bool-cases (is_captured p.status)) [
  | inr c ↦ rw (c) h
  | inl c ↦ elim (Bool-cases (length (rows_where (is_held_for p.id) db.refunds) == 0)) [
    | inl e ↦ rw (c, e) h
    | inr e ↦ rw (c, e) (settle_held-keeps id p db.refunds at h)
  ]
]

reconcile_all-keeps :
    (id now : ℕ) (ps : List Payment) (db : Db)
    → Cleared id db.refunds
    → Cleared id (reconcile_all now ps db).1.refunds
unfolding reconcile_all
reconcile_all-keeps id now [] db h = h
reconcile_all-keeps id now (p ∷ ps) db h =
    let r = reconcile_pending_refunds p db now in
    reconcile_all-keeps id now ps (put_payment r.1 r.2)
      (reconcile_pending_refunds-keeps id p db now h)

abbrev IsReady : Payment → Type 0
IsReady p = IsSound p × (is_captured p.status ≡ true)

reconcile_all-settles :
    (now : ℕ) (ps : List Payment) (db : Db)
    → All IsReady ps
    → All IsSound db.payments
    → All IsSound (reconcile_all now ps db).1.payments
      × All (λ (p : Payment). Cleared p.id (reconcile_all now ps db).1.refunds) ps
unfolding reconcile_all
reconcile_all-settles now [] db h s = (s, tt)
reconcile_all-settles now (p ∷ ps) db ((sound, captured), h) s =
    let r = reconcile_pending_refunds p db now in
    let t = reconcile_pending_refunds-Sound p db now (sound, s) in
    let next = put_payment r.1 r.2 in
    let (rows, rest) =
      reconcile_all-settles now ps next h
        (All-put_row IsSound (λ (q : Payment). q.id) r.1 r.2.payments t.0.0 t.0.1) in
    (
      rows,
      (
        reconcile_all-keeps p.id now ps next (reconcile_pending_refunds-Cleared p db now captured),
        rest,
      ),
    )

module _ {A : Type 0} (P : A → Type 0) where
  All-take : (n : ℕ) (xs : List A) → All P xs → All P (take n xs)
  All-take zero xs h = tt
  All-take (suc n) [] h = tt
  All-take (suc n) (x ∷ xs) (h, hs) = (h, All-take n xs hs)

All-insert_by_update :
    (P : Payment → Type 0) (p : Payment) (ps : List Payment)
    → P p
    → All P ps
    → All P (insert_by_update p ps)
All-insert_by_update P p [] h hs = (h, tt)
All-insert_by_update P p (q ∷ qs) h (k, ks) =
    if_intro (All P) (leb p.updated_at q.updated_at) (h, (k, ks))
      (k, All-insert_by_update P p qs h ks)

All-by_update : (P : Payment → Type 0) (ps : List Payment) → All P ps → All P (by_update ps)
All-by_update P [] h = tt
All-by_update P (p ∷ ps) (h, hs) = All-insert_by_update P p (by_update ps) h (All-by_update P ps hs)

IsReady-rows_where :
    (scope : Option String) (ps : List Payment)
    → All IsSound ps
    → All IsReady (rows_where (is_swept scope) ps)
IsReady-rows_where scope [] h = tt
IsReady-rows_where scope (p ∷ ps) (h, hs) = elim (Bool-cases (is_swept scope p)) [
  | inr e ↦ rw (e) (IsReady-rows_where scope ps hs)
  | inl e ↦ rw (e) ((h, ground arith), IsReady-rows_where scope ps hs)
]

-- From tables in which every payment is sound, the sweep leaves every payment sound, and no refund
-- held for any payment that it has looked at.
pub reconcile_financial_state-Cleared :
    (scope : Option String) (now : ℕ) (db : Db) (integrations : List Integration)
    → All IsSound db.payments
    → let after = (reconcile_financial_state scope now db integrations).db in
      All IsSound after.payments
      × All (λ (p : Payment). Cleared p.id after.refunds) (swept scope db)
unfolding reconcile_financial_state swept
reconcile_financial_state-Cleared scope now db integrations h =
    reconcile_all-settles now (swept scope db) db
      (All-take IsReady 1000 (by_update (rows_where (is_swept scope) db.payments)) (
        All-by_update IsReady (rows_where (is_swept scope) db.payments)
          (IsReady-rows_where scope db.payments h)))
      h
