-- ===== src/Policy/Effective.antt =====
-- The limits that hold for a merchant whose policies were admitted
-- (services/api/paytwin_api/services/policy.py).
use pay_twin_os.Prelude.{
  ℕ, ◌≤◌, ◌≡◌, refl, sym, ap, subst, String, Bool, false, Option, none, some, List, [], ◌∷◌, ◌++◌,
  arith, ◌==◌, if◌then◌else◌, if_intro, All, All-snoc, All-imp, Option-cases, inl, inr,
}
use pay_twin_os.Table.{rows_where}
use pay_twin_os.Tenancy.{Merchant}
use pay_twin_os.Policy.Decision.{
  PolicyRuleId, max_attempts, amount_cap, dnd_window, contact_budget, cooldown, DndWindow, Rules,
  default_rules, updated, update_rules, merge_rules,
}
use pay_twin_os.Policy.Active.{
  Policy, no_rules, applies_to, insert_row, order_by, has_human_id, latest, merged, precedes,
  active_rules,
}
use pay_twin_os.Policy.Validate.{
  Value, validate_rules, as_integer, as_window, read_rule, rules_of, hour_of,
}
use pay_twin_os.Policy.Admitted.{Between, IsWindow, Fits, FitsEntry, validate_rules-Fits}

abbrev pub Limited : ℕ → ℕ → Option ℕ → Type 0
Limited lo hi none = Unit
Limited lo hi (some n) = (lo ≤ n) × (n ≤ hi)

-- Two hours of a day that differ.
abbrev pub Hours : Option DndWindow → Type 0
Hours none = Unit
Hours (some w) =
    (s : ℕ) × (e : ℕ) × (w.start_hour ≡ some s)
    × (w.end_hour ≡ some e)
    × (s ≤ 23)
    × (e ≤ 23)
    × ((s == e) ≡ false)

pub record InRange (r : Rules) : Type 0 where
  pub attempts : Limited 1 10 r.max_attempts
  pub cap : Limited 100 10000000 r.amount_cap
  pub budget : Limited 0 10 r.contact_budget
  pub pause : Limited 0 1440 r.cooldown
  pub hours : Hours r.dnd_window

updated_intro :
    {A : Type 0} (P : Option A → Type 0) (old new : Option A) → P old → P new → P (updated old new)
updated_intro P old none o n = o
updated_intro P old (some a) o n = n

update_rules-InRange : (d r : Rules) → InRange d → InRange r → InRange (update_rules d r)
unfolding update_rules
update_rules-InRange d r o n = record {
  attempts = updated_intro (Limited 1 10) d.max_attempts r.max_attempts o.attempts n.attempts;
  cap = updated_intro (Limited 100 10000000) d.amount_cap r.amount_cap o.cap n.cap;
  budget = updated_intro (Limited 0 10) d.contact_budget r.contact_budget o.budget n.budget;
  pause = updated_intro (Limited 0 1440) d.cooldown r.cooldown o.pause n.pause;
  hours = updated_intro Hours d.dnd_window r.dnd_window o.hours n.hours;
}

no_rules-InRange : InRange no_rules
no_rules-InRange = record { attempts = tt; cap = tt; budget = tt; pause = tt; hours = tt }

default_rules-InRange : InRange default_rules
default_rules-InRange = record {
  attempts = (omega arith, omega arith);
  cap = (omega arith, omega arith);
  budget = (omega arith, omega arith);
  pause = (omega arith, omega arith);
  hours = (21, 9, refl, refl, omega arith, omega arith, refl);
}

as_integer-Limited : (lo hi : ℕ) (v : Value) → Between lo hi v → Limited lo hi (as_integer v)
as_integer-Limited lo hi v (n, same, l, u) =
    subst (λ (x : Value). Limited lo hi (as_integer x)) (sym same) (l, u)

as_window-Hours : (v : Value) → IsWindow v → Hours (as_window v)
as_window-Hours v (entries, s, e, same, a, b, l, u, differ) =
    subst (λ (x : Value). Hours (as_window x)) (sym same)
      (s, e, ap hour_of a, ap hour_of b, l, u, differ)

read_rule-InRange :
    (rule : PolicyRuleId) (v : Value) (r : Rules)
    → Fits rule v
    → InRange r
    → InRange (read_rule rule v r)
read_rule-InRange max_attempts v r f i = record {
  attempts = as_integer-Limited 1 10 v f;
  cap = i.cap;
  budget = i.budget;
  pause = i.pause;
  hours = i.hours;
}
read_rule-InRange amount_cap v r f i = record {
  attempts = i.attempts;
  cap = as_integer-Limited 100 10000000 v f;
  budget = i.budget;
  pause = i.pause;
  hours = i.hours;
}
read_rule-InRange contact_budget v r f i = record {
  attempts = i.attempts;
  cap = i.cap;
  budget = as_integer-Limited 0 10 v f;
  pause = i.pause;
  hours = i.hours;
}
read_rule-InRange cooldown v r f i = record {
  attempts = i.attempts;
  cap = i.cap;
  budget = i.budget;
  pause = as_integer-Limited 0 1440 v f;
  hours = i.hours;
}
read_rule-InRange dnd_window v r f i = record {
  attempts = i.attempts;
  cap = i.cap;
  budget = i.budget;
  pause = i.pause;
  hours = as_window-Hours v f;
}
read_rule-InRange _ v r f i = record {
  attempts = i.attempts;
  cap = i.cap;
  budget = i.budget;
  pause = i.pause;
  hours = i.hours;
}

rules_of-InRange :
    (entries : List (String × Value)) → All FitsEntry entries → InRange (rules_of entries)
rules_of-InRange [] h = no_rules-InRange
rules_of-InRange ((key, v) ∷ entries) ((rule, named, fits), h) =
    rw (named, rules_of)
      (read_rule-InRange rule v (rules_of entries) fits (rules_of-InRange entries h))

-- An object that `validate_rules` admits: each key names a rule, each value has the type of its rule,
-- and the typed rules that it holds are within the limits.
pub validate_rules-Fits_InRange :
    (entries : List (String × Value))
    → validate_rules entries ≡ none
    → All FitsEntry entries × InRange (rules_of entries)
validate_rules-Fits_InRange entries h =
    let fits = validate_rules-Fits entries h in (fits, rules_of-InRange entries fits)

-- The rules of an object that was admitted.
abbrev pub IsAdmitted : Rules → Type 0
IsAdmitted r =
    (entries : List (String × Value)) × (validate_rules entries ≡ none) × (r ≡ rules_of entries)

IsAdmitted-InRange : (r : Rules) → IsAdmitted r → InRange r
IsAdmitted-InRange r (entries, passes, same) =
    subst InRange (sym same) (validate_rules-Fits_InRange entries passes).1

module _ (P : Policy → Type 0) where
  All-rows_where : (test : Policy → Bool) (rs : List Policy) → All P rs → All P (rows_where test rs)
  All-rows_where test [] h = tt
  All-rows_where test (r ∷ rs) (h, hs) =
      if_intro (All P) (test r) (h, All-rows_where test rs hs) (All-rows_where test rs hs)

  All-insert_row : (r : Policy) (rs : List Policy) → P r → All P rs → All P (insert_row r rs)
  All-insert_row r [] h hs = (h, tt)
  All-insert_row r (s ∷ ss) h (k, ks) =
      if_intro (All P) (precedes s r) (k, All-insert_row r ss h ks) (h, (k, ks))

  All-order_by : (rs : List Policy) → All P rs → All P (order_by rs)
  All-order_by [] h = tt
  All-order_by (r ∷ rs) (h, hs) = All-insert_row r (order_by rs) h (All-order_by rs hs)

  All-latest : (seen rs : List Policy) → All P seen → All P rs → All P (latest seen rs)
  All-latest seen [] s h = s
  All-latest seen (r ∷ rs) s (h, hs) =
      All-latest (if has_human_id r.human_id seen then seen else seen ++ r ∷ []) rs
        (if_intro (All P) (has_human_id r.human_id seen) s (All-snoc P r seen h s)) hs

merged-InRange :
    (rules : Rules) (rs : List Policy)
    → InRange rules
    → All (λ (p : Policy). InRange p.rules) rs
    → InRange (merged rules rs)
merged-InRange rules [] i h = i
merged-InRange rules (r ∷ rs) i (h, hs) =
    merged-InRange (update_rules rules r.rules) rs (update_rules-InRange rules r.rules i h) hs

-- Whatever policies and legacy rules were admitted, the rules that hold for a merchant are within the
-- limits: one to ten attempts, an amount cap of at most ten million paise, at most ten contacts, at
-- most a day of pause, and quiet hours that do not cover the whole day.
pub active_rules-InRange :
    (policies : List Policy) (org : String) (m : Merchant)
    → All (λ (p : Policy). IsAdmitted p.rules) policies
    → ((r : Rules) → m.policy_rules ≡ some r → IsAdmitted r)
    → InRange (active_rules policies org m)
unfolding active_rules merge_rules
active_rules-InRange policies org m h legacy =
    let P : Policy → Type 0 = λ (p : Policy). InRange p.rules in
    let ranged =
      All-imp (λ (p : Policy). IsAdmitted p.rules) P policies
        (λ (p : Policy). λ a. IsAdmitted-InRange p.rules a) h in
    let rows = latest [] (order_by (rows_where (applies_to org m.id) policies)) in
    let kept =
      All-latest P [] _ tt
        (All-order_by P _ (All-rows_where P (applies_to org m.id) policies ranged)) in
    let old : InRange (elim m.policy_rules [ none ↦ no_rules | some r ↦ r ]) =
      (elim (Option-cases m.policy_rules) [
        | inl e ↦ rw (e) no_rules-InRange
        | inr (r, e) ↦ rw (e) (IsAdmitted-InRange r (legacy r e))
      ]) in
    update_rules-InRange default_rules _ default_rules-InRange (
      update_rules-InRange _ _ old
        (merged-InRange no_rules (order_by rows) no_rules-InRange (All-order_by P rows kept)))
