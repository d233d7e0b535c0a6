-- ===== src/Connectors/Draws.antt =====
-- `perform_action` of the simulator's adapter (services/api/paytwin_api/connectors/simulator.py): the
-- draws of a generator that the key of the action seeds. A probability is a fraction, the average
-- amount a whole number of paise; the division by a power of two is exact.
use pay_twin_os.Prelude.{
  ℕ, zero, suc, ◌+◌, ◌*◌, ◌/◌, ◌%◌, ◌^◌, ◌<◌, ◌≤◌, min, ◌≡◌, refl, sym, ap, ◌∙◌, Bool, true, List,
  [], ◌∷◌, arith, ltb, if◌then◌else◌, length,
}

pub record Fraction : Type 0 where
  pub numerator : ℕ
  pub denominator : ℕ

unfoldable pub next_state : ℕ → ℕ
next_state state = (state * 6364136223846793005 + 1442695040888963407) % 2 ^ 64

-- `(state >> 33) / (1 << 63) < p_success`
unfoldable pub is_recovered : Fraction → ℕ → Bool
is_recovered p state = ltb ((state / 2 ^ 33) * p.denominator) (p.numerator * 2 ^ 63)

unfoldable pub outcomes : Fraction → ℕ → ℕ → List Bool
outcomes p zero state = []
outcomes p (suc n) state =
    let next = next_state state in let rest = outcomes p n next in is_recovered p next ∷ rest

abbrev pub count_true : List Bool → ℕ
count_true [] = 0
count_true (b ∷ bs) = let rest = count_true bs in if b then suc rest else rest

pub record Outcome : Type 0 where
  pub attempted : ℕ
  pub recovered : ℕ
  pub recovered_paise : ℕ

-- `seed` is the number in the first eight digits of the key's digest.
unfoldable pub perform_action : ℕ → ℕ → Fraction → ℕ → Outcome
perform_action seed count p avg_amount_paise =
    let drawn = outcomes p (min count 100000) seed in
    record {
      attempted = length drawn;
      recovered = count_true drawn;
      recovered_paise = count_true drawn * avg_amount_paise;
    }

next_state_bound : (state : ℕ) → next_state state < 2 ^ 64
unfolding next_state
next_state_bound state = omega arith

draw_small : (state : ℕ) → state < 2 ^ 64 → state / 2 ^ 33 < 2 ^ 31
draw_small state h = omega arith

is_recovered_always :
    (p : Fraction) (state : ℕ)
    → 0 < p.denominator
    → p.denominator ≤ p.numerator * 2 ^ 32
    → state < 2 ^ 64
    → is_recovered p state ≡ true
unfolding is_recovered
is_recovered_always p state positive likely small =
    let k : state / 2 ^ 33 ≤ 2147483647 = let q = draw_small state small in omega arith in
    let kd : (state / 2 ^ 33) * p.denominator ≤ 2147483647 * p.denominator = grind arith in
    ground arith

length-outcomes : (p : Fraction) (n state : ℕ) → length (outcomes p n state) ≡ n
unfolding outcomes
length-outcomes p zero state = refl
length-outcomes p (suc n) state = ap suc (length-outcomes p n (next_state state))

count_true-outcomes :
    (p : Fraction) (n state : ℕ)
    → 0 < p.denominator
    → p.denominator ≤ p.numerator * 2 ^ 32
    → count_true (outcomes p n state) ≡ n
unfolding outcomes
count_true-outcomes p zero state positive likely = refl
count_true-outcomes p (suc n) state positive likely =
    rw (is_recovered_always p (next_state state) positive likely (next_state_bound state))
      (ap suc (count_true-outcomes p n (next_state state) positive likely))

-- With any chance of success of at least one in 2 ^ 32, whatever it is, a simulated action recovers
-- every payment that it attempts, and it attempts as many as it is asked to, up to 100000.
pub perform_action-all_recovered :
    (seed count avg : ℕ) (p : Fraction)
    → 0 < p.denominator
    → p.denominator ≤ p.numerator * 2 ^ 32
    → let o = perform_action seed count p avg in
      (o.attempted ≡ min count 100000)
      × (o.recovered ≡ o.attempted)
      × (o.recovered_paise ≡ o.attempted * avg)
unfolding perform_action
perform_action-all_recovered seed count avg p positive likely =
    let a = length-outcomes p (min count 100000) seed in
    let r = count_true-outcomes p (min count 100000) seed positive likely ∙ sym a in
    (a, r, ap (λ (n : ℕ). n * avg) r)
