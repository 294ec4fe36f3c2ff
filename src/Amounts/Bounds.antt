-- ===== src/Amounts/Bounds.antt =====
-- Rounding, ranges and the clamp of the amount maths.
use native.Mathlib.Nat.{div-mul-le_self, le-div_iff_mul-le, suc-mul, lt-div-mul-add}
use new_bnbhack.Common.{ℕ, zero, suc, ◌+◌, ◌-◌, ◌*◌, ◌/◌, ◌^◌, ◌≤◌, ◌<◌, ◌≡◌, ◌↔◌, refl, arith, ok}
use new_bnbhack.Common.Int.{pos, ◌-ℤ◌}
use new_bnbhack.Amounts.{
  underlying_from_v_tokens, v_tokens_for_underlying, utilization_bps, interest_units,
}

-- The interest is what the position holds beyond the principal and what was harvested, and it is
-- zero when the position holds less.
pub interest_units-eq-sub :
    (position principal harvested : ℕ)
    → interest_units position principal harvested ≡ position - (principal + harvested)
unfolding interest_units ◌-ℤ◌
interest_units-eq-sub position principal harvested = ground arith

-- The vTokens that an amount buys at a positive rate are worth at most that amount, one more
-- would be worth more, and taking them back yields at most what was put in.
pub deposit_rounds_down :
    (underlying rate v : ℕ)
    → v_tokens_for_underlying underlying (pos rate) ≡ ok v
    → (underlying_from_v_tokens v rate ≤ underlying)
      × (underlying * 10 ^ 18 < v * rate + rate)
      × (v * rate ≤ underlying * 10 ^ 18)
unfolding underlying_from_v_tokens v_tokens_for_underlying
deposit_rounds_down underlying zero v h = cc
deposit_rounds_down underlying (suc r) v h =
    let rate = suc r in
    let minted : v ≡ underlying * 10 ^ 18 / rate = ground arith in
    let low : v * rate ≤ underlying * 10 ^ 18 =
      rw minted (div-mul-le_self (underlying * 10 ^ 18) rate) in
    let high : underlying * 10 ^ 18 < v * rate + rate = rw minted (lt-div-mul-add (omega arith)) in
    (omega (arith, low), high, low)

-- Dividing rounded up is above a limit exactly when the dividend is above the limit's multiple.
ceil_div_limit : (x s limit : ℕ) → 0 < s → (limit < (x + s - 1) / s) ↔ (limit * s < x)
ceil_div_limit x s limit pos_s =
    let (down, up) = le-div_iff_mul-le {x = suc limit} {y = x + s - 1} pos_s in
    (
      λ h. let k = down h in omega (arith, k, suc-mul limit s),
      λ h. up (rw suc-mul (omega (arith, h))),
    )

-- the value on a market with supply
utilization_bps_supplied :
    (cash borrows reserves : ℕ)
    → 0 < borrows
    → reserves < cash + borrows
    → utilization_bps cash borrows reserves
      ≡ (borrows * 10_000 + (cash + borrows - reserves) - 1) / (cash + borrows - reserves)
unfolding utilization_bps
utilization_bps_supplied cash borrows reserves p h = ground arith

utilization_bps_idle : (cash reserves : ℕ) → utilization_bps cash 0 reserves ≡ 0
unfolding utilization_bps
utilization_bps_idle cash reserves = refl

-- Utilisation rounds up: a market whose reserves are below its cash and borrows together is
-- above a limit in basis points exactly when its borrows are above that share of what is
-- supplied.
pub utilization_bps_limit :
    (cash borrows reserves limit : ℕ)
    → reserves < cash + borrows
    → (limit < utilization_bps cash borrows reserves)
      ↔ (limit * (cash + borrows - reserves) < borrows * 10_000)
utilization_bps_limit cash zero reserves limit h =
    rw utilization_bps_idle (λ k. elim k [ ], λ k. elim k [ ])
utilization_bps_limit cash (suc b) reserves limit h =
    rw (utilization_bps_supplied cash (suc b) reserves (omega arith) h)
      (ceil_div_limit (suc b * 10_000) (cash + suc b - reserves) limit (omega arith))
