-- ===== src/RateLimit/Bucket.antt =====
-- The token bucket: a burst of its capacity, and the sustained rate after that.
use native.Mathlib.Nat.{lt-div-mul-add}
use mathlib.Core.Path.{subst}
use new_bnbhack.Common.{
  ◌==◌, ◌||◌, throw_if, when_ok, ok-injective, throw_if-eq-ok, spec_not_positive, ℕ, suc, ◌+◌, ◌-◌,
  ◌*◌, ◌/◌, ◌≤◌, ◌<◌, ◌≡◌, refl, ok, arith, false,
}
use new_bnbhack.Common.Int.{ℤ, pos, pos_part, neg_part, ◌+ℤ◌, ◌-ℤ◌, ◌*ℤ◌, +ℤ_parts, -ℤ_parts}
use new_bnbhack.RateLimit.{BucketSpec, TokenBucket, new_bucket, reserve, ceil_div, smaller_ℤ}

sub_pos : (now since : ℕ) → since ≤ now → pos now -ℤ pos since ≡ pos (now - since)
unfolding ◌-ℤ◌
sub_pos now since h = ground (arith, h)

mul_pos : (a b : ℕ) → pos a *ℤ pos b ≡ pos (a * b)
unfolding ◌*ℤ◌
mul_pos a b = ground arith

refill :
    (now since rate : ℕ)
    → since ≤ now
    → (pos now -ℤ pos since) *ℤ pos rate ≡ pos ((now - since) * rate)
refill now since rate h = rw (sub_pos now since h, mul_pos) refl

smaller_ℤ-le :
    (a b : ℤ) → pos_part (smaller_ℤ a b) + neg_part b ≤ pos_part b + neg_part (smaller_ℤ a b)
smaller_ℤ-le a b = ground arith

ceil_div-le : (n rate : ℕ) → 0 < rate → n ≤ ceil_div n rate * rate
ceil_div-le n rate h =
    let top : n + rate - 1 < (n + rate - 1) / rate * rate + rate = lt-div-mul-add h in
    omega (arith, top)

left_parts :
    (cap : ℕ) (tokens : ℤ) (more : ℕ)
    → pos_part (smaller_ℤ (pos cap) (tokens +ℤ pos more) -ℤ pos 1000) + neg_part tokens + 1000
      ≤ neg_part (smaller_ℤ (pos cap) (tokens +ℤ pos more) -ℤ pos 1000) + pos_part tokens + more
left_parts cap tokens more =
    let sum = tokens +ℤ pos more in
    omega (
      arith,
      smaller_ℤ-le (pos cap) sum,
      +ℤ_parts tokens (pos more),
      -ℤ_parts (smaller_ℤ (pos cap) sum) (pos 1000),
    )

-- A bucket that was made at `start`, and the number of tokens that were taken from it.
pub data BucketRun (spec : BucketSpec) (start : ℕ) : ℕ → TokenBucket → Type 0 where
  makes : (b : TokenBucket) → new_bucket spec start ≡ ok b → BucketRun spec start 0 b
  reserves :
      {n : ℕ} {b : TokenBucket} (now : ℕ)
      → BucketRun spec start n b
      → b.updated_at ≤ now
      → BucketRun spec start (suc n) (reserve spec b now).0

-- what was taken, against the capacity and what was refilled since the start
abbrev pub IsFunded : BucketSpec → ℕ → ℕ → TokenBucket → Type 0
IsFunded spec start n b =
    (start ≤ b.updated_at)
    × (pos_part b.tokens + n * 1000 + start * spec.per_second
        ≤ spec.capacity * 1000 + b.updated_at * spec.per_second + neg_part b.tokens)

-- the wait covers what the bucket owes
reserve_wait :
    (spec : BucketSpec) (b : TokenBucket) (now : ℕ)
    → 0 < spec.per_second
    → ((reserve spec b now).0.updated_at ≡ now)
      × (neg_part (reserve spec b now).0.tokens ≤ (reserve spec b now).1 * spec.per_second)
unfolding reserve
reserve_wait spec b now rate = (refl, ceil_div-le _ spec.per_second rate)

elapsed : (a b c : ℕ) → b ≤ a → (a - b) * c + b * c ≡ a * c
elapsed a b c h = grind arith

reserve-IsFunded :
    (spec : BucketSpec) (start n now : ℕ) (b : TokenBucket)
    → b.updated_at ≤ now
    → IsFunded spec start n b
    → IsFunded spec start (suc n) (reserve spec b now).0
unfolding reserve
reserve-IsFunded spec start n now b h (later, funded) =
    let more = (now - b.updated_at) * spec.per_second in
    let time : more + b.updated_at * spec.per_second ≡ now * spec.per_second =
      elapsed now b.updated_at spec.per_second h in
    (
      omega (arith, h, later),
      rw (refill now b.updated_at spec.per_second h)
          (omega (arith, left_parts (spec.capacity * 1000) b.tokens more, funded, time)),
    )

new_bucket-IsFunded :
    (spec : BucketSpec) (start : ℕ) (b : TokenBucket)
    → new_bucket spec start ≡ ok b
    → IsFunded spec start 0 b × (0 < spec.per_second)
unfolding new_bucket
new_bucket-IsFunded spec start b h =
    when_ok (throw_if ((spec.capacity == 0) || (spec.per_second == 0)) spec_not_positive) _ h
      λ checked passed made.
        let same : record { tokens = pos (spec.capacity * 1000); updated_at = start } ≡ b =
          ok-injective _ b made in
        subst (λ b. IsFunded spec start 0 b × (0 < spec.per_second)) same
          (
            (omega arith, omega arith),
            positive_rate spec (throw_if-eq-ok _ spec_not_positive passed),
          )
  where
    positive_rate :
        (spec : BucketSpec)
        → ((spec.capacity == 0) || (spec.per_second == 0)) ≡ false
        → 0 < spec.per_second
    positive_rate spec h = ground (arith, h)

BucketRun-IsFunded :
    {spec : BucketSpec} {start n : ℕ} {b : TokenBucket}
    → BucketRun spec start n b
    → IsFunded spec start n b × (0 < spec.per_second)
BucketRun-IsFunded {spec} {start} (makes b made) = new_bucket-IsFunded spec start b made
BucketRun-IsFunded {spec} {start} (reserves {n} {b} now run h) =
    let (funded, rate) = BucketRun-IsFunded run in
    (reserve-IsFunded spec start n now b h funded, rate)

-- A token goes out late enough: up to the time at which the next token may be used, the tokens taken,
-- this one included, are at most the burst and what the sustained rate has refilled since the start.
pub reserve-waits :
    {spec : BucketSpec} {start n : ℕ} {b : TokenBucket}
    → BucketRun spec start n b
    → (now : ℕ) → b.updated_at ≤ now
    → (n + 1) * 1000 + start * spec.per_second
      ≤ spec.capacity * 1000 + (now + (reserve spec b now).1) * spec.per_second
reserve-waits {spec} {start} {n} {b} run now h =
    let (funded, rate) = BucketRun-IsFunded run in
    let after = reserve-IsFunded spec start n now b h funded in
    let wait = reserve_wait spec b now rate in grind (arith, after.1, wait)
