-- ===== src/RateLimit/Tests.antt =====
-- Two calls to one endpoint that takes one call a second.
use new_bnbhack.Common.{◌+◌, ◌*◌, ◌≤◌, ◌≡◌, refl, none, [], ◌∷◌, ok, arith}
use new_bnbhack.Common.Int.{pos, ◌+ℤ◌, ◌-ℤ◌, ◌*ℤ◌}
use new_bnbhack.Common.Text.{Text, codes, eq_text}
use new_bnbhack.RateLimit.Bucket.{BucketRun, makes, reserves, reserve-waits}
use new_bnbhack.RateLimit.{
  BucketSpec, TokenBucket, RateLimiterSpec, RateLimiter, set, sends_of, reserve, drop_old, blocker,
  earliest, insert, sort, commit, new_bucket, new_limiter, window, group_window, acquire_slot,
  acquire,
}
use new_bnbhack.RateLimit.Windows.{count}
use new_bnbhack.RateLimit.Sends.{
  LimiterRun, begins, acquires, committed, acquire-waits, LimiterRun-count-le,
}

abbrev spec : RateLimiterSpec
spec = record {
  per_endpoint = record { max = 1; window_ms = 1000; margin_ms = 250 };
  global = record { capacity = 20; per_second = 20 };
  groups = [];
}

abbrev fresh : RateLimiter
fresh = record {
  endpoints = [];
  groups = [];
  bucket = record { tokens = pos 20_000; updated_at = 100 };
  paused_until = 0;
}

abbrev quote_key : Text
quote_key = codes "quote"

abbrev once : RateLimiter
once = record fresh {
  endpoints = (quote_key, 100 ∷ []) ∷ [];
  bucket = record { tokens = pos 19_000; updated_at = 100 };
}

abbrev twice : RateLimiter
twice = record once {
  endpoints = (quote_key, 100 ∷ 1350 ∷ []) ∷ (quote_key, 100 ∷ []) ∷ [];
  bucket = record { tokens = pos 18_000; updated_at = 100 };
}

first : acquire spec fresh 100 quote_key none ≡ ok (once, 0)
unfolding acquire window group_window acquire_slot earliest blocker drop_old commit sort insert
    reserve eq_text ◌+ℤ◌ ◌-ℤ◌ ◌*ℤ◌
first = refl

second : acquire spec once 100 quote_key none ≡ ok (twice, 1250)
unfolding acquire window group_window acquire_slot earliest blocker drop_old commit sort insert
    reserve eq_text ◌+ℤ◌ ◌-ℤ◌ ◌*ℤ◌
second = refl

acquire-waits_example :
    (0 ≤ 100 + 1250)
    × ((earliest spec.per_endpoint (sends_of once.endpoints quote_key) 100).1 ≤ 100 + 1250)
    × ((reserve spec.global once.bucket 100).1 ≤ 1250)
    × (twice.endpoints ≡ set once.endpoints quote_key (committed spec once 100 quote_key 1250))
acquire-waits_example = acquire-waits spec once twice 100 1250 quote_key none second

made : new_limiter spec 100 ≡ ok fresh
unfolding new_limiter new_bucket
made = refl

two_calls : LimiterRun spec quote_key (1350 ∷ 100 ∷ []) twice 100
unfolding eq_text
two_calls =
    acquires quote_key none twice 1250
      (acquires quote_key none once 0 (begins fresh 100 made) first) second

LimiterRun-count-le_example : count 100 1250 (1350 ∷ 100 ∷ []) ≤ 1
LimiterRun-count-le_example = LimiterRun-count-le (omega arith) two_calls 100

-- a bucket that holds one token and gets one a second
abbrev slow : BucketSpec
slow = record { capacity = 1; per_second = 1 }

abbrev full : TokenBucket
full = record { tokens = pos 1_000; updated_at = 100 }

full_made : new_bucket slow 100 ≡ ok full
unfolding new_bucket
full_made = refl

second_token : (reserve slow (reserve slow full 100).0 150).1 ≡ 950
unfolding reserve ◌+ℤ◌ ◌-ℤ◌ ◌*ℤ◌
second_token = refl

one_taken : BucketRun slow 100 1 (reserve slow full 100).0
one_taken = reserves 100 (makes full full_made) (omega arith)

taken_at : (reserve slow full 100).0.updated_at ≡ 100
unfolding reserve
taken_at = refl

reserve-waits_example :
    (1 + 1) * 1000 + 100 * 1 ≤ 1 * 1000 + (150 + (reserve slow (reserve slow full 100).0 150).1) * 1
reserve-waits_example = reserve-waits one_taken 150 (omega (arith, taken_at))
