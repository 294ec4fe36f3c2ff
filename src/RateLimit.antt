-- ===== src/RateLimit.antt =====
-- The client-side limits of packages/binance/src/rate-limit.ts: a token bucket, sliding windows and
-- the limiter that waits for both. Times are whole milliseconds and tokens are thousandths of a token,
-- which a whole number of tokens per second makes exact; the rounding of doubles is not modelled.
pub mod Windows
pub mod Sends
pub mod Bucket
pub mod Tests
use new_bnbhack.Common.{
  ℕ, zero, suc, ◌+◌, ◌-◌, ◌*◌, ◌/◌, Bool, true, false, ◌||◌, leb, ltb, ◌==◌, if◌then◌else◌, length,
  List, [], ◌∷◌, ◌++◌, Option, none, some, Result, ok, err, ◌>>=◌, ◌>>◌, throw_if, unknown_group,
  spec_not_positive,
}
use new_bnbhack.Common.Int.{ℤ, pos, neg_part, ◌+ℤ◌, ◌-ℤ◌, ◌*ℤ◌, ltb_ℤ}
use new_bnbhack.Common.Text.{Text, codes, eq_text}

-- `Math.max` and `Math.min`
abbrev pub larger : ℕ → ℕ → ℕ
larger a b = if ltb a b then b else a

abbrev pub smaller_ℤ : ℤ → ℤ → ℤ
smaller_ℤ a b = if ltb_ℤ b a then b else a

pub record BucketSpec : Type 0 where
  pub capacity : ℕ
  pub per_second : ℕ

pub record TokenBucket : Type 0 where
  pub tokens : ℤ
  pub updated_at : ℕ

-- the constructor of `TokenBucket`
unfoldable pub new_bucket : BucketSpec → ℕ → Result TokenBucket
new_bucket spec now = do
  throw_if ((spec.capacity == 0) || (spec.per_second == 0)) spec_not_positive
  ok (record { tokens = pos (spec.capacity * 1000); updated_at = now })

abbrev pub ceil_div : ℕ → ℕ → ℕ
ceil_div a b = (a + b - 1) / b

-- `reserve`: takes one token, and how long the caller must wait for it
unfoldable pub reserve : BucketSpec → TokenBucket → ℕ → TokenBucket × ℕ
reserve spec bucket now =
    let refilled = (pos now -ℤ pos bucket.updated_at) *ℤ pos spec.per_second in
    let left = smaller_ℤ (pos (spec.capacity * 1000)) (bucket.tokens +ℤ refilled) -ℤ pos 1000 in
    (record { tokens = left; updated_at = now }, ceil_div (neg_part left) spec.per_second)

pub record WindowSpec : Type 0 where
  pub max : ℕ
  pub window_ms : ℕ
  pub margin_ms : ℕ

abbrev pub span : WindowSpec → ℕ
span spec = spec.window_ms + spec.margin_ms

-- `while (sends[0] <= now - span) sends.shift()`
unfoldable pub drop_old : ℕ → ℕ → List ℕ → List ℕ
drop_old now width [] = []
drop_old now width (s ∷ sends) = elim (leb (s + width) now) [
  | true ↦ drop_old now width sends
  | false ↦ s ∷ sends
]

abbrev pub get_elem? {ℓ} : {A : Type ℓ} → List A → ℕ → Option A
get_elem? [] n = none
get_elem? (x ∷ xs) zero = some x
get_elem? (x ∷ xs) (suc n) = get_elem? xs n

-- the send that the next one must stay a span behind
unfoldable pub blocker : ℕ → List ℕ → Option ℕ
blocker max sends = if leb max (length sends) then get_elem? sends (length sends - max) else none

abbrev pub after_blocker : ℕ → ℕ → Option ℕ → ℕ
after_blocker now width none = now
after_blocker now width (some b) = larger now (b + width)

-- `earliest`: the sends that are kept, and the earliest time of the next one
unfoldable pub earliest : WindowSpec → List ℕ → ℕ → List ℕ × ℕ
earliest spec sends now =
    let kept = drop_old now (span spec) sends in
    (kept, after_blocker now (span spec) (blocker spec.max kept))

unfoldable pub insert : ℕ → List ℕ → List ℕ
insert a [] = a ∷ []
insert a (s ∷ sends) = elim (leb a s) [ true ↦ a ∷ s ∷ sends | false ↦ s ∷ insert a sends ]

-- `sends.sort((a, b) => a - b)`
unfoldable pub sort : List ℕ → List ℕ
sort [] = []
sort (s ∷ sends) = insert s (sort sends)

-- `commit`
unfoldable pub commit : List ℕ → ℕ → List ℕ
commit sends at = sort (sends ++ at ∷ [])

pub record RateLimiterSpec : Type 0 where
  pub per_endpoint : WindowSpec
  pub global : BucketSpec
  pub groups : List (Text × WindowSpec)

abbrev pub max_retry_after_ms : ℕ
max_retry_after_ms = 30_000

-- a window that is not in its map yet is an empty one
pub record RateLimiter : Type 0 where
  pub endpoints : List (Text × List ℕ)
  pub groups : List (Text × List ℕ)
  pub bucket : TokenBucket
  pub paused_until : ℕ

abbrev pub get {ℓ} : {A : Type ℓ} → List (Text × A) → Text → Option A
get [] key = none
get (entry ∷ entries) key = if eq_text entry.0 key then some entry.1 else get entries key

abbrev pub set {ℓ} : {A : Type ℓ} → List (Text × A) → Text → A → List (Text × A)
set entries key a = (key, a) ∷ entries

abbrev pub or_empty : Option (List ℕ) → List ℕ
or_empty none = []
or_empty (some sends) = sends

abbrev pub sends_of : List (Text × List ℕ) → Text → List ℕ
sends_of entries key = or_empty (get entries key)

-- the constructor of `RateLimiter`
unfoldable pub new_limiter : RateLimiterSpec → ℕ → Result RateLimiter
new_limiter spec now = do
  bucket ← new_bucket spec.global now
  ok (record { endpoints = []; groups = []; bucket = bucket; paused_until = 0 })

-- `window`: the constructor of a missing window checks its spec
unfoldable pub window : Option (List ℕ) → WindowSpec → Result (List ℕ)
window (some sends) spec = ok sends
window none spec = do throw_if ((spec.max == 0) || (spec.window_ms == 0)) spec_not_positive; ok []

-- the group's window, when the caller names a group
abbrev pub GroupWindow : Type 0
GroupWindow = Option (Text × (WindowSpec × List ℕ))

unfoldable pub known_group : Option WindowSpec → List (Text × List ℕ) → Text → Result GroupWindow
known_group none windows name = err unknown_group
known_group (some spec) windows name = do
  sends ← window (get windows name) spec
  ok (some (name, (spec, sends)))

unfoldable pub group_window :
    RateLimiterSpec → List (Text × List ℕ) → Option Text → Result GroupWindow
group_window spec windows none = ok none
group_window spec windows (some []) = ok none
group_window spec windows (some (c ∷ name)) =
    known_group (get spec.groups (c ∷ name)) windows (c ∷ name)

abbrev pub group_wait : ℕ → GroupWindow → ℕ
group_wait now none = 0
group_wait now (some (name, (spec, sends))) = (earliest spec sends now).1 - now

abbrev pub commit_group : ℕ → ℕ → GroupWindow → List (Text × List ℕ) → List (Text × List ℕ)
commit_group now at none windows = windows
commit_group now at (some (name, (spec, sends))) windows =
    set windows name (commit (earliest spec sends now).0 at)

-- how long the caller waits: for the pause, the windows and the bucket
abbrev pub wait_of : RateLimiterSpec → RateLimiter → ℕ → List ℕ → GroupWindow → ℕ
wait_of spec l now sends group = larger (l.paused_until - now) (
    larger (larger ((earliest spec.per_endpoint sends now).1 - now) (group_wait now group))
      (reserve spec.global l.bucket now).1)

unfoldable pub acquire_slot :
    RateLimiterSpec → RateLimiter → ℕ → Text → List ℕ → GroupWindow → RateLimiter × ℕ
acquire_slot spec l now key sends group =
    let wait = wait_of spec l now sends group in
    (
      record l {
        endpoints =
            set l.endpoints key (commit (earliest spec.per_endpoint sends now).0 (now + wait));
        groups = commit_group now (now + wait) group l.groups;
        bucket = (reserve spec.global l.bucket now).0;
      },
      wait,
    )

-- `acquire`
unfoldable pub acquire :
    RateLimiterSpec → RateLimiter → ℕ → Text → Option Text → Result (RateLimiter × ℕ)
acquire spec l now key group_name = do
  sends ← window (get l.endpoints key) spec.per_endpoint
  group ← group_window spec l.groups group_name
  ok (acquire_slot spec l now key sends group)

-- `pause` of a whole number of milliseconds
unfoldable pub pause : RateLimiter → ℕ → ℕ → RateLimiter
pause l now ms = if ms == 0 then l else record l {
  paused_until =
      larger l.paused_until (now + (if ltb max_retry_after_ms ms then max_retry_after_ms else ms));
}

-- `DEFAULT_LIMITS`
abbrev pub default_limits : RateLimiterSpec
default_limits = record {
  per_endpoint = record { max = 5; window_ms = 1000; margin_ms = 250 };
  global = record { capacity = 20; per_second = 20 };
  groups = (codes "defi", record { max = 5; window_ms = 1000; margin_ms = 250 }) ∷ [];
}
