-- ===== src/RateLimit/Sends.antt =====
-- The limiter keeps every endpoint within its window, and every caller behind the pause.
use mathlib.Core.Path.{subst}
use new_bnbhack.Common.{
  ◌==◌, ◌||◌, spec_not_positive, ℕ, ◌+◌, ◌≤◌, ◌<◌, ◌≡◌, refl, sym, ap, ◌∙◌, Bool, true, false,
  if◌then◌else◌, List, [], ◌∷◌, Option, none, some, ok, throw_if, when_ok, ok-injective, arith,
  >>=-eq-ok,
}
use new_bnbhack.Common.Text.{Text, eq_text, eq_text_iff}
use new_bnbhack.RateLimit.{
  WindowSpec, span, earliest, commit, RateLimiterSpec, RateLimiter, get, set, or_empty, sends_of,
  new_bucket, new_limiter, window, GroupWindow, group_window, wait_of, acquire_slot, acquire, pause,
  reserve,
}
use new_bnbhack.RateLimit.Windows.{count, Run, starts, waits, commits, Run-count-le}

window-sends :
    (o : Option (List ℕ)) (spec : WindowSpec) (sends : List ℕ)
    → window o spec ≡ ok sends
    → or_empty o ≡ sends
unfolding window
window-sends (some s) spec sends h = ok-injective s sends h
window-sends none spec sends h =
    ok-injective [] sends
      (>>=-eq-ok (throw_if ((spec.max == 0) || (spec.window_ms == 0)) spec_not_positive)
        (λ _. ok []) h).2

-- A slot was given: the endpoint's window was there, and the wait is the longest of the waits.
acquire-slot :
    (spec : RateLimiterSpec) (l l' : RateLimiter) (now wait : ℕ) (key : Text) (name : Option Text)
    → acquire spec l now key name ≡ ok (l', wait)
    → (group : GroupWindow) × (acquire_slot spec l now key (sends_of l.endpoints key) group
        ≡ (l', wait))
unfolding acquire
acquire-slot spec l l' now wait key name h =
    when_ok (window (get l.endpoints key) spec.per_endpoint) _ h λ sends found h1.
      when_ok (group_window spec l.groups name) _ h1 λ group grouped h2. (
        group,
        rw (window-sends (get l.endpoints key) spec.per_endpoint sends found)
            (ok-injective _ (l', wait) h2),
      )

wait_of-le :
    (spec : RateLimiterSpec) (l : RateLimiter) (now : ℕ) (sends : List ℕ) (group : GroupWindow)
    → (l.paused_until ≤ now + wait_of spec l now sends group)
      × ((earliest spec.per_endpoint sends now).1 ≤ now + wait_of spec l now sends group)
      × ((reserve spec.global l.bucket now).1 ≤ wait_of spec l now sends group)
wait_of-le spec l now sends group = (ground arith, ground arith, ground arith)

-- the sends of an endpoint after a slot was given
abbrev pub committed : RateLimiterSpec → RateLimiter → ℕ → Text → ℕ → List ℕ
committed spec l now key wait =
    commit (earliest spec.per_endpoint (sends_of l.endpoints key) now).0 (now + wait)

-- A caller that gets a slot waits at least until the pause is over, the global bucket has its
-- token, and its endpoint's earliest time is reached, and its send is recorded in the
-- endpoint's window at the time its wait ends.
pub acquire-waits :
    (spec : RateLimiterSpec) (l l' : RateLimiter) (now wait : ℕ) (key : Text) (name : Option Text)
    → acquire spec l now key name ≡ ok (l', wait)
    → (l.paused_until ≤ now + wait)
      × ((earliest spec.per_endpoint (sends_of l.endpoints key) now).1 ≤ now + wait)
      × ((reserve spec.global l.bucket now).1 ≤ wait)
      × (l'.endpoints ≡ set l.endpoints key (committed spec l now key wait))
unfolding acquire_slot
acquire-waits spec l l' now wait key name h =
    let (group, slot) = acquire-slot spec l l' now wait key name h in
    let (a, b, c) = wait_of-le spec l now (sends_of l.endpoints key) group in
    let waited : wait_of spec l now (sends_of l.endpoints key) group ≡ wait = ap (λ q. q.1) slot in
    let placed = ap (λ q. q.0.endpoints) slot in
    (rw waited at a, rw waited at b, rw waited at c, sym (rw waited at placed))

-- what the map holds for a key after another key's, or the same key's, window was recorded
sends_of-set :
    (entries : List (Text × List ℕ)) (endpoint key : Text) (sends : List ℕ)
    → sends_of (set entries endpoint sends) key
      ≡ (if eq_text endpoint key then sends else sends_of entries key)
sends_of-set entries endpoint key sends = ground arith

-- the log of the sends to one endpoint
abbrev pub logged : Bool → ℕ → List ℕ → List ℕ
logged true at log = at ∷ log
logged false at log = log

-- A limiter in use, and the times at which calls to the endpoint `key` went out.
pub data LimiterRun (spec : RateLimiterSpec) (key : Text) : List ℕ → RateLimiter → ℕ → Type 0 where
  begins : (l : RateLimiter) (now : ℕ) → new_limiter spec now ≡ ok l → LimiterRun spec key [] l now
  passes :
      {log : List ℕ} {l : RateLimiter} {now : ℕ} (later : ℕ)
      → LimiterRun spec key log l now
      → now ≤ later
      → LimiterRun spec key log l later
  acquires :
      {log : List ℕ} {l : RateLimiter} {now : ℕ} (endpoint : Text) (name : Option Text)
      (l' : RateLimiter) (wait : ℕ)
      → LimiterRun spec key log l now
      → acquire spec l now endpoint name ≡ ok (l', wait)
      → LimiterRun spec key (logged (eq_text endpoint key) (now + wait) log) l' now
  pauses :
      {log : List ℕ} {l : RateLimiter} {now : ℕ} (ms : ℕ)
      → LimiterRun spec key log l now
      → LimiterRun spec key log (pause l now ms) now

pause-endpoints : (l : RateLimiter) (now ms : ℕ) → (pause l now ms).endpoints ≡ l.endpoints
unfolding pause
pause-endpoints l now ms = ground arith

new_limiter-endpoints :
    (spec : RateLimiterSpec) (now : ℕ) (l : RateLimiter)
    → new_limiter spec now ≡ ok l
    → l.endpoints ≡ []
unfolding new_limiter
new_limiter-endpoints spec now l h =
    when_ok (new_bucket spec.global now) _ h
      λ bucket made same. sym (ap (λ m. m.endpoints) (ok-injective _ l same))

-- One slot, seen by the endpoint `key`.
slot-Run :
    (spec : RateLimiterSpec) (log : List ℕ) (l l' : RateLimiter) (now wait : ℕ)
    (endpoint key : Text) (b : Bool)
    → eq_text endpoint key ≡ b
    → Run spec.per_endpoint log (sends_of l.endpoints key) now
    → (earliest spec.per_endpoint (sends_of l.endpoints endpoint) now).1 ≤ now + wait
    → l'.endpoints ≡ set l.endpoints endpoint (committed spec l now endpoint wait)
    → Run spec.per_endpoint (logged b (now + wait) log) (sends_of l'.endpoints key) now
slot-Run spec log l l' now wait endpoint key true e run late placed =
    let same = (eq_text_iff endpoint key).0 e in
    let held : sends_of l'.endpoints key ≡ committed spec l now key wait =
      ap (λ es. sends_of es key) placed
      ∙ sends_of-set l.endpoints endpoint key (committed spec l now endpoint wait)
      ∙ rw e (ap (λ k. committed spec l now k wait) same) in
    subst (λ sends. Run spec.per_endpoint ((now + wait) ∷ log) sends now) (sym held)
      (commits (now + wait) run (rw same at late))
slot-Run spec log l l' now wait endpoint key false e run late placed =
    let held : sends_of l'.endpoints key ≡ sends_of l.endpoints key =
      ap (λ es. sends_of es key) placed
      ∙ sends_of-set l.endpoints endpoint key (committed spec l now endpoint wait)
      ∙ rw e refl in
    subst (λ sends. Run spec.per_endpoint log sends now) (sym held) run

LimiterRun-Run :
    {spec : RateLimiterSpec} {key : Text} {log : List ℕ} {l : RateLimiter} {now : ℕ}
    → LimiterRun spec key log l now
    → Run spec.per_endpoint log (sends_of l.endpoints key) now
LimiterRun-Run {spec} {key} (begins l now made) =
    subst (λ es. Run spec.per_endpoint [] (sends_of es key) now)
      (sym (new_limiter-endpoints spec now l made)) (starts now)
LimiterRun-Run (passes later run le) = waits later (LimiterRun-Run run) le
LimiterRun-Run {spec} {key} (acquires {log} {l} {now} endpoint name l' wait run got) =
    let (paused, late, token, placed) = acquire-waits spec l l' now wait endpoint name got in
    slot-Run spec log l l' now wait endpoint key (eq_text endpoint key) refl (LimiterRun-Run run)
      late placed
LimiterRun-Run {spec} {key} (pauses {log} {l} {now} ms run) =
    subst (λ es. Run spec.per_endpoint log (sends_of es key) now) (sym (pause-endpoints l now ms))
      (LimiterRun-Run run)

-- However calls to all endpoints and groups, pauses and the passing of time are interleaved, the calls
-- that the limiter lets out to one endpoint are at most `max` in any span of the window and its margin.
pub LimiterRun-count-le :
    {spec : RateLimiterSpec} {key : Text} {log : List ℕ} {l : RateLimiter} {now : ℕ}
    → 0 < spec.per_endpoint.max
    → LimiterRun spec key log l now
    → (t : ℕ) → count t (span spec.per_endpoint) log ≤ spec.per_endpoint.max
LimiterRun-count-le pos run t = Run-count-le pos (LimiterRun-Run run) t
