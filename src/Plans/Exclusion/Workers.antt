-- ===== src/Plans/Exclusion/Workers.antt =====
-- Workers that share the table of plans, interleaved in any order.
use new_bnbhack.Common.{
  ℕ, ◌+◌, ◌≡◌, sym, ◌∙◌, Bool, true, false, ltb→lt, List, Option, none, some, inl, inr,
}
use new_bnbhack.Common.Text.{Text, eq_text}
use new_bnbhack.Domain.{PlanStatus}
use new_bnbhack.Plans.Tables.{PlanRow, PlanPatch}
use new_bnbhack.Plans.Locks.{
  is_free, acquire_plan_lock, release_plan_lock, update_plan, update_plan_if, hold, lock_ttl_ms,
}
use new_bnbhack.Plans.Exclusion.Leases.{
  updated, AreExclusive, AllBehindBut, granted-AreExclusive, dropped-AreExclusive,
  lost-AreExclusive, later-AreExclusive, owner-AllBehindBut,
}
use new_bnbhack.Plans.Exclusion.Effects.{
  lock_in, IsHeld, acquire_plan_lock-taken, acquire_plan_lock-missed, hold-IsHeld,
}
use new_bnbhack.Plans.Exclusion.Writes.{
  IsFreed, update_plan-lock, update_plan_if-lock, release_plan_lock-IsFreed,
  acquire_plan_lock-other, hold-other, release_plan_lock-other,
}

-- the table, the clock that the workers share, and the lease that each worker has on one plan
pub record System : Type 0 where
  pub rows : List PlanRow
  pub clock : ℕ
  pub lease : ℕ → Option ℕ

pub data Step (id : Text) (s : System) : System → Type 0 where
  waits : (d : ℕ) → Step id s (record s { clock = s.clock + d })
  -- worker `i` takes the plan's lock, or finds it taken
  takes :
      (i ttl : ℕ) {row : PlanRow}
      → (acquire_plan_lock id s.clock ttl s.rows).1 ≡ some row
      → Step id s (record s {
        rows = (acquire_plan_lock id s.clock ttl s.rows).0;
        lease = updated s.lease i row.lock_until;
      })
  misses :
      (ttl : ℕ)
      → (acquire_plan_lock id s.clock ttl s.rows).1 ≡ none
      → Step id s (record s { rows = (acquire_plan_lock id s.clock ttl s.rows).0 })
  -- `PlanLease.hold`
  holds :
      (i : ℕ)
      → Step id s (record s {
        rows = (hold id s.clock s.rows (s.lease i)).0;
        lease = updated s.lease i (hold id s.clock s.rows (s.lease i)).1;
      })
  releases :
      (i : ℕ) (patch : PlanPatch) {rows : List PlanRow} {done : Bool}
      → release_plan_lock id (s.lease i) patch s.rows ≡ some (rows, done)
      → Step id s (record s { rows = rows; lease = updated s.lease i none })
  -- a worker that crashes, or whose release a constraint refuses
  dies : (i : ℕ) → Step id s (record s { lease = updated s.lease i none })
  -- other writes, of this plan or another
  writes :
      (plan : Text) (patch : PlanPatch) {rows : List PlanRow} {done : Bool}
      → update_plan plan patch s.rows ≡ some (rows, done)
      → Step id s (record s { rows = rows })
  writes_if :
      (plan : Text) (status : PlanStatus) (reason : Option Text) (patch : PlanPatch)
      {rows : List PlanRow} {done : Bool}
      → update_plan_if plan status reason patch s.rows ≡ some (rows, done)
      → Step id s (record s { rows = rows })
  -- the same statements on the locks of other plans
  takes_other :
      (other : Text) (ttl : ℕ)
      → eq_text other id ≡ false
      → Step id s (record s { rows = (acquire_plan_lock other s.clock ttl s.rows).0 })
  holds_other :
      (other : Text) (lease : Option ℕ)
      → eq_text other id ≡ false
      → Step id s (record s { rows = (hold other s.clock s.rows lease).0 })
  releases_other :
      (other : Text) (lease : Option ℕ) (patch : PlanPatch) {rows : List PlanRow} {done : Bool}
      → eq_text other id ≡ false
      → release_plan_lock other lease patch s.rows ≡ some (rows, done)
      → Step id s (record s { rows = rows })

-- from any table in which no worker has a lease yet, whatever its locks are
pub data Reach (id : Text) : System → Type 0 where
  start :
      (rows : List PlanRow) (clock : ℕ)
      → Reach id (record { rows = rows; clock = clock; lease = λ _. none })
  later : {s t : System} → Reach id s → Step id s t → Reach id t

abbrev pub IsExclusive : Text → System → Type 0
IsExclusive id s = AreExclusive s.clock (lock_in id s.rows) s.lease

free-AllBehindBut :
    (k clock : ℕ) (lock : Option ℕ) (lease : ℕ → Option ℕ)
    → AreExclusive clock lock lease
    → is_free clock lock ≡ true
    → AllBehindBut k clock lease
free-AllBehindBut k clock lock lease h free i apart value theirs = elim (h.behind i value theirs) [
  | inl past ↦ past
  | inr now ↦ ltb→lt value clock (rw now at free)
]

takes-IsExclusive :
    (id : Text) (s : System) (i ttl : ℕ) (row : PlanRow)
    → (acquire_plan_lock id s.clock ttl s.rows).1 ≡ some row
    → IsExclusive id s
    → AreExclusive s.clock
        (lock_in id (acquire_plan_lock id s.clock ttl s.rows).0)
        (updated s.lease i row.lock_until)
takes-IsExclusive id s i ttl row got h =
    let (free, locked, mine) = acquire_plan_lock-taken id s.clock ttl s.rows got in
    rw (locked, mine)
      (granted-AreExclusive i s.clock ttl s.lease (free-AllBehindBut i s.clock _ s.lease h free))

holds-IsExclusive :
    (clock i : ℕ) (lock lock' lease' : Option ℕ) (lease : ℕ → Option ℕ)
    → IsHeld (clock + lock_ttl_ms) lock lock' (lease i) lease'
    → AreExclusive clock lock lease
    → AreExclusive clock lock' (updated lease i lease')
holds-IsExclusive clock i lock lock' lease' lease (inl (value, mine, locked, now, kept)) h =
    rw (now, kept)
      (granted-AreExclusive i clock lock_ttl_ms lease (owner-AllBehindBut h i value mine locked))
holds-IsExclusive clock i lock lock' lease' lease (inr (same, lost)) h =
    rw (same, lost) (lost-AreExclusive h i)

releases-IsExclusive :
    (clock i : ℕ) (lock lock' : Option ℕ) (lease : ℕ → Option ℕ)
    → IsFreed lock lock' (lease i)
    → AreExclusive clock lock lease
    → AreExclusive clock lock' (updated lease i none)
releases-IsExclusive clock i lock lock' lease (inl (value, mine, locked, now)) h =
    rw now (dropped-AreExclusive i clock 0 lease (owner-AllBehindBut h i value mine locked))
releases-IsExclusive clock i lock lock' lease (inr same) h = rw same (lost-AreExclusive h i)

Step-IsExclusive : {id : Text} {s t : System} → Step id s t → IsExclusive id s → IsExclusive id t
Step-IsExclusive (waits d) h = later-AreExclusive h d
Step-IsExclusive {id} {s} (takes i ttl {row} got) h = takes-IsExclusive id s i ttl row got h
Step-IsExclusive {id} {s} (misses ttl missed) h =
    rw (acquire_plan_lock-missed id s.clock ttl s.rows missed) h
Step-IsExclusive {id} {s} (holds i) h =
    holds-IsExclusive s.clock i _ _ _ s.lease (hold-IsHeld id s.clock s.rows (s.lease i)) h
Step-IsExclusive {id} {s} (releases i patch done) h =
    releases-IsExclusive s.clock i _ _ s.lease
      (release_plan_lock-IsFreed id (s.lease i) patch s.rows done) h
Step-IsExclusive (dies i) h = lost-AreExclusive h i
Step-IsExclusive {id} {s} (writes plan patch done) h =
    rw (update_plan-lock plan id patch s.rows done) h
Step-IsExclusive {id} {s} (writes_if plan status reason patch done) h =
    rw (update_plan_if-lock plan id status reason patch s.rows done) h
Step-IsExclusive {id} {s} (takes_other other ttl apart) h =
    rw (acquire_plan_lock-other id other s.rows apart s.clock ttl) h
Step-IsExclusive {id} {s} (holds_other other lease apart) h =
    rw (hold-other id other s.rows apart s.clock lease) h
Step-IsExclusive {id} {s} (releases_other other lease patch apart done) h =
    rw (release_plan_lock-other id other s.rows apart lease patch done) h

Reach-IsExclusive : {id : Text} {s : System} → Reach id s → IsExclusive id s
Reach-IsExclusive (start rows clock) = record {
  behind = λ i value h. absurd (cc);
  unique = λ i j value h g e. absurd (cc);
}
Reach-IsExclusive (later r st) = Step-IsExclusive st (Reach-IsExclusive r)

-- worker `i` has a lease that is still the value of the plan's lock
abbrev pub Owns : Text → System → ℕ → Type 0
Owns id s i = (value : ℕ) × (s.lease i ≡ some value) × (lock_in id s.rows ≡ some value)

hold-Owns :
    (id : Text) (s : System) (i : ℕ) {until : ℕ}
    → (hold id s.clock s.rows (s.lease i)).1 ≡ some until
    → Owns id s i
hold-Owns id s i got = elim (hold-IsHeld id s.clock s.rows (s.lease i)) [
  | inl (value, mine, locked, now, kept) ↦ (value, mine, locked)
  | inr (same, lost) ↦ absurd (cc)
]

-- However workers take, renew and release the locks of plans, crash, and write plans while time
-- passes, two different workers never both hold a plan: of their leases at most one is renewed by
-- hold.
pub Reach-held_once :
    {id : Text} {s : System} {until until' : ℕ}
    → Reach id s
    → (i j : ℕ) → (hold id s.clock s.rows (s.lease i)).1 ≡ some until
    → (hold id s.clock s.rows (s.lease j)).1 ≡ some until'
    → i ≡ j
Reach-held_once {id} {s} r i j got got' =
    let (value, mine, locked) = hold-Owns id s i got in
    let (value', theirs, locked') = hold-Owns id s j got' in
    (Reach-IsExclusive r).unique i j value mine (theirs ∙ sym locked' ∙ locked) locked
