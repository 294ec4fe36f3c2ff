-- ===== src/Plans/Exclusion/Writes.antt =====
-- Releases and other writes of plans, and what they do to the lock of a plan.
use mathlib.Core.Option.{some-injective}
use new_bnbhack.Common.{
  ℕ, ◌+◌, ◌≡◌, refl, sym, ap, Bool, true, false, ==_iff, List, Option, none, some, ◌⊎◌, inl, inr,
  arith, Bool-cases, update_first, touched_if, map_option,
}
use new_bnbhack.Common.Text.{Text, eq_text, eq_text_iff}
use new_bnbhack.Domain.{PlanStatus}
use new_bnbhack.Plans.Tables.{PlanRow, PlanPatch, with_patch, of_plan, get_plan}
use new_bnbhack.Plans.Locks.{
  is_held, with_lock, free_at, held_with, acquire_plan_lock, renew_plan_lock, write_plan,
  release_with, release_plan_lock, update_plan, as_expected, update_plan_if, lock_ttl_ms, hold,
}
use new_bnbhack.Plans.Exclusion.Effects.{
  lock_of, lock_in, get_plan-update_first, get_plan-update_first-other,
}

pub write_plan-rows :
    (id : Text) (p : PlanRow → Bool) (f : PlanRow → PlanRow) (rows : List PlanRow)
    {rows' : List PlanRow} {done : Bool}
    → write_plan id p f rows ≡ some (rows', done)
    → rows' ≡ update_first (of_plan id) (touched_if p f) rows
unfolding write_plan
write_plan-rows id p f rows h = ground (arith, h)

lock-touched_if :
    (p : PlanRow → Bool) (f : PlanRow → PlanRow) (found : Option PlanRow)
    → ((row : PlanRow) → (f row).lock_until ≡ row.lock_until)
    → lock_of (map_option (touched_if p f) found) ≡ lock_of found
lock-touched_if p f none keeps = refl
lock-touched_if p f (some row) keeps = ground (arith, keeps row)

-- a write that leaves the lock's column alone
write_plan-lock :
    (plan id : Text) (p : PlanRow → Bool) (patch : PlanPatch) (rows : List PlanRow)
    {rows' : List PlanRow} {done : Bool}
    → write_plan plan p (with_patch patch) rows ≡ some (rows', done)
    → lock_in id rows' ≡ lock_in id rows
write_plan-lock plan id p patch rows h =
    rw (write_plan-rows plan p (with_patch patch) rows h) (elim (Bool-cases (eq_text plan id)) [
      | inl same ↦ rw ((eq_text_iff plan id).0 same) (
          rw (get_plan-update_first p (with_patch patch) (λ row. refl) id rows)
            (lock-touched_if p (with_patch patch) (get_plan id rows) (λ row. refl)))
      | inr apart ↦
          rw (get_plan-update_first-other p (with_patch patch) (λ row. refl) id plan rows apart)
            refl
    ])

pub update_plan-rows :
    (id : Text) (patch : PlanPatch) (rows : List PlanRow) {rows' : List PlanRow} {done : Bool}
    → update_plan id patch rows ≡ some (rows', done)
    → rows' ≡ update_first (of_plan id) (touched_if (λ row. true) (with_patch patch)) rows
unfolding update_plan
update_plan-rows id patch rows h = write_plan-rows id (λ row. true) (with_patch patch) rows h

pub update_plan-lock :
    (plan id : Text) (patch : PlanPatch) (rows : List PlanRow) {rows' : List PlanRow} {done : Bool}
    → update_plan plan patch rows ≡ some (rows', done)
    → lock_in id rows' ≡ lock_in id rows
unfolding update_plan
update_plan-lock plan id patch rows h = write_plan-lock plan id (λ row. true) patch rows h

pub update_plan_if-lock :
    (plan id : Text) (status : PlanStatus) (reason : Option Text) (patch : PlanPatch)
    (rows : List PlanRow) {rows' : List PlanRow} {done : Bool}
    → update_plan_if plan status reason patch rows ≡ some (rows', done)
    → lock_in id rows' ≡ lock_in id rows
unfolding update_plan_if
update_plan_if-lock plan id status reason patch rows h =
    write_plan-lock plan id (as_expected status reason) patch rows h

-- a release frees the lock where the lease is its value, and leaves it alone otherwise
abbrev pub IsFreed : Option ℕ → Option ℕ → Option ℕ → Type 0
IsFreed lock lock' lease =
    ((value : ℕ) × (lease ≡ some value) × (lock ≡ some value) × (lock' ≡ none)) ⊎ (lock' ≡ lock)

lock-released :
    (value : ℕ) (patch : PlanPatch) (found : Option PlanRow)
    → IsFreed
        (lock_of found)
        (lock_of (map_option (touched_if (held_with value) (release_with patch)) found))
        (some value)
lock-released value patch none = inr refl
lock-released value patch (some found) = elim (Bool-cases (held_with value found)) [
  | inl held ↦ inl (value, refl, held_value found.lock_until held, rw held refl)
  | inr lost ↦ inr (rw lost refl)
]
  where
    held_value : (lock : Option ℕ) → is_held value lock ≡ true → lock ≡ some value
    held_value none h = absurd (cc)
    held_value (some v) h = ap some ((==_iff v value).0 h)

pub release_plan_lock-IsFreed :
    (id : Text) (lease : Option ℕ) (patch : PlanPatch) (rows : List PlanRow) {rows' : List PlanRow}
    {done : Bool}
    → release_plan_lock id lease patch rows ≡ some (rows', done)
    → IsFreed (lock_in id rows) (lock_in id rows') lease
unfolding release_plan_lock
release_plan_lock-IsFreed id none patch rows h =
    inr
      (ap (λ r. lock_in id r) (sym (ap (λ (x : List PlanRow × Bool). x.0) (some-injective _ _ h))))
release_plan_lock-IsFreed id (some value) patch rows h =
    rw (write_plan-rows id (held_with value) (release_with patch) rows h) (
      rw (get_plan-update_first (held_with value) (release_with patch) (λ row. refl) id rows)
        (lock-released value patch (get_plan id rows)))

-- statements on the locks of other plans
module _ (id other : Text) (rows : List PlanRow) (apart : eq_text other id ≡ false) where
  pub acquire_plan_lock-other :
      (now ttl : ℕ) → lock_in id (acquire_plan_lock other now ttl rows).0 ≡ lock_in id rows
  unfolding acquire_plan_lock
  acquire_plan_lock-other now ttl = ap lock_of (
      get_plan-update_first-other (free_at now) (with_lock (some (now + ttl))) (λ row. refl) id
        other rows apart)

  pub hold-other :
      (now : ℕ) (lease : Option ℕ) → lock_in id (hold other now rows lease).0 ≡ lock_in id rows
  unfolding hold renew_plan_lock
  hold-other now none = refl
  hold-other now (some value) = ap lock_of (
      get_plan-update_first-other (held_with value) (with_lock (some (now + lock_ttl_ms)))
        (λ row. refl) id other rows apart)

  pub release_plan_lock-other :
      (lease : Option ℕ) (patch : PlanPatch) {rows' : List PlanRow} {done : Bool}
      → release_plan_lock other lease patch rows ≡ some (rows', done)
      → lock_in id rows' ≡ lock_in id rows
  unfolding release_plan_lock
  release_plan_lock-other none patch h =
      ap (λ r. lock_in id r) (sym (ap (λ (x : List PlanRow × Bool). x.0) (some-injective _ _ h)))
  release_plan_lock-other (some value) patch h =
      rw (write_plan-rows other (held_with value) (release_with patch) rows h) (
        ap lock_of (
          get_plan-update_first-other (held_with value) (release_with patch) (λ row. refl) id other
            rows apart))
