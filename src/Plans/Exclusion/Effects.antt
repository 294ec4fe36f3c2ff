-- ===== src/Plans/Exclusion/Effects.antt =====
-- What each statement on the plan lock does to the lock of a plan.
use new_bnbhack.Common.{
  ℕ, ◌+◌, ◌≡◌, refl, ap, Bool, true, false, ==_iff, List, Option, none, some, ◌⊎◌, inl, inr, arith,
  Bool-cases, update_first, touched_if, map_option, only_if, find-update_first,
  find-update_first-other,
}
use new_bnbhack.Common.Text.{Text, eq_text, eq_text_iff}
use new_bnbhack.Plans.Tables.{PlanRow, of_plan, get_plan}
use new_bnbhack.Plans.Locks.{
  is_free, is_held, with_lock, free_at, held_with, acquire_plan_lock, renew_plan_lock, lock_ttl_ms,
  hold,
}

abbrev pub lock_of : Option PlanRow → Option ℕ
lock_of none = none
lock_of (some row) = row.lock_until

-- the value of a plan's lock
abbrev pub lock_in : Text → List PlanRow → Option ℕ
lock_in id rows = lock_of (get_plan id rows)

touched_if-id :
    (p : PlanRow → Bool) (f : PlanRow → PlanRow) (row : PlanRow)
    → (f row).id ≡ row.id
    → (touched_if p f row).id ≡ row.id
touched_if-id p f row same = ground (arith, same)

of_plan_apart :
    (id other : Text) (row : PlanRow)
    → eq_text other id ≡ false
    → of_plan other row ≡ true
    → of_plan id row ≡ false
of_plan_apart id other row apart here =
    ground (arith, eq_text_iff row.id other, eq_text_iff row.id id, eq_text_iff other id)

-- an update of one plan, seen by a read of any plan
module _ (p : PlanRow → Bool) (f : PlanRow → PlanRow)
    (same : (row : PlanRow) → (f row).id ≡ row.id) where
  pub get_plan-update_first :
      (id : Text) (rows : List PlanRow)
      → get_plan id (update_first (of_plan id) (touched_if p f) rows)
        ≡ map_option (touched_if p f) (get_plan id rows)
  unfolding get_plan
  get_plan-update_first id rows =
      find-update_first (of_plan id) (touched_if p f) rows
        (λ row here. rw (touched_if-id p f row (same row)) here)

  pub get_plan-update_first-other :
      (id other : Text) (rows : List PlanRow)
      → eq_text other id ≡ false
      → get_plan id (update_first (of_plan other) (touched_if p f) rows) ≡ get_plan id rows
  unfolding get_plan
  get_plan-update_first-other id other rows apart =
      find-update_first-other (of_plan other) (of_plan id) (touched_if p f) rows
        (λ row here. of_plan_apart id other row apart here)
        (λ row here. rw (touched_if-id p f row (same row)) (of_plan_apart id other row apart here))

-- the lock after an update of the plan's row
abbrev lock_if : (PlanRow → Bool) → (PlanRow → PlanRow) → Option PlanRow → Option ℕ
lock_if p f found = lock_of (map_option (touched_if p f) found)

lock-taken :
    (now until : ℕ) (found : Option PlanRow) {row : PlanRow}
    → map_option (with_lock (some until)) (only_if (free_at now) found) ≡ some row
    → (is_free now (lock_of found) ≡ true)
      × (lock_if (free_at now) (with_lock (some until)) found ≡ some until)
      × (row.lock_until ≡ some until)
lock-taken now until none h = absurd (cc)
lock-taken now until (some found) h = elim (Bool-cases (free_at now found)) [
  | inl free ↦ (free, rw free refl, cc (rw free at h))
  | inr busy ↦ absurd (cc (rw busy at h))
]

lock-missed :
    (now until : ℕ) (found : Option PlanRow)
    → map_option (with_lock (some until)) (only_if (free_at now) found) ≡ none
    → lock_if (free_at now) (with_lock (some until)) found ≡ lock_of found
lock-missed now until none h = refl
lock-missed now until (some found) h = elim (Bool-cases (free_at now found)) [
  | inl free ↦ absurd (cc (rw free at h))
  | inr busy ↦ rw busy refl
]

module _ (id : Text) (now ttl : ℕ) (rows : List PlanRow) where
  pub acquire_plan_lock-taken :
      {row : PlanRow}
      → (acquire_plan_lock id now ttl rows).1 ≡ some row
      → (is_free now (lock_in id rows) ≡ true)
        × (lock_in id (acquire_plan_lock id now ttl rows).0 ≡ some (now + ttl))
        × (row.lock_until ≡ some (now + ttl))
  unfolding acquire_plan_lock
  acquire_plan_lock-taken h =
      rw (get_plan-update_first (free_at now) (with_lock (some (now + ttl))) (λ row. refl) id rows)
        (lock-taken now (now + ttl) (get_plan id rows) h)

  pub acquire_plan_lock-missed :
      (acquire_plan_lock id now ttl rows).1 ≡ none
      → lock_in id (acquire_plan_lock id now ttl rows).0 ≡ lock_in id rows
  unfolding acquire_plan_lock
  acquire_plan_lock-missed h =
      rw (get_plan-update_first (free_at now) (with_lock (some (now + ttl))) (λ row. refl) id rows)
        (lock-missed now (now + ttl) (get_plan id rows) h)

-- a lease that is renewed was the lock's value, and is its new value; any other changes nothing
abbrev pub IsHeld : ℕ → Option ℕ → Option ℕ → Option ℕ → Option ℕ → Type 0
IsHeld until lock lock' lease lease' =
    ((value : ℕ) × (lease ≡ some value)
      × (lock ≡ some value)
      × (lock' ≡ some until)
      × (lease' ≡ some until))
    ⊎ ((lock' ≡ lock) × (lease' ≡ none))

lock-renewed :
    (value until : ℕ) (found : Option PlanRow)
    → IsHeld until
        (lock_of found)
        (lock_if (held_with value) (with_lock (some until)) found)
        (some value)
        (map_option (λ _. until) (only_if (held_with value) found))
lock-renewed value until none = inr (refl, refl)
lock-renewed value until (some found) = elim (Bool-cases (held_with value found)) [
  | inl held ↦ inl (value, refl, held_value found.lock_until held, rw held refl, rw held refl)
  | inr lost ↦ inr (rw lost refl, rw lost refl)
]
  where
    held_value : (lock : Option ℕ) → is_held value lock ≡ true → lock ≡ some value
    held_value none h = absurd (cc)
    held_value (some v) h = ap some ((==_iff v value).0 h)

pub hold-IsHeld :
    (id : Text) (now : ℕ) (rows : List PlanRow) (lease : Option ℕ)
    → IsHeld
        (now + lock_ttl_ms)
        (lock_in id rows)
        (lock_in id (hold id now rows lease).0)
        lease
        (hold id now rows lease).1
unfolding hold renew_plan_lock
hold-IsHeld id now rows none = inr (refl, refl)
hold-IsHeld id now rows (some value) =
    rw
      (get_plan-update_first (held_with value) (with_lock (some (now + lock_ttl_ms))) (λ row. refl)
        id rows)
      (lock-renewed value (now + lock_ttl_ms) (get_plan id rows))
