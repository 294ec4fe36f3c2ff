-- ===== src/Common/Rows.antt =====
-- The one row of a table that a unique key picks: reading it, writing it, and how reads see writes.

use Prim.Native.Nat.{suc}
use mathlib.Core.Path.{◌≡◌, refl, ap}
use mathlib.Core.Bool.{Bool, true, false, ◌||◌}
use mathlib.Core.List.{List, [], ◌∷◌}
use mathlib.Core.Logic.{inl, inr}
use mathlib.Core.Option.{Option, none, some}
use new_bnbhack.Common.Tests.{if◌then◌else◌, Bool-cases}
use new_bnbhack.Common.Lists.{find, any, length, filter}

module _ {ℓ} {A : Type ℓ} where
  -- `where condition`, with the row as it is where the condition fails
  abbrev pub touched_if : (A → Bool) → (A → A) → A → A
  touched_if p f row = if p row then f row else row

  -- `update ... where key = $key`: the key is unique, so the first row is the only one
  unfoldable pub update_first : (A → Bool) → (A → A) → List A → List A
  update_first key f [] = []
  update_first key f (row ∷ rows) = if key row then f row ∷ rows else row ∷ update_first key f rows

  -- `Option.map`, which computes on its cases
  abbrev pub map_option {κ} : {B : Type κ} → (A → B) → Option A → Option B
  map_option f none = none
  map_option f (some a) = some (f a)

  abbrev pub is_some : Option A → Bool
  is_some none = false
  is_some (some a) = true

  -- a row, if it is there and passes the test
  abbrev pub only_if : (A → Bool) → Option A → Option A
  only_if p none = none
  only_if p (some row) = if p row then some row else none

  pub find-update_first :
      (key : A → Bool) (f : A → A) (rows : List A)
      → ((row : A) → key row ≡ true → key (f row) ≡ true)
      → find key (update_first key f rows) ≡ map_option f (find key rows)
  unfolding update_first
  find-update_first key f [] keeps = refl
  find-update_first key f (row ∷ rows) keeps = elim (Bool-cases (key row)) [
    | inl hit ↦ rw (hit, keeps row hit) refl
    | inr miss ↦ rw (miss, miss) (find-update_first key f rows keeps)
  ]

  -- what is read by another key
  pub find-update_first-other :
      (key other : A → Bool) (f : A → A) (rows : List A)
      → ((row : A) → key row ≡ true → other row ≡ false)
      → ((row : A) → key row ≡ true → other (f row) ≡ false)
      → find other (update_first key f rows) ≡ find other rows
  unfolding update_first
  find-update_first-other key other f [] apart keeps = refl
  find-update_first-other key other f (row ∷ rows) apart keeps = elim (Bool-cases (key row)) [
    | inl hit ↦ rw (hit, keeps row hit, apart row hit) refl
    | inr miss ↦ rw miss (
        ap (λ r. if other row then some row else r)
          (find-update_first-other key other f rows apart keeps))
  ]

  pub any-find : (key : A → Bool) (rows : List A) → any key rows ≡ is_some (find key rows)
  any-find key [] = refl
  any-find key (row ∷ rows) = elim (Bool-cases (key row)) [
    | inl hit ↦ rw hit refl
    | inr miss ↦ rw miss (any-find key rows)
  ]

  length-if-cons :
      (b c : Bool) (x y : A) (xs ys : List A)
      → b ≡ c
      → length xs ≡ length ys
      → length (if b then x ∷ xs else xs) ≡ length (if c then y ∷ ys else ys)
  length-if-cons true true x y xs ys same h = ap suc h
  length-if-cons false false x y xs ys same h = h
  length-if-cons true false x y xs ys same h = absurd (cc)
  length-if-cons false true x y xs ys same h = absurd (cc)

  -- a count that an update leaves alone
  pub length-filter-update_first :
      (p key : A → Bool) (f : A → A) (rows : List A)
      → ((row : A) → p (f row) ≡ p row)
      → length (filter p (update_first key f rows)) ≡ length (filter p rows)
  unfolding update_first
  length-filter-update_first p key f [] same = refl
  length-filter-update_first p key f (row ∷ rows) same = elim (Bool-cases (key row)) [
    | inl hit ↦ rw hit (length-if-cons (p (f row)) (p row) (f row) row _ _ (same row) refl)
    | inr miss ↦ rw miss (
        length-if-cons (p row) (p row) row row _ _ refl
          (length-filter-update_first p key f rows same))
  ]

  pub any-update_first :
      (p key : A → Bool) (f : A → A) (rows : List A)
      → ((row : A) → p (f row) ≡ p row)
      → any p (update_first key f rows) ≡ any p rows
  unfolding update_first
  any-update_first p key f [] same = refl
  any-update_first p key f (row ∷ rows) same = elim (Bool-cases (key row)) [
    | inl hit ↦ rw (hit, same row) refl
    | inr miss ↦ rw miss (ap (λ b. p row || b) (any-update_first p key f rows same))
  ]
