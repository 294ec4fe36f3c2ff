-- ===== src/RateLimit/Windows.antt =====
-- A sliding window lets at most `max` sends into any span of time, whenever each send is committed at
-- its earliest time or later.
use native.Mathlib.Decide.{dec_lt}
use new_bnbhack.Common.{
  ℕ, zero, suc, ◌+◌, ◌-◌, ◌≤◌, ◌<◌, ◌≡◌, refl, sym, ◌∙◌, Bool, true, false, ◌&&◌, leb, ltb,
  if◌then◌else◌, length, List, [], ◌∷◌, ◌++◌, Option, none, some, All, arith,
}
use new_bnbhack.RateLimit.{
  WindowSpec, span, drop_old, get_elem?, blocker, after_blocker, earliest, insert, sort, commit,
}

-- the sends in the window that starts at `t`
abbrev pub is_within : ℕ → ℕ → ℕ → Bool
is_within t width s = leb t s && ltb s (t + width)

abbrev pub count : ℕ → ℕ → List ℕ → ℕ
count t width [] = 0
count t width (s ∷ sends) =
    if is_within t width s then suc (count t width sends) else count t width sends

abbrev pub Sorted : List ℕ → Type 0
Sorted [] = Unit
Sorted (s ∷ sends) = All (λ x. s ≤ x) sends × Sorted sends

count-le-length : (t width : ℕ) (sends : List ℕ) → count t width sends ≤ length sends
count-le-length t width [] = omega arith
count-le-length t width (s ∷ sends) = ground (arith, count-le-length t width sends)

count-append :
    (t width : ℕ) (xs ys : List ℕ) → count t width (xs ++ ys) ≡ count t width xs + count t width ys
count-append t width [] ys = omega arith
count-append t width (x ∷ xs) ys = ground (arith, count-append t width xs ys)

count-insert :
    (t width a : ℕ) (sends : List ℕ) → count t width (insert a sends) ≡ count t width (a ∷ sends)
unfolding insert
count-insert t width a [] = refl
count-insert t width a (s ∷ sends) = ground (arith, count-insert t width a sends)

count-sort : (t width : ℕ) (sends : List ℕ) → count t width (sort sends) ≡ count t width sends
unfolding sort
count-sort t width [] = refl
count-sort t width (s ∷ sends) =
    ground (arith, count-insert t width s (sort sends), count-sort t width sends)

count-commit :
    (t width at : ℕ) (sends : List ℕ) → count t width (commit sends at) ≡ count t width (at ∷ sends)
unfolding commit
count-commit t width at sends =
    ground (arith, count-sort t width (sends ++ at ∷ []), count-append t width sends (at ∷ []))

All-le-insert :
    (b a : ℕ) (sends : List ℕ) → b ≤ a → All (λ x. b ≤ x) sends → All (λ x. b ≤ x) (insert a sends)
unfolding insert
All-le-insert b a [] h hs = (h, tt)
All-le-insert b a (s ∷ sends) h (hb, hs) =
    elim (leb a s)
      as (λ c. All (λ x. b ≤ x) (elim c [ true ↦ a ∷ s ∷ sends | false ↦ s ∷ insert a sends ])) [
        | true ↦ (h, (hb, hs))
        | false ↦ (hb, All-le-insert b a sends h hs)
      ]

All-le_trans : (b a : ℕ) (sends : List ℕ) → b ≤ a → All (λ x. a ≤ x) sends → All (λ x. b ≤ x) sends
All-le_trans b a [] h hs = tt
All-le_trans b a (s ∷ sends) h (ha, hs) = (omega (arith, h, ha), All-le_trans b a sends h hs)

insert_low : (a s : ℕ) (sends : List ℕ) → a ≤ s → insert a (s ∷ sends) ≡ a ∷ s ∷ sends
unfolding insert
insert_low a s sends h = ground (arith, h)

insert_high : (a s : ℕ) (sends : List ℕ) → s < a → insert a (s ∷ sends) ≡ s ∷ insert a sends
unfolding insert
insert_high a s sends h = ground (arith, h)

insert-Sorted : (a : ℕ) (sends : List ℕ) → Sorted sends → Sorted (insert a sends)
insert-Sorted a [] h = unfold insert in (tt, tt)
insert-Sorted a (s ∷ sends) (hs, rest) = elim (dec_lt s a) [
  | yes high ↦
      rw (insert_high a s sends high)
        (All-le-insert s a sends (omega (arith, high)) hs, insert-Sorted a sends rest)
  | no low ↦
      let under : a ≤ s = omega arith in
      rw (insert_low a s sends under) ((under, All-le_trans a s sends under hs), (hs, rest))
]

sort-Sorted : (sends : List ℕ) → Sorted (sort sends)
unfolding sort
sort-Sorted [] = tt
sort-Sorted (s ∷ sends) = insert-Sorted s (sort sends) (sort-Sorted sends)

pub commit-Sorted : (sends : List ℕ) (at : ℕ) → Sorted (commit sends at)
unfolding commit
commit-Sorted sends at = sort-Sorted (sends ++ at ∷ [])

drop_old_one :
    (now width s : ℕ) (sends : List ℕ)
    → s + width ≤ now
    → drop_old now width (s ∷ sends) ≡ drop_old now width sends
unfolding drop_old
drop_old_one now width s sends h = ground (arith, h)

drop_old_none :
    (now width s : ℕ) (sends : List ℕ)
    → now < s + width
    → drop_old now width (s ∷ sends) ≡ s ∷ sends
unfolding drop_old
drop_old_none now width s sends h = ground (arith, h)

drop_old-Sorted :
    (now width : ℕ) (sends : List ℕ) → Sorted sends → Sorted (drop_old now width sends)
drop_old-Sorted now width [] h = unfold drop_old in tt
drop_old-Sorted now width (s ∷ sends) (hs, rest) = elim (dec_lt now (s + width)) [
  | yes young ↦ rw (drop_old_none now width s sends young) (hs, rest)
  | no old ↦
      rw (drop_old_one now width s sends (omega arith)) (drop_old-Sorted now width sends rest)
]

-- Only sends that no window ending after `now` holds are dropped.
count-drop_old :
    (t width now : ℕ) (sends : List ℕ)
    → now < t + width
    → count t width (drop_old now width sends) ≡ count t width sends
unfolding drop_old
count-drop_old t width now [] h = refl
count-drop_old t width now (s ∷ sends) h = ground (arith, h, count-drop_old t width now sends h)

get_elem?-le :
    (a b k : ℕ) (sends : List ℕ) → All (λ x. a ≤ x) sends → get_elem? sends k ≡ some b → a ≤ b
get_elem?-le a b k [] hs e = absurd (cc)
get_elem?-le a b zero (s ∷ sends) (h, hs) e = ground (arith, h, e)
get_elem?-le a b (suc k) (s ∷ sends) (h, hs) e = get_elem?-le a b k sends hs e

-- A window that starts behind the k-th of the sorted sends holds only sends behind it.
count-behind :
    (t width b k : ℕ) (sends : List ℕ)
    → Sorted sends
    → get_elem? sends k ≡ some b
    → b < t
    → count t width sends + suc k ≤ length sends
count-behind t width b k [] h e lt = absurd (cc)
count-behind t width b zero (s ∷ sends) (hs, rest) e lt =
    ground (arith, lt, e, count-le-length t width sends)
count-behind t width b (suc k) (s ∷ sends) (hs, rest) e lt =
    ground (arith, lt, get_elem?-le s b k sends hs e, count-behind t width b k sends rest e lt)

get_elem?-lt : (k : ℕ) (sends : List ℕ) → k < length sends → (b : ℕ) × (get_elem? sends k ≡ some b)
get_elem?-lt k [] h = absurd (omega (arith, h))
get_elem?-lt zero (s ∷ sends) h = (s, refl)
get_elem?-lt (suc k) (s ∷ sends) h = get_elem?-lt k sends (omega (arith, h))

count_before :
    (t width at max : ℕ) (kept : List ℕ)
    → 0 < max
    → Sorted kept
    → after_blocker 0 width (blocker max kept) ≤ at
    → at < t + width
    → count t width kept < max
unfolding blocker
count_before t width at max kept pos sorted late inside = elim (dec_lt (length kept) max) [
  | yes few ↦ omega (arith, few, count-le-length t width kept)
  | no many ↦
      let (b, found) = get_elem?-lt (length kept - max) kept (omega arith) in
      let behind : b < t = ground (arith, many, found, late, inside) in
      omega (arith, many, count-behind t width b (length kept - max) kept sorted found behind)
]

after_blocker-le :
    (now width : ℕ) (o : Option ℕ)
    → (now ≤ after_blocker now width o) × (after_blocker 0 width o ≤ after_blocker now width o)
after_blocker-le now width none = (omega arith, omega arith)
after_blocker-le now width (some b) = (ground arith, ground arith)

-- what is kept counts as much as all the sends did, and where it holds a late send, has room for it
earliest-count :
    (spec : WindowSpec) (sends : List ℕ) (now t : ℕ)
    → now < t + span spec
    → count t (span spec) (earliest spec sends now).0 ≡ count t (span spec) sends
unfolding earliest
earliest-count spec sends now t h = count-drop_old t (span spec) now sends h

earliest-room :
    (spec : WindowSpec) (sends : List ℕ) (now at t : ℕ)
    → 0 < spec.max
    → Sorted sends
    → (earliest spec sends now).1 ≤ at
    → at < t + span spec
    → (now ≤ at) × (count t (span spec) (earliest spec sends now).0 < spec.max)
unfolding earliest
earliest-room spec sends now at t pos sorted late inside =
    let kept = drop_old now (span spec) sends in
    let (first, second) = after_blocker-le now (span spec) (blocker spec.max kept) in
    (
      omega (arith, first, late),
      count_before t (span spec) at spec.max kept pos (drop_old-Sorted now (span spec) sends sorted)
          (omega (arith, second, late)) inside,
    )

-- The sends of one window, as they are committed: `log` has all of them, `sends` those that the
-- window still holds.
pub data Run (spec : WindowSpec) : List ℕ → List ℕ → ℕ → Type 0 where
  starts : (now : ℕ) → Run spec [] [] now
  waits :
      {log sends : List ℕ} {now : ℕ} (later : ℕ)
      → Run spec log sends now
      → now ≤ later
      → Run spec log sends later
  commits :
      {log sends : List ℕ} {now : ℕ} (at : ℕ)
      → Run spec log sends now
      → (earliest spec sends now).1 ≤ at
      → Run spec (at ∷ log) (commit (earliest spec sends now).0 at) now

Run-Sorted :
    {spec : WindowSpec} {log sends : List ℕ} {now : ℕ} → Run spec log sends now → Sorted sends
Run-Sorted (starts now) = tt
Run-Sorted (waits later run h) = Run-Sorted run
Run-Sorted {spec} (commits {log} {sends} {now} at run h) =
    commit-Sorted (earliest spec sends now).0 at

-- A window of time that is not over holds what the sliding window holds of it.
Run-count :
    {spec : WindowSpec} {log sends : List ℕ} {now : ℕ} (t : ℕ)
    → Run spec log sends now
    → now < t + span spec
    → count t (span spec) log ≡ count t (span spec) sends
Run-count t (starts now) h = refl
Run-count t (waits later run le) h = Run-count t run (omega (arith, le, h))
Run-count {spec} t (commits {log} {sends} {now} at run late) h =
    let kept = (earliest spec sends now).0 in
    let same : count t (span spec) log ≡ count t (span spec) kept =
      Run-count t run h ∙ sym (earliest-count spec sends now t h) in
    rw (count-commit t (span spec) at kept, same) refl

-- However the sends fall, no span of time, the margin included, holds more than `max` of them.
pub Run-count-le :
    {spec : WindowSpec} {log sends : List ℕ} {now : ℕ}
    → 0 < spec.max
    → Run spec log sends now
    → (t : ℕ) → count t (span spec) log ≤ spec.max
Run-count-le pos (starts now) t = omega arith
Run-count-le pos (waits later run le) t = Run-count-le pos run t
Run-count-le {spec} pos (commits {log} {sends} {now} at run late) t =
    let rest = Run-count-le pos run t in
    elim (dec_lt at (t + span spec)) [
      | yes inside ↦
          let (after, room) = earliest-room spec sends now at t pos (Run-Sorted run) late inside in
          let open_ : now < t + span spec = omega (arith, after, inside) in
          let same = Run-count t run open_ in
          let kept = earliest-count spec sends now t open_ in ground (arith, rest, room, same, kept)
      | no outside ↦ ground (arith, rest, outside)
    ]
