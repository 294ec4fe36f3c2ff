-- ===== src/Plans/Exclusion/Leases.antt =====
-- The leases that workers keep on one plan's lock, against the value of the lock.
use new_bnbhack.Common.{
  ℕ, ◌+◌, ◌<◌, ◌≡◌, sym, ◌∙◌, false, ◌==◌, ==_iff, if◌then◌else◌, Option, none, some, ◌⊎◌, inl, inr,
  arith, Bool-cases,
}

abbrev pub updated : (ℕ → Option ℕ) → ℕ → Option ℕ → ℕ → Option ℕ
updated lease k value i = if k == i then value else lease i

-- A lease is the lock's value, or lies in the past and will never be the lock's value again; no two
-- workers' leases are the lock's value.
pub record AreExclusive (clock : ℕ) (lock : Option ℕ) (lease : ℕ → Option ℕ) : Type 0 where
  pub behind : (i value : ℕ) → lease i ≡ some value → (value < clock) ⊎ (lock ≡ some value)
  pub unique :
      (i j value : ℕ) → lease i ≡ some value → lease j ≡ some value → lock ≡ some value → i ≡ j

-- every worker's lease but one lies in the past
abbrev pub AllBehindBut : ℕ → ℕ → (ℕ → Option ℕ) → Type 0
AllBehindBut k clock lease =
    (i : ℕ) → (k == i) ≡ false → (value : ℕ) → lease i ≡ some value → value < clock

-- only one worker's lease is new, and it is the lock's value
module _ (k clock ttl : ℕ) (lease : ℕ → Option ℕ) (others : AllBehindBut k clock lease) where
  granted_at : ℕ → Option ℕ
  granted_at = updated lease k (some (clock + ttl))

  granted_owner : (i : ℕ) → granted_at i ≡ some (clock + ttl) → k ≡ i
  unfolding granted_at
  granted_owner i h = elim (Bool-cases (k == i)) [
    | inl same ↦ (==_iff k i).0 same
    | inr apart ↦ absurd (omega (arith, others i apart (clock + ttl) (rw apart at h)))
  ]

  pub granted-AreExclusive :
      AreExclusive clock (some (clock + ttl)) (updated lease k (some (clock + ttl)))
  unfolding granted_at
  granted-AreExclusive = record {
    behind = λ i value h. elim (Bool-cases (k == i)) [
      | inl same ↦ inr (rw same at h)
      | inr apart ↦ inl (others i apart value (rw apart at h))
    ];
    unique = λ i j value h g e. sym (granted_owner i (h ∙ sym e)) ∙ granted_owner j (g ∙ sym e);
  }

  pub dropped-AreExclusive : AreExclusive clock none (updated lease k none)
  dropped-AreExclusive = record {
    behind = λ i value h. elim (Bool-cases (k == i)) [
      | inl same ↦ absurd (cc (rw same at h))
      | inr apart ↦ inl (others i apart value (rw apart at h))
    ];
    unique = λ i j value h g e. absurd (cc);
  }

kept_lease :
    (lease : ℕ → Option ℕ) (k i value : ℕ)
    → updated lease k none i ≡ some value
    → lease i ≡ some value
kept_lease lease k i value h = ground (arith, h)

module _ {clock : ℕ} {lock : Option ℕ} {lease : ℕ → Option ℕ}
    (h : AreExclusive clock lock lease) where
  pub lost-AreExclusive : (k : ℕ) → AreExclusive clock lock (updated lease k none)
  lost-AreExclusive k = record {
    behind = λ i value e. h.behind i value (kept_lease lease k i value e);
    unique = λ i j value e f l.
        h.unique i j value (kept_lease lease k i value e) (kept_lease lease k j value f) l;
  }

  pub later-AreExclusive : (d : ℕ) → AreExclusive (clock + d) lock lease
  later-AreExclusive d = record {
    behind =
        λ i value e. elim (h.behind i value e) [ inl past ↦ inl (omega arith) | inr now ↦ inr now ];
    unique = h.unique;
  }

  -- the owner of the lock is the only one whose lease is not in the past
  pub owner-AllBehindBut :
      (k value : ℕ) → lease k ≡ some value → lock ≡ some value → AllBehindBut k clock lease
  owner-AllBehindBut k value mine locked i apart w theirs = elim (h.behind i w theirs) [
    | inl past ↦ past
    | inr now ↦
        let same = h.unique k i w (mine ∙ sym locked ∙ now) theirs now in
        absurd (cc ((==_iff k i).1 same))
  ]
