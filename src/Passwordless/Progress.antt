-- ===== src/Passwordless/Progress.antt =====
-- Concurrent calls of `redeem_magic_link` of src/passwordless.rs that are all scheduled to their end.
use armature_auth.Prelude.{
  String, ℕ, zero, suc, ◌+◌, ◌-◌, ◌≤◌, ◌<◌, ◌==◌, ltb, ℤ, ◌≡◌, refl, ap, ◌∙◌, List, [], ◌∷◌, map,
  none, some, ok, err, if◌then◌else◌, Table, arith, length, Bool-cases, inl, inr,
}
use armature_auth.Crypto.{Crypto}
use armature_auth.Passwordless.{MagicLinkToken}
use armature_auth.Passwordless.SingleUse.{
  Redeemer, called, claimed, finished, holders, redeemed, run, step_at,
}

-- The steps that a call has left, and the turns that a schedule gives it.
abbrev pub left : Redeemer → ℕ
left (called p) = 2
left (claimed p o) = 1
left (finished p r) = 0

abbrev pub left_at : ℕ → List Redeemer → ℕ
left_at k [] = 0
left_at zero (r ∷ rs) = left r
left_at (suc k) (r ∷ rs) = left_at k rs

abbrev pub turns : ℕ → List (ℕ × ℤ) → ℕ
turns k [] = 0
turns k ((i, now) ∷ schedule) = (if i == k then 1 else 0) + turns k schedule

-- A schedule that gives each call its two turns.
abbrev pub IsComplete : List String → List (ℕ × ℤ) → Type 0
IsComplete tokens schedule = (i : ℕ) → i < length tokens → 2 ≤ turns i schedule

module _ (c : Crypto) (t : Table MagicLinkToken) where
  left_at-step_at :
      (k i : ℕ) (now : ℤ) (rs : List Redeemer) (records : t.Map)
      → left_at k (step_at c t i now rs records).0 ≡ left_at k rs - (if i == k then 1 else 0)
  unfolding step_at
  left_at-step_at k i now [] records = omega arith
  left_at-step_at zero zero now (called p ∷ rs) records = refl
  left_at-step_at zero zero now (claimed p o ∷ rs) records = refl
  left_at-step_at zero zero now (finished p r ∷ rs) records = refl
  left_at-step_at (suc k) zero now (called p ∷ rs) records = ground arith
  left_at-step_at (suc k) zero now (claimed p o ∷ rs) records = ground arith
  left_at-step_at (suc k) zero now (finished p r ∷ rs) records = ground arith
  left_at-step_at zero (suc i) now (r ∷ rs) records = ground arith
  left_at-step_at (suc k) (suc i) now (r ∷ rs) records =
      ground (arith, left_at-step_at k i now rs records)

  left_at-run :
      (k : ℕ) (schedule : List (ℕ × ℤ)) (rs : List Redeemer) (records : t.Map)
      → left_at k (run c t schedule rs records).0 ≡ left_at k rs - turns k schedule
  unfolding run
  left_at-run k [] rs records = omega arith
  left_at-run k ((i, now) ∷ schedule) rs records = omega (
    arith,
    left_at-step_at k i now rs records,
    left_at-run k schedule (step_at c t i now rs records).0 (step_at c t i now rs records).1,
  )

  pub all_finished :
      (h : String) (rs : List Redeemer)
      → ((k : ℕ) → left_at k rs ≡ 0)
      → holders c t h rs ≡ redeemed c t h rs
  all_finished h [] none_left = refl
  all_finished h (called p ∷ rs) none_left = let stop = none_left 0 in omega (arith, stop)
  all_finished h (claimed p o ∷ rs) none_left = let stop = none_left 0 in omega (arith, stop)
  all_finished h (finished p (ok r) ∷ rs) none_left =
      omega (arith, all_finished h rs (λ k. none_left (suc k)))
  all_finished h (finished p (err e) ∷ rs) none_left = all_finished h rs (λ k. none_left (suc k))

  pub holders-cons :
      (h : String) (q : Redeemer) (rs : List Redeemer)
      → holders c t h (q ∷ rs) ≡ holders c t h (q ∷ []) + holders c t h rs
  holders-cons h (called p) rs = omega arith
  holders-cons h (claimed p none) rs = omega arith
  holders-cons h (claimed p (some r)) rs = omega arith
  holders-cons h (finished p (ok r)) rs = omega arith
  holders-cons h (finished p (err e)) rs = omega arith

  left_at-called :
      (k : ℕ) (tokens : List String)
      → left_at k (map called tokens) ≡ (if ltb k (length tokens) then 2 else 0)
  left_at-called k [] = ground arith
  left_at-called zero (p ∷ tokens) = ground arith
  left_at-called (suc k) (p ∷ tokens) = ground (arith, left_at-called k tokens)

  pub none_left :
      (tokens : List String) (schedule : List (ℕ × ℤ)) (records : t.Map)
      → IsComplete tokens schedule
      → (i : ℕ) → left_at i (run c t schedule (map called tokens) records).0 ≡ 0
  none_left tokens schedule records complete i =
      let after = left_at-run i schedule (map called tokens) records in
      let before = left_at-called i tokens in
      elim (Bool-cases (ltb i (length tokens))) [
        | inl e ↦
            let enough = complete i (ground (arith, e)) in
            let two : left_at i (map called tokens) ≡ 2 = before ∙ ap (λ b. if b then 2 else 0) e in
            omega arith
        | inr e ↦
            let zero_left : left_at i (map called tokens) ≡ 0 =
              before ∙ ap (λ b. if b then 2 else 0) e in
            omega arith
      ]
