-- ===== src/Passwordless/SingleUse.antt =====
-- Concurrent calls of `redeem_magic_link` of src/passwordless.rs on one in-memory store. A call has
-- two steps that others may come between: the store's atomic `consume`, and the checks on the record
-- that it claimed. A schedule says which call steps next, and when.
use armature_auth.Prelude.{
  String, ℕ, zero, suc, ◌+◌, ◌≤◌, ℤ, ◌≡◌, refl, List, [], ◌∷◌, map, Option, none, some, Result, ok,
  err, if◌then◌else◌, Table, str_eq, eq_iff, arith,
}
use armature_auth.Crypto.{Crypto}
use armature_auth.Passwordless.{PasswordlessError, MagicLinkToken, hash_token, redeem_claimed}

-- Where a call stands, with the token that it was given.
pub data Redeemer : Type 0 where
  called : String → Redeemer
  claimed : String → Option MagicLinkToken → Redeemer
  finished : String → Result PasswordlessError MagicLinkToken → Redeemer

module _ (c : Crypto) (t : Table MagicLinkToken) where
  -- One step of the call at a place in the list; nothing if there is none, or it has finished.
  unfoldable pub step_at : ℕ → ℤ → List Redeemer → t.Map → List Redeemer × t.Map
  step_at i now [] records = ([], records)
  step_at zero now (called p ∷ rs) records =
      (claimed p (t.get (hash_token c p) records) ∷ rs, t.remove (hash_token c p) records)
  step_at zero now (claimed p o ∷ rs) records =
      (finished p (redeem_claimed c now p o) ∷ rs, records)
  step_at zero now (finished p r ∷ rs) records = (finished p r ∷ rs, records)
  step_at (suc i) now (r ∷ rs) records = let rest = step_at i now rs records in (r ∷ rest.0, rest.1)

  unfoldable pub run : List (ℕ × ℤ) → List Redeemer → t.Map → List Redeemer × t.Map
  run [] rs records = (rs, records)
  run ((i, now) ∷ schedule) rs records =
      let next = step_at i now rs records in run schedule next.0 next.1

  abbrev pub is_for : String → String → ℕ
  is_for h p = if str_eq (hash_token c p) h then 1 else 0

  -- The calls that have redeemed a token with hash `h`.
  abbrev pub redeemed : String → List Redeemer → ℕ
  redeemed h [] = 0
  redeemed h (called p ∷ rs) = redeemed h rs
  redeemed h (claimed p o ∷ rs) = redeemed h rs
  redeemed h (finished p (ok r) ∷ rs) = is_for h p + redeemed h rs
  redeemed h (finished p (err e) ∷ rs) = redeemed h rs

  -- The calls that hold a record claimed under `h`, or have redeemed one.
  abbrev pub holders : String → List Redeemer → ℕ
  holders h [] = 0
  holders h (called p ∷ rs) = holders h rs
  holders h (claimed p none ∷ rs) = holders h rs
  holders h (claimed p (some r) ∷ rs) = is_for h p + holders h rs
  holders h (finished p (ok r) ∷ rs) = is_for h p + holders h rs
  holders h (finished p (err e) ∷ rs) = holders h rs

  abbrev pub stored : String → t.Map → ℕ
  stored h records = elim (t.get h records) [ none ↦ 0 | some r ↦ 1 ]

  claim_spent :
      (h p : String) (records : t.Map) (rs : List Redeemer)
      → holders h (claimed p (t.get (hash_token c p) records) ∷ rs)
          + stored h (t.remove (hash_token c p) records)
        ≤ holders h rs + stored h records
  claim_spent h p records rs =
      ground (arith, t.get-remove h (hash_token c p) records, eq_iff (hash_token c p) h)

  finish_keeps :
      (h p : String) (now : ℤ) (o : Option MagicLinkToken) (rs : List Redeemer)
      → holders h (finished p (redeem_claimed c now p o) ∷ rs) ≤ holders h (claimed p o ∷ rs)
  unfolding redeem_claimed
  finish_keeps h p now none rs = omega arith
  finish_keeps h p now (some r) rs = ground arith

  -- A step neither makes up a record nor shares one.
  step_at-holders :
      (h : String) (i : ℕ) (now : ℤ) (rs : List Redeemer) (records : t.Map)
      → holders h (step_at i now rs records).0 + stored h (step_at i now rs records).1
        ≤ holders h rs + stored h records
  unfolding step_at
  step_at-holders h i now [] records = omega arith
  step_at-holders h zero now (called p ∷ rs) records = claim_spent h p records rs
  step_at-holders h zero now (claimed p o ∷ rs) records = omega (arith, finish_keeps h p now o rs)
  step_at-holders h zero now (finished p r ∷ rs) records = omega arith
  step_at-holders h (suc i) now (called p ∷ rs) records = step_at-holders h i now rs records
  step_at-holders h (suc i) now (claimed p none ∷ rs) records = step_at-holders h i now rs records
  step_at-holders h (suc i) now (claimed p (some r) ∷ rs) records =
      omega (arith, step_at-holders h i now rs records)
  step_at-holders h (suc i) now (finished p (ok r) ∷ rs) records =
      omega (arith, step_at-holders h i now rs records)
  step_at-holders h (suc i) now (finished p (err e) ∷ rs) records =
      step_at-holders h i now rs records

  run-holders :
      (h : String) (schedule : List (ℕ × ℤ)) (rs : List Redeemer) (records : t.Map)
      → holders h (run schedule rs records).0 + stored h (run schedule rs records).1
        ≤ holders h rs + stored h records
  unfolding run
  run-holders h [] rs records = omega arith
  run-holders h ((i, now) ∷ schedule) rs records = omega (
    arith,
    step_at-holders h i now rs records,
    run-holders h schedule (step_at i now rs records).0 (step_at i now rs records).1,
  )

  redeemed-le-holders : (h : String) (rs : List Redeemer) → redeemed h rs ≤ holders h rs
  redeemed-le-holders h [] = omega arith
  redeemed-le-holders h (called p ∷ rs) = redeemed-le-holders h rs
  redeemed-le-holders h (claimed p none ∷ rs) = redeemed-le-holders h rs
  redeemed-le-holders h (claimed p (some r) ∷ rs) = omega (arith, redeemed-le-holders h rs)
  redeemed-le-holders h (finished p (ok r) ∷ rs) = omega (arith, redeemed-le-holders h rs)
  redeemed-le-holders h (finished p (err e) ∷ rs) = redeemed-le-holders h rs

  pub holders-called : (h : String) (tokens : List String) → holders h (map called tokens) ≡ 0
  holders-called h [] = refl
  holders-called h (p ∷ tokens) = holders-called h tokens

  -- However many calls redeem however many tokens at once, and however their steps interleave, at
  -- most one call redeems a token of any given hash; none does if the store holds no record for it.
  pub redeemed_once :
      (h : String) (tokens : List String) (records : t.Map) (schedule : List (ℕ × ℤ))
      → (redeemed h (run schedule (map called tokens) records).0 ≤ 1)
        × (t.get h records ≡ none → redeemed h (run schedule (map called tokens) records).0 ≡ 0)
  redeemed_once h tokens records schedule =
      let after = (run schedule (map called tokens) records).0 in
      let kept = run-holders h schedule (map called tokens) records in
      let none_before = holders-called h tokens in
      let counted = redeemed-le-holders h after in (ground arith, λ e. ground arith)
