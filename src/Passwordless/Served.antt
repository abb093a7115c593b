-- ===== src/Passwordless/Served.antt =====
-- Concurrent calls of `redeem_magic_link` of src/passwordless.rs, of which exactly one succeeds.
use armature_auth.Prelude.{
  String, ℕ, zero, suc, ◌≤◌, ℤ, ltb_ℤ, false, ◌≡◌, refl, sym, ap, ◌∙◌, List, [], ◌∷◌, map, some,
  Table, eq_iff, arith, All, some-injective,
}
use armature_auth.Crypto.{Crypto}
use armature_auth.Passwordless.{MagicLinkToken, hash_token}
use armature_auth.Passwordless.SingleUse.{
  Redeemer, called, claimed, finished, holders-called, redeemed, run, step_at, stored,
}
use armature_auth.Passwordless.Progress.{left_at, all_finished, none_left, IsComplete}
use armature_auth.Passwordless.Kept.{Owns-called, run-keeps}

module _ (c : Crypto) (t : Table MagicLinkToken) where
  -- The token of a call.
  abbrev token_of : Redeemer → String
  token_of (called p) = p
  token_of (claimed p o) = p
  token_of (finished p r) = p

  module _ (h : String) where
    -- The call at a place is one for `h`.
    abbrev IsFor : ℕ → List Redeemer → Type 0
    IsFor k [] = ⊥
    IsFor zero (q ∷ rs) = hash_token c (token_of q) ≡ h
    IsFor (suc k) (q ∷ rs) = IsFor k rs

    stored-remove :
        (k : String) (records : t.Map)
        → stored c t h records ≡ 0
        → stored c t h (t.remove k records) ≡ 0
    stored-remove k records e = ground (arith, t.get-remove h k records)

    stored-remove_self :
        (k : String) (records : t.Map) → k ≡ h → stored c t h (t.remove k records) ≡ 0
    stored-remove_self k records same = ground (arith, t.get-remove h k records, eq_iff k h)

    stored-step_at :
        (i : ℕ) (now : ℤ) (rs : List Redeemer) (records : t.Map)
        → stored c t h records ≡ 0
        → stored c t h (step_at c t i now rs records).1 ≡ 0
    unfolding step_at
    stored-step_at i now [] records e = e
    stored-step_at zero now (called p ∷ rs) records e = stored-remove (hash_token c p) records e
    stored-step_at zero now (claimed p o ∷ rs) records e = e
    stored-step_at zero now (finished p out ∷ rs) records e = e
    stored-step_at (suc i) now (q ∷ rs) records e = stored-step_at i now rs records e

    -- Once the call at `k`, which is one for `h`, has stepped, the store holds no record under `h`.
    abbrev IsTaken : ℕ → List Redeemer → t.Map → Type 0
    IsTaken k rs records = IsFor k rs × (left_at k rs ≤ 1 → stored c t h records ≡ 0)

    step_at-IsTaken :
        (k i : ℕ) (now : ℤ) (rs : List Redeemer) (records : t.Map)
        → IsTaken k rs records
        → IsTaken k (step_at c t i now rs records).0 (step_at c t i now rs records).1
    unfolding step_at
    step_at-IsTaken k i now [] records (for_h, gone) = elim for_h [ ]
    step_at-IsTaken zero zero now (called p ∷ rs) records (for_h, gone) =
        (for_h, λ le. stored-remove_self (hash_token c p) records for_h)
    step_at-IsTaken zero zero now (claimed p o ∷ rs) records (for_h, gone) =
        (for_h, λ le. gone (omega arith))
    step_at-IsTaken zero zero now (finished p out ∷ rs) records (for_h, gone) = (for_h, gone)
    step_at-IsTaken (suc k) zero now (called p ∷ rs) records (for_h, gone) =
        (for_h, λ le. stored-remove (hash_token c p) records (gone le))
    step_at-IsTaken (suc k) zero now (claimed p o ∷ rs) records (for_h, gone) = (for_h, gone)
    step_at-IsTaken (suc k) zero now (finished p out ∷ rs) records (for_h, gone) = (for_h, gone)
    step_at-IsTaken zero (suc i) now (q ∷ rs) records (for_h, gone) =
        (for_h, λ le. stored-step_at i now rs records (gone le))
    step_at-IsTaken (suc k) (suc i) now (q ∷ rs) records taken =
        step_at-IsTaken k i now rs records taken

    run-IsTaken :
        (k : ℕ) (schedule : List (ℕ × ℤ)) (rs : List Redeemer) (records : t.Map)
        → IsTaken k rs records
        → IsTaken k (run c t schedule rs records).0 (run c t schedule rs records).1
    unfolding run
    run-IsTaken k [] rs records taken = taken
    run-IsTaken k ((i, now) ∷ schedule) rs records taken =
        run-IsTaken k schedule (step_at c t i now rs records).0 (step_at c t i now rs records).1
          (step_at-IsTaken k i now rs records taken)

  -- The token that a call at a place was given.
  abbrev pub IsAt : ℕ → String → List String → Type 0
  IsAt k p [] = ⊥
  IsAt zero p (q ∷ tokens) = q ≡ p
  IsAt (suc k) p (q ∷ tokens) = IsAt k p tokens

  IsTaken-called :
      (h : String) (k : ℕ) (p : String) (tokens : List String) (records : t.Map)
      → hash_token c p ≡ h
      → IsAt k p tokens
      → IsTaken h k (map called tokens) records
  IsTaken-called h k p [] records e at = elim at [ ]
  IsTaken-called h zero p (q ∷ tokens) records e at = (ap (hash_token c) at ∙ e, λ le. omega arith)
  IsTaken-called h (suc k) p (q ∷ tokens) records e at = IsTaken-called h k p tokens records e at

  -- Calls that redeem tokens at once, under a schedule that gives each call two turns at least, all
  -- finish. If the store holds an unused record under the hash of one of the tokens, and no turn comes
  -- after the record's expiry, then exactly one call redeems a token of that hash, however the steps
  -- interleave.
  pub redeemed_exactly_once :
      (h : String) (r : MagicLinkToken) (tokens : List String) (records : t.Map)
      (schedule : List (ℕ × ℤ)) (k : ℕ) (p : String)
      → t.get h records ≡ some r
      → r.token_hash ≡ h
      → r.used ≡ false
      → IsAt k p tokens
      → hash_token c p ≡ h
      → All (λ turn. ltb_ℤ r.expires_at turn.1 ≡ false) schedule
      → IsComplete tokens schedule
      → ((i : ℕ) → left_at i (run c t schedule (map called tokens) records).0 ≡ 0)
        × (redeemed c t h (run c t schedule (map called tokens) records).0 ≡ 1)
  redeemed_exactly_once h r tokens records schedule k p held hash fresh at same young complete =
      let finished_all = none_left c t tokens schedule records complete in
      let out = run c t schedule (map called tokens) records in
      let kept =
        run-keeps c t h r schedule (map called tokens) records hash fresh young
          (Owns-called c t h r tokens) (λ found e. some-injective (sym e ∙ held)) in
      let taken =
        (run-IsTaken h k schedule (map called tokens) records
          (IsTaken-called h k p tokens records same at)).1 in
      let gone : stored c t h out.1 ≡ 0 = taken (omega (arith, finished_all k)) in
      let one : stored c t h records ≡ 1 = rw (stored, held) refl in
      let counted = all_finished c t h out.0 finished_all in
      let nothing = holders-called c t h tokens in (finished_all, omega arith)
