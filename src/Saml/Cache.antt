-- ===== src/Saml/Cache.antt =====
-- The replay cache of src/saml.rs: the trait, and the cache in memory, whose map is a `DashMap`. The
-- two readings of the clock in a call are arguments.
use armature_auth.Prelude.{
  String, ℕ, ℤ, ltb_ℤ, Bool, true, false, Option, none, some, ok, leb, ◌==◌, if◌then◌else◌, Table,
}
use armature_auth.Error.{AuthResult}

-- Each call is atomic, as the trait asks.
pub record AssertionReplayCache (J S : Type 0) : Type 0 where
  pub check_and_insert : String → ℤ → S → AuthResult J Bool × S

abbrev pub prune_threshold : ℕ
prune_threshold = 1024

module _ (t : Table ℤ) where
  abbrev pub new : t.Map
  new = t.empty

  abbrev pub len : t.Map → ℕ
  len seen = t.len seen

  abbrev pub is_empty : t.Map → Bool
  is_empty seen = t.len seen == 0

  unfoldable pub prune_expired : ℤ → t.Map → t.Map
  prune_expired now seen = t.retain (λ expires_at. ltb_ℤ now expires_at) seen

  -- The entry's answer, and the map.
  abbrev pub claim : String → ℤ → ℤ → t.Map → Option ℤ → Bool × t.Map
  claim assertion_id expires_at now seen none = (true, t.insert assertion_id expires_at seen)
  claim assertion_id expires_at now seen (some recorded) =
      if ltb_ℤ now recorded then (false, seen) else (true, t.insert assertion_id expires_at seen)

  -- `now` is read at the start of the call, `pruned` in `prune_expired`.
  unfoldable pub remember : String → ℤ → ℤ → ℤ → t.Map → Bool × t.Map
  unfolding prune_expired
  remember assertion_id expires_at now pruned seen =
      let kept = if leb prune_threshold (t.len seen) then prune_expired pruned seen else seen in
      claim assertion_id expires_at now kept (t.get assertion_id kept)

  unfoldable pub in_memory : (J : Type 0) → ℤ → ℤ → AssertionReplayCache J t.Map
  unfolding remember
  in_memory J now pruned = record {
    check_and_insert = λ assertion_id expires_at seen.
        let out = remember assertion_id expires_at now pruned seen in (ok out.0, out.1);
  }
