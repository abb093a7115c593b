-- ===== src/ApiKey/Validation.antt =====
-- `validate` of src/api_key.rs: which keys it accepts, and what its refusals leave alone.
use armature_auth.Prelude.{
  String, ℕ, ℤ, ◌≤ℤ◌, ltb_ℤ→le, le→ltb_ℤ, true, false, ◌≡◌, refl, subst, ◌≢◌, ◌↔◌, ◌⊎◌, inl, Option,
  none, some, Result, ok, err, Table, arith,
}
use armature_auth.Crypto.{Crypto}
use armature_auth.ApiKey.{
  ApiKeyError, expired, revoked, rate_limit_exceeded, ApiKey, ApiKeyStore, ApiKeyManager, State,
}
use armature_auth.ApiKey.Limiter.{check_rate_limit, sweep_expired_windows}
use armature_auth.ApiKey.Manager.{
  Readings, is_expired, hash_key, enforce, check_found, check_option, validate,
}

-- Not past its expiry, if it has one.
abbrev pub Unexpired : ℤ → Option ℤ → Type 0
Unexpired now none = Unit
Unexpired now (some expires_at) = now ≤ℤ expires_at

is_expired_iff : (now : ℤ) (o : Option ℤ) → (is_expired now o ≡ false) ↔ Unexpired now o
is_expired_iff now none = (λ e. tt, λ u. refl)
is_expired_iff now (some e) = (ltb_ℤ→le e now, le→ltb_ℤ e now)

module _ {S : Type 0} (t : Table (ℤ × ℕ)) (m : ApiKeyManager) where
  -- The rate limiter leaves the store alone.
  pub store-enforce :
      (now : ℤ) (k : ApiKey) (o : Option ℕ) (s : State S t.Map)
      → (enforce t m now k o s).1.store ≡ s.store
  unfolding check_rate_limit sweep_expired_windows
  store-enforce now k none s = refl
  store-enforce now k (some limit) s = ground arith

  enforce-tt :
      (now : ℤ) (k : ApiKey) (o : Option ℕ) (s : State S t.Map)
      → ((enforce t m now k o s).0 ≡ ok tt) ⊎ ((enforce t m now k o s).0 ≡ err rate_limit_exceeded)
  unfolding check_rate_limit
  enforce-tt now k none s = inl refl
  enforce-tt now k (some limit) s = ground arith

module _ {S : Type 0} (t : Table (ℤ × ℕ)) (c : Crypto) (store : ApiKeyStore S)
    (m : ApiKeyManager) where
  -- What it takes for a key to be accepted.
  pub record IsAccepted (now : Readings) (key : String) (s : State S t.Map) (k : ApiKey)
      : Type 0 where
    pub found : store.find_by_key_hash (hash_key c m key) s.store ≡ ok (some k)
    pub genuine : k.key_hash ≡ hash_key c m key
    pub active : k.revoked ≡ false
    pub unexpired : Unexpired now.at_expiry k.expires_at
    pub within_limit : (enforce t m now.at_limit k k.rate_limit s).0 ≡ ok tt
    pub recorded : (store.update_last_used k.id now.at_use s.store).0 ≡ ok tt

  check_found-eq-some_iff :
      (now : Readings) (h : String) (k j : ApiKey) (s : State S t.Map)
      → ((check_found t c store m now h k s).0 ≡ ok (some j)) ↔ (
          (k.key_hash ≡ h)
          × (k.revoked ≡ false)
          × Unexpired now.at_expiry k.expires_at
          × ((enforce t m now.at_limit k k.rate_limit s).0 ≡ ok tt)
          × ((store.update_last_used k.id now.at_use s.store).0 ≡ ok tt)
          × (k ≡ j))
  unfolding check_found
  check_found-eq-some_iff now h k j s = grind (
    arith,
    c.ct_eq_iff k.key_hash h,
    is_expired_iff now.at_expiry k.expires_at,
    store-enforce t m now.at_limit k k.rate_limit s,
  )

  check_option-eq-some_iff :
      (now : Readings) (h : String) (o : Option ApiKey) (j : ApiKey) (s : State S t.Map)
      → ((check_option t c store m now h o s).0 ≡ ok (some j))
        ↔ ((k : ApiKey) × (o ≡ some k) × ((check_found t c store m now h k s).0 ≡ ok (some j)))
  check_option-eq-some_iff now h none j s = (λ e. cc, λ w. cc (w.1))
  check_option-eq-some_iff now h (some k) j s = (λ e. (k, refl, e), λ w. ground (arith, w.1, w.2))

  abbrev respond :
      Readings
      → String
      → State S t.Map
      → Result ApiKeyError (Option ApiKey)
      → Result ApiKeyError (Option ApiKey) × State S t.Map
  respond now h s (ok o) = check_option t c store m now h o s
  respond now h s (err e) = (err e, s)

  validate-found :
      (now : Readings) (key : String) (s : State S t.Map) (r : Result ApiKeyError (Option ApiKey))
      → store.find_by_key_hash (hash_key c m key) s.store ≡ r
      → validate t c store m now key s ≡ respond now (hash_key c m key) s r
  unfolding validate
  validate-found now key s (ok o) e = rw (e, validate)
  validate-found now key s (err x) e = rw (e, validate)

  -- A key is accepted, with the record that the store returned, exactly when the store finds that
  -- record under the key's hash, its stored hash is this one, it is neither revoked nor expired, its
  -- rate limit allows the request and the store records the use.
  pub validate-eq-some_iff :
      (now : Readings) (key : String) (s : State S t.Map) (k : ApiKey)
      → ((validate t c store m now key s).0 ≡ ok (some k)) ↔ IsAccepted now key s k
  validate-eq-some_iff now key s k = (to, from)
    where
      h : String
      h = hash_key c m key

      by_result :
          (r : Result ApiKeyError (Option ApiKey))
          → store.find_by_key_hash h s.store ≡ r
          → (respond now h s r).0 ≡ ok (some k)
          → IsAccepted now key s k
      by_result (err x) e v = cc
      by_result (ok none) e v = cc
      by_result (ok (some j)) e v =
          let (genuine, active, unexpired, within, recorded, same) =
            (check_found-eq-some_iff now h j k s).0 v in
          subst (IsAccepted now key s) same (record {
            found = e;
            genuine = genuine;
            active = active;
            unexpired = unexpired;
            within_limit = within;
            recorded = recorded;
          })

      to : (validate t c store m now key s).0 ≡ ok (some k) → IsAccepted now key s k
      to v = by_result _ refl (rw (← validate-found now key s _ refl) v)

      from : IsAccepted now key s k → (validate t c store m now key s).0 ≡ ok (some k)
      from a = rw (validate-found now key s _ a.found) (
          (check_found-eq-some_iff now h k k s).1
            (a.genuine, a.active, a.unexpired, a.within_limit, a.recorded, refl))

  -- The other answers to a key whose record the store finds, or does not: nothing for an unknown
  -- key and for a record under another hash, `Revoked` for a revoked key, expired or not, and
  -- `Expired` for one that is past its expiry. None of these counts against the rate limit or
  -- changes the store.
  pub validate_refusals :
      (now : Readings) (key : String) (s : State S t.Map) (o : Option ApiKey)
      → store.find_by_key_hash (hash_key c m key) s.store ≡ ok o
      → (o ≡ none → validate t c store m now key s ≡ (ok none, s))
        × ((k : ApiKey)
            → o ≡ some k
            → (k.key_hash ≢ hash_key c m key → validate t c store m now key s ≡ (ok none, s))
              × (k.key_hash ≡ hash_key c m key
                  → k.revoked ≡ true
                  → validate t c store m now key s ≡ (err revoked, s))
              × (k.key_hash ≡ hash_key c m key
                  → k.revoked ≡ false
                  → ¬ Unexpired now.at_expiry k.expires_at
                  → validate t c store m now key s ≡ (err expired, s)))
  unfolding check_found
  validate_refusals now key s o e = rw (validate-found now key s (ok o) e) (
    (λ f. rw f),
    (λ k f. rw f (
      (λ n. grind (arith, c.ct_eq_iff k.key_hash (hash_key c m key))),
      (λ g r. grind (arith, c.ct_eq_iff k.key_hash (hash_key c m key))),
      (λ g r x. grind (
        arith,
        c.ct_eq_iff k.key_hash (hash_key c m key),
        is_expired_iff now.at_expiry k.expires_at,
      )),
    )),
  )
