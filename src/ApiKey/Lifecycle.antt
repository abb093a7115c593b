-- ===== src/ApiKey/Lifecycle.antt =====
-- A key of src/api_key.rs from `generate` to `rotate`, over a store that keeps what it documents.
use armature_auth.Prelude.{
  String, ℕ, ℤ, true, ◌≡◌, ◌≢◌, refl, sym, ap, ◌∙◌, List, Option, none, some, Result, ok, err,
  Table, arith,
}
use armature_auth.Crypto.{Crypto}
use armature_auth.ApiKey.{
  ApiKeyError, revoked, ApiKey, GeneratedApiKey, secret, ApiKeyStore, ApiKeyManager, State,
}
use armature_auth.ApiKey.Manager.{Readings, Draw, hash_key, generated, generate, rotate, validate}
use armature_auth.ApiKey.Validation.{Unexpired, validate-eq-some_iff, validate_refusals}

-- What the store promises: a new record is found under its hash and hides no other, a revoked
-- record is found with its flag set, and revoking makes no record appear.
pub record LawfulStore {S : Type 0} (store : ApiKeyStore S) : Type 0 where
  pub find-save :
      (k : ApiKey) (s : S)
      → store.find_by_id k.id s ≡ ok none
      → store.find_by_key_hash k.key_hash s ≡ ok none
      → (store.save k s).0 ≡ ok tt
      → store.find_by_key_hash k.key_hash (store.save k s).1 ≡ ok (some k)
  pub find-save_other :
      (k : ApiKey) (h : String) (s : S)
      → store.find_by_id k.id s ≡ ok none
      → k.key_hash ≢ h
      → (store.save k s).0 ≡ ok tt
      → store.find_by_key_hash h (store.save k s).1 ≡ store.find_by_key_hash h s
  pub find-revoke :
      (k : ApiKey) (s : S)
      → store.find_by_id k.id s ≡ ok (some k)
      → store.find_by_key_hash k.key_hash s ≡ ok (some k)
      → (store.revoke k.id s).0 ≡ ok tt
      → store.find_by_key_hash k.key_hash (store.revoke k.id s).1
        ≡ ok (some (record k { revoked = true }))
  pub find-revoke_absent :
      (id h : String) (s : S)
      → store.find_by_key_hash h s ≡ ok none
      → store.find_by_key_hash h (store.revoke id s).1 ≡ ok none
  pub find_by_id-revoke_absent :
      (id j : String) (s : S)
      → store.find_by_id j s ≡ ok none
      → store.find_by_id j (store.revoke id s).1 ≡ ok none

module _ {S : Type 0} (t : Table (ℤ × ℕ)) (c : Crypto) {store : ApiKeyStore S}
    (law : LawfulStore store) (m : ApiKeyManager) where
  -- Neither the identifier nor the hash that is drawn is in use.
  pub record IsFresh (d : Draw) (user_id : String) (scopes : List String) (s : S) : Type 0 where
    pub new_id : store.find_by_id d.uuid s ≡ ok none
    pub new_hash :
        store.find_by_key_hash (generated c m d user_id scopes).api_key.key_hash s ≡ ok none

  -- A call of `generate` that succeeds has saved the key that it returns.
  generate_inversion :
      (d : Draw) (user_id : String) (scopes : List String) (s s' : State S t.Map)
      (g : GeneratedApiKey)
      → generate t c store m d user_id scopes s ≡ (ok g, s')
      → (g ≡ generated c m d user_id scopes)
        × ((store.save (generated c m d user_id scopes).api_key s.store).0 ≡ ok tt)
        × (s'
            ≡ record s { store = (store.save (generated c m d user_id scopes).api_key s.store).1 })
  unfolding generate
  generate_inversion d user_id scopes s s' g e = ground arith

  -- A key that was generated under a fresh identifier and hash is accepted until it expires, as the
  -- record that was generated, which belongs to the user and has the scopes asked for.
  pub generate-validate :
      (d : Draw) (user_id : String) (scopes : List String) (s s' : State S t.Map)
      (g : GeneratedApiKey) (now : Readings)
      → generate t c store m d user_id scopes s ≡ (ok g, s')
      → IsFresh d user_id scopes s.store
      → Unexpired now.at_expiry g.api_key.expires_at
      → (store.update_last_used g.api_key.id now.at_use s'.store).0 ≡ ok tt
      → ((validate t c store m now (secret g) s').0 ≡ ok (some g.api_key))
        × (g.api_key.user_id ≡ user_id)
        × (g.api_key.scopes ≡ scopes)
  generate-validate d user_id scopes s s' g now e fresh live recorded =
      let (eg, saved, es) = generate_inversion d user_id scopes s s' g e in
      (
        (validate-eq-some_iff t c store m now (secret g) s' g.api_key).1 (record {
          found = rw (eg, es) (law.find-save _ s.store fresh.new_id fresh.new_hash saved);
          genuine = rw eg;
          active = rw eg;
          unexpired = live;
          within_limit = rw eg;
          recorded = recorded;
        }),
        rw eg,
        rw eg,
      )

  rotate_inversion :
      (d : Draw) (old_id : String) (s s' : State S t.Map) (g : GeneratedApiKey) (k : ApiKey)
      → store.find_by_id old_id s.store ≡ ok (some k)
      → rotate t c store m d old_id s ≡ (ok g, s')
      → ((store.revoke old_id s.store).0 ≡ ok tt)
        × (generate t c store m d k.user_id k.scopes
              (record s { store = (store.revoke old_id s.store).1 })
            ≡ (ok g, s'))
  unfolding rotate
  rotate_inversion d old_id s s' g k found e = ground arith

  find-generate_other :
      (d : Draw) (user_id : String) (scopes : List String) (s s' : State S t.Map)
      (g : GeneratedApiKey) (h : String) (k : ApiKey)
      → generate t c store m d user_id scopes s ≡ (ok g, s')
      → IsFresh d user_id scopes s.store
      → store.find_by_key_hash h s.store ≡ ok (some k)
      → store.find_by_key_hash h s'.store ≡ ok (some k)
  find-generate_other d user_id scopes s s' g h k e fresh found =
      let (eg, saved, es) = generate_inversion d user_id scopes s s' g e in
      let differ : (generated c m d user_id scopes).api_key.key_hash ≢ h =
        λ same. cc (fresh.new_hash, found, same) in
      rw (es, law.find-save_other _ h s.store fresh.new_id differ saved) found

  -- After a rotation that succeeds, under a fresh identifier and hash, the old key is refused as
  -- revoked, and the new one is accepted until it expires, for the same user with the same scopes.
  pub rotate_lem :
      (d : Draw) (old_key : String) (s s' : State S t.Map) (g : GeneratedApiKey) (k : ApiKey)
      (now : Readings)
      → rotate t c store m d k.id s ≡ (ok g, s')
      → store.find_by_id k.id s.store ≡ ok (some k)
      → k.key_hash ≡ hash_key c m old_key
      → store.find_by_key_hash (hash_key c m old_key) s.store ≡ ok (some k)
      → IsFresh d k.user_id k.scopes s.store
      → Unexpired now.at_expiry g.api_key.expires_at
      → (store.update_last_used g.api_key.id now.at_use s'.store).0 ≡ ok tt
      → ((validate t c store m now old_key s').0 ≡ err revoked)
        × ((validate t c store m now (secret g) s').0 ≡ ok (some g.api_key))
        × (g.api_key.user_id ≡ k.user_id)
        × (g.api_key.scopes ≡ k.scopes)
  rotate_lem d old_key s s' g k now e found hash by_hash fresh live recorded =
      let (gone, e') = rotate_inversion d k.id s s' g k found e in
      let fresh' : IsFresh d k.user_id k.scopes (store.revoke k.id s.store).1 = record {
        new_id = law.find_by_id-revoke_absent k.id d.uuid s.store fresh.new_id;
        new_hash = law.find-revoke_absent k.id _ s.store fresh.new_hash;
      } in
      let revoked_key =
        find-generate_other d k.user_id k.scopes _ s' g k.key_hash _ e' fresh'
          (law.find-revoke k s.store found (cc) gone) in
      let old : (validate t c store m now old_key s').0 ≡ err revoked =
        ap (λ (x : Result ApiKeyError (Option ApiKey) × State S t.Map). x.0)
          (((validate_refusals t c store m now old_key s' _
                (ap (λ h. store.find_by_key_hash h s'.store) (sym hash) ∙ revoked_key)).1
              _ refl).1
            hash refl) in
      let new_key = generate-validate d k.user_id k.scopes _ s' g now e' fresh' live recorded in
      (old, new_key.0, new_key.1, new_key.2)
