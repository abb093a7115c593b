-- ===== src/Saml/Login.antt =====
-- src/saml.rs: logins with the replay cache in memory, one after the other.
use armature_auth.Prelude.{
  String, ℤ, ◌<ℤ◌, ltb_ℤ, lt→ltb_ℤ, Bool, true, false, ◌≡◌, refl, sym, ap, ◌∙◌, inl, inr, List, [],
  ◌∷◌, Option, none, some, ok, ok-injective, Bool-cases, Option-cases, Table, All, str_eq, eq_iff,
  leb, if◌then◌else◌,
}
use armature_auth.Error.{AuthResult}
use armature_auth.Crypto.{Crypto}
use armature_auth.Saml.{SamlAssertion}
use armature_auth.Saml.Cache.{claim, in_memory, prune_expired, prune_threshold, remember}
use armature_auth.Saml.Schema.{Samael}
use armature_auth.Saml.Response.{SamlServiceProvider, validate_response_verified}
use armature_auth.Saml.Provider.{remember_until, validate_response}
use armature_auth.Saml.Accepted.{validate_response-record_verified}
use armature_auth.Saml.Replay.{Call}

-- Both readings of the clock lie before an instant.
abbrev pub IsBefore : ℤ → Call → Type 0
IsBefore until r = (r.now <ℤ until) × (r.ended <ℤ until)

module _ (seen : Table ℤ) where
  -- The map after calls of `check_and_insert`, made by other logins.
  unfoldable pub after_calls : seen.Map → List Call → seen.Map
  after_calls s [] = s
  after_calls s (r ∷ rs) =
      after_calls (remember seen r.assertion_id r.expires_at r.now r.ended s).1 rs

  claim_live :
      (id : String) (until : ℤ) (r : Call) (s : seen.Map) (o : Option ℤ)
      → seen.get id s ≡ some until
      → seen.get r.assertion_id s ≡ o
      → r.now <ℤ until
      → seen.get id (claim seen r.assertion_id r.expires_at r.now s o).1 ≡ some until
  claim_live id until r s o held found h = elim (Bool-cases (str_eq r.assertion_id id)) [
    | inl same ↦
        let same_entry : o ≡ some until =
          sym found ∙ ap (λ i. seen.get i s) ((eq_iff r.assertion_id id).0 same) ∙ held in
        rw (same_entry, lt→ltb_ℤ r.now until h) held
    | inr other ↦ elim (Option-cases o) [
      | inl absent ↦ rw (absent, seen.get-insert id r.assertion_id r.expires_at s, other) held
      | inr (recorded, e) ↦ elim (Bool-cases (ltb_ℤ r.now recorded)) [
        | inl live ↦ rw (e, live) held
        | inr stale ↦ rw (e, stale, seen.get-insert id r.assertion_id r.expires_at s, other) held
      ]
    ]
  ]

  -- A prune before the expiry keeps the entry.
  pruned_live :
      (id : String) (until pruned : ℤ) (s : seen.Map)
      → seen.get id s ≡ some until
      → pruned <ℤ until
      → seen.get id (if leb prune_threshold (seen.len s) then prune_expired seen pruned s else s)
        ≡ some until
  unfolding prune_expired
  pruned_live id until pruned s held h = elim (Bool-cases (leb prune_threshold (seen.len s))) [
    | inr e ↦ rw e held
    | inl e ↦
        rw
          (
            e,
            seen.get-retain id (λ expires_at. ltb_ℤ pruned expires_at) s,
            held,
            lt→ltb_ℤ pruned until h,
          )
          refl
  ]

  remember_live :
      (id : String) (until : ℤ) (r : Call) (s : seen.Map)
      → seen.get id s ≡ some until
      → IsBefore until r
      → seen.get id (remember seen r.assertion_id r.expires_at r.now r.ended s).1 ≡ some until
  unfolding remember
  remember_live id until r s held (h, h') =
      claim_live id until r _ _ (pruned_live id until r.ended s held h') refl h

  after_calls_live :
      (id : String) (until : ℤ) (s : seen.Map) (rs : List Call)
      → seen.get id s ≡ some until
      → All (IsBefore until) rs
      → seen.get id (after_calls s rs) ≡ some until
  unfolding after_calls
  after_calls_live id until s [] held h = held
  after_calls_live id until s (r ∷ rs) held (h, hs) =
      after_calls_live id until (remember seen r.assertion_id r.expires_at r.now r.ended s).1 rs
        (remember_live id until r s held h) hs

  remember_refuses :
      (id : String) (until expires_at now pruned : ℤ) (s : seen.Map)
      → seen.get id s ≡ some until
      → now <ℤ until
      → pruned <ℤ until
      → (remember seen id expires_at now pruned s).0 ≡ false
  unfolding remember
  remember_refuses id until expires_at now pruned s held h h' =
      rw (pruned_live id until pruned s held h', lt→ltb_ℤ now until h) refl

  claim-eq-true :
      (id : String) (expires_at now : ℤ) (s : seen.Map) (o : Option ℤ)
      → (claim seen id expires_at now s o).0 ≡ true
      → seen.get id (claim seen id expires_at now s o).1 ≡ some expires_at
  claim-eq-true id expires_at now s none h =
      rw (seen.get-insert id id expires_at s, (eq_iff id id).1 refl) refl
  claim-eq-true id expires_at now s (some recorded) h = elim (Bool-cases (ltb_ℤ now recorded)) [
    | inl live ↦ (let stop = rw live at h in cc)
    | inr stale ↦ rw (stale, seen.get-insert id id expires_at s, (eq_iff id id).1 refl) refl
  ]

  remember-eq-true :
      (id : String) (expires_at now pruned : ℤ) (s s' : seen.Map)
      → remember seen id expires_at now pruned s ≡ (true, s')
      → seen.get id s' ≡ some expires_at
  unfolding remember
  remember-eq-true id expires_at now pruned s s' h =
      ap (λ out. seen.get id out.1) (sym h)
      ∙ claim-eq-true id expires_at now _ _ (ap (λ out. out.0) h)

  in_memory-eq-true :
      (J : Type 0) (now pruned : ℤ) (id : String) (expires_at : ℤ) (s s' : seen.Map)
      → (in_memory seen J now pruned).check_and_insert id expires_at s ≡ (ok true, s')
      → remember seen id expires_at now pruned s ≡ (true, s')
  unfolding in_memory
  in_memory-eq-true J now pruned id expires_at s s' h =
      was_true (remember seen id expires_at now pruned s) h
    where
      was_true :
          (out : Bool × seen.Map)
          → Path (AuthResult J Bool × seen.Map) (ok out.0, out.1) (ok true, s')
          → out ≡ (true, s')
      was_true (true, m) e = ap (λ o. (true, o.1)) e
      was_true (false, m) e = let stop = ap (λ o. o.0) e in cc

  module _ (x : Samael) (J : Type 0) (t : Table (List String)) (p : SamlServiceProvider x) where
    -- What the cache in memory holds after a response was accepted.
    validate_response-get :
        (c : Crypto) (now recorded_at pruned_at : ℤ) (saml_response expected_id : String)
        (expected_relay received_relay : Option String) (s s' : seen.Map) (a : SamlAssertion t.Map)
        (expires_at : ℤ)
        → validate_response_verified x J t p now saml_response (some expected_id)
          ≡ ok (a, expires_at)
        → validate_response x J t
            (in_memory seen J recorded_at pruned_at)
            p
            c
            now
            recorded_at
            saml_response
            expected_id
            expected_relay
            received_relay
            s
          ≡ (ok a, s')
        → seen.get a.assertion_id s' ≡ some (remember_until expires_at recorded_at)
    validate_response-get c now recorded_at pruned_at saml_response expected_id expected_relay
          received_relay s s' a expires_at verified h =
        let (relayed, (found_expires, found, first_use)) =
          validate_response-record_verified x J t p (in_memory seen J recorded_at pruned_at) c now
            recorded_at saml_response expected_id expected_relay received_relay s s' a h in
        rw (ap (λ out. remember_until out.1 recorded_at) (ok-injective (sym verified ∙ found))) (
          remember-eq-true a.assertion_id (remember_until found_expires recorded_at) recorded_at
            pruned_at s s'
            (in_memory-eq-true J recorded_at pruned_at a.assertion_id
              (remember_until found_expires recorded_at) s s' first_use))

    -- While the cache in memory remembers an accepted assertion, no later response with the same
    -- assertion is accepted, whatever it answers, under whatever relay state, and however many calls
    -- of the cache other logins made in between, provided that the clock has not reached the instant
    -- until which the assertion is remembered.
    pub validate_response_once :
        (c : Crypto) (now recorded_at pruned_at : ℤ) (saml_response expected_id : String)
        (expected_relay received_relay : Option String) (s s' : seen.Map) (a : SamlAssertion t.Map)
        (expires_at : ℤ)
        → validate_response_verified x J t p now saml_response (some expected_id)
          ≡ ok (a, expires_at)
        → validate_response x J t
            (in_memory seen J recorded_at pruned_at)
            p
            c
            now
            recorded_at
            saml_response
            expected_id
            expected_relay
            received_relay
            s
          ≡ (ok a, s')
        → (rs : List Call) → All (IsBefore (remember_until expires_at recorded_at)) rs
        → (now_again recorded_again pruned_again : ℤ)
        → recorded_again <ℤ remember_until expires_at recorded_at
        → pruned_again <ℤ remember_until expires_at recorded_at
        → (response_again id_again : String) (expected_again received_again : Option String)
          (b : SamlAssertion t.Map) (s'' : seen.Map)
        → validate_response x J t
            (in_memory seen J recorded_again pruned_again)
            p
            c
            now_again
            recorded_again
            response_again
            id_again
            expected_again
            received_again
            (after_calls s' rs)
          ≡ (ok b, s'')
        → ¬ b.assertion_id ≡ a.assertion_id
    validate_response_once c now recorded_at pruned_at saml_response expected_id expected_relay
          received_relay s s' a expires_at verified h rs hs now_again recorded_again pruned_again le
          le' response_again id_again expected_again received_again b s'' again same =
        let until = remember_until expires_at recorded_at in
        let held =
          validate_response-get c now recorded_at pruned_at saml_response expected_id expected_relay
            received_relay s s' a expires_at verified h in
        let (relayed, (expires_again, verified_again, first_use)) =
          validate_response-record_verified x J t p (in_memory seen J recorded_again pruned_again) c
            now_again recorded_again response_again id_again expected_again received_again
            (after_calls s' rs) s'' b again in
        let accepted =
          ap (λ out. out.0)
            (in_memory-eq-true J recorded_again pruned_again b.assertion_id
              (remember_until expires_again recorded_again) (after_calls s' rs) s'' first_use) in
        let refused =
          remember_refuses b.assertion_id until (remember_until expires_again recorded_again)
            recorded_again pruned_again (after_calls s' rs)
            (ap (λ i. seen.get i (after_calls s' rs)) same
              ∙ after_calls_live a.assertion_id until s' rs held hs)
            le le' in
        cc
