-- ===== src/Strategy/Local.antt =====
-- src/strategy.rs: who the local strategy lets in, what it answers to the others, and what it stores.
use armature_auth.Prelude.{
  Text, ℕ, List, Bool-cases, not, is_empty, true, false, ◌≡◌, refl, ap, ◌↔◌, ◌⊎◌, inl, inr, Option,
  none, some, Option-cases, ok, err, Result-cases, ok-injective,
}
use armature_auth.Error.{AuthError, invalid_credentials}
use armature_auth.Password.{Kdf, verify_async, needs_rehash, hash_async}
use armature_auth.Strategy.{
  LocalCredentials, LocalUserStore, LocalStrategy, World, Draws, local_credentials, authenticate,
  dummy_of, equalize_timing, rehash, check_credentials, check_user,
}

module _ (kdf : Kdf) {J S T : Type 0} (l : LocalStrategy J S T) (d : Draws kdf J) where
  -- The configured store has the user, under a hash that the password verifies against.
  unfoldable pub Accepts : World S → LocalCredentials → LocalUserStore J S T → Text → T → Type 0
  Accepts w creds store password_hash user =
      (l.store ≡ some store)
      × (store.find_by_username creds.username w.users ≡ ok (some (user, password_hash)))
      × (verify_async kdf J d.verify_join creds.password password_hash ≡ ok true)

  let_in :
      (w : World S) (creds : LocalCredentials) (user : T)
      (configured : Option (LocalUserStore J S T))
      → (check_credentials kdf J S T l d w creds configured).0 ≡ ok user
      → (store : LocalUserStore J S T) × (h : Text) × (configured ≡ some store)
        × (store.find_by_username creds.username w.users ≡ ok (some (user, h)))
        × (verify_async kdf J d.verify_join creds.password h ≡ ok true)
  let_in w creds user none e = cc
  let_in w creds user (some store) e =
      elim (Result-cases (store.find_by_username creds.username w.users)) [
        | inr (error, f) ↦ (let stop = rw (f, check_credentials) at e in cc)
        | inl (none, f) ↦ (let stop = rw (f, check_credentials) at e in cc)
        | inl (some (found, h), f) ↦
            let checked = rw (f, check_credentials) at e in
            elim (Result-cases (verify_async kdf J d.verify_join creds.password h)) [
              | inr (error, v) ↦ (let stop = rw (v, check_user) at checked in cc)
              | inl (false, v) ↦ (let stop = rw (v, check_user) at checked in cc)
              | inl (true, v) ↦
                  let let_in = rw (v, check_user) at checked in
                  (store, h, refl, rw f (ap (λ x. ok (some (x, h))) (ok-injective let_in)), v)
            ]
      ]

  -- A user is let in exactly when the store has it under a hash that the password verifies against.
  pub authenticate-eq-ok_iff :
      (w : World S) (creds : LocalCredentials) (user : T)
      → ((authenticate kdf J S T l d w (local_credentials creds)).0 ≡ ok user)
        ↔ ((store : LocalUserStore J S T) × (h : Text) × Accepts w creds store h user)
  unfolding authenticate Accepts
  authenticate-eq-ok_iff w creds user = (
    λ e.
        (let found = let_in w creds user l.store e in
          (found.0, found.1, (found.2, found.3, found.4))),
    λ (store, h, (configured, found, verified)).
        rw (ap (check_credentials kdf J S T l d w creds) configured)
          (rw (check_credentials, check_user, found, verified) refl),
  )

  users-dummy_of : (w : World S) → (dummy_of kdf J S T l d w).1.users ≡ w.users
  users-dummy_of w = elim (Option-cases w.dummy_hash) [
    | inl none_yet ↦ rw none_yet refl
    | inr (dummy, e) ↦ rw e refl
  ]

  users-equalize_timing :
      (password : List ℕ) (w : World S) → (equalize_timing kdf J S T l d password w).users ≡ w.users
  unfolding equalize_timing
  users-equalize_timing password w =
      elim (Bool-cases (not (is_empty (dummy_of kdf J S T l d w).0))) [
        | inl verified ↦ rw (equalize_timing, verified) (users-dummy_of w)
        | inr unverified ↦ rw (equalize_timing, unverified) (users-dummy_of w)
      ]

  -- The failed look-ups of a user are not told apart: without a store, for a name that the store
  -- does not have, and for a password that does not verify, the answer is the same error, and the
  -- users stay as they were.
  pub refusals_agree :
      (w : World S) (creds : LocalCredentials)
      → (l.store ≡ none)
        ⊎ ((store : LocalUserStore J S T) × (l.store ≡ some store)
            × ((store.find_by_username creds.username w.users ≡ ok none)
                ⊎ ((user : T) × (h : Text) × (store.find_by_username creds.username w.users
                      ≡ ok (some (user, h)))
                    × (verify_async kdf J d.verify_join creds.password h ≡ ok false))))
      → ((authenticate kdf J S T l d w (local_credentials creds)).0 ≡ err invalid_credentials)
        × ((authenticate kdf J S T l d w (local_credentials creds)).1.users ≡ w.users)
  unfolding authenticate
  refusals_agree w creds (inl e) =
      rw (ap (check_credentials kdf J S T l d w creds) e)
        (refl, users-equalize_timing creds.password w)
  refusals_agree w creds (inr (store, e, inl unknown)) =
      rw (ap (check_credentials kdf J S T l d w creds) e)
        (rw (check_credentials, unknown) (refl, users-equalize_timing creds.password w))
  refusals_agree w creds (inr (store, e, inr (user, h, found, wrong))) =
      rw (ap (check_credentials kdf J S T l d w creds) e)
        (rw (check_credentials, check_user, found, wrong) (refl, refl))

  -- After a login the store holds what `update_password_hash` makes of a fresh hash of the password,
  -- if the stored hash needs a rehash and hashing succeeds, and else what it held. A failed rehash or
  -- update does not turn the login down.
  pub authenticate-rehash :
      (w : World S) (creds : LocalCredentials) (store : LocalUserStore J S T) (h : Text) (user : T)
      → Accepts w creds store h user
      → ((authenticate kdf J S T l d w (local_credentials creds)).0 ≡ ok user)
        × ((needs_rehash kdf l.hasher h ≡ false
              → (authenticate kdf J S T l d w (local_credentials creds)).1 ≡ w)
            × ((new_hash : Text)
                → needs_rehash kdf l.hasher h ≡ true
                → hash_async kdf J d.rehash_join l.hasher d.rehash_salt creds.password ≡ ok new_hash
                → (authenticate kdf J S T l d w (local_credentials creds)).1.users
                  ≡ (store.update_password_hash creds.username new_hash w.users).1)
            × ((e : AuthError J)
                → needs_rehash kdf l.hasher h ≡ true
                → hash_async kdf J d.rehash_join l.hasher d.rehash_salt creds.password ≡ err e
                → (authenticate kdf J S T l d w (local_credentials creds)).1 ≡ w))
  unfolding authenticate Accepts rehash
  authenticate-rehash w creds store h user (configured, found, verified) =
      rw (ap (check_credentials kdf J S T l d w creds) configured) (
        rw (check_credentials, check_user, found, verified)
          (
            refl,
            (
              (λ e. rw (rehash, e) refl),
              (λ g e f. rw (rehash, e, f) refl),
              (λ g e f. rw (rehash, e, f) refl),
            ),
          ))
