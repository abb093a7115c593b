-- ===== src/Passwordless/Redemption.antt =====
-- Redeeming a magic link of src/passwordless.rs against the in-memory store.
use armature_auth.Prelude.{
  String, ℕ, ℤ, ◌≤ℤ◌, ltb_ℤ, false, true, not, ◌≡◌, refl, subst, sym, ap, ◌∙◌, ◌↔◌, List, Option,
  none, some, ok, err, if◌then◌else◌, Table, keep_if, arith, eq_refl, str_eq,
}
use armature_auth.Crypto.{Crypto}
use armature_auth.Passwordless.{
  invalid_token, MagicLinkToken, IssuedMagicLink, secret, hash_token, generate, prune_expired,
  in_memory, redeem_claimed, redeem_magic_link,
}

-- A record that redeems the token whose hash is `h` at `now`.
pub record IsRedeemable (now : ℤ) (h : String) (r : MagicLinkToken) : Type 0 where
  pub genuine : h ≡ r.token_hash
  pub unused : r.used ≡ false
  pub unexpired : now ≤ℤ r.expires_at

module _ (c : Crypto) where
  redeem_claimed-some_iff :
      (now : ℤ) (presented : String) (r out : MagicLinkToken)
      → (redeem_claimed c now presented (some r) ≡ ok out)
        ↔ (IsRedeemable now (hash_token c presented) r × (out ≡ record r { used = true }))
  unfolding redeem_claimed
  redeem_claimed-some_iff now presented r out =
      grind (arith, c.ct_eq_iff (hash_token c presented) r.token_hash)

  generate_inversion :
      (from_std : ℕ → Option ℤ) (bytes : List ℕ) (now : ℤ) (identifier : String) (ttl : ℕ)
      (issued : IssuedMagicLink)
      → generate c from_std bytes now identifier ttl ≡ ok issued
      → (issued.token_record.identifier ≡ identifier)
        × (issued.token_record.used ≡ false)
        × (issued.token_record.token_hash ≡ hash_token c issued.token)
  unfolding generate
  generate_inversion from_std bytes now identifier ttl issued e = ground arith

  -- A record that has not expired survives pruning.
  kept_iff :
      (pruned now : ℤ) (o : Option MagicLinkToken) (r : MagicLinkToken)
      → pruned ≤ℤ now
      → now ≤ℤ r.expires_at
      → (keep_if (λ x. not (ltb_ℤ x.expires_at pruned)) o ≡ some r) ↔ (o ≡ some r)
  kept_iff pruned now none r h live = (λ e. e, λ e. e)
  kept_iff pruned now (some x) r h live = (λ e. ground arith, λ e. ground arith)

  module _ (t : Table MagicLinkToken) where
    redeem-found :
        (now : ℤ) (presented : String) (records : t.Map) (out : MagicLinkToken)
        (o : Option MagicLinkToken)
        → t.get (hash_token c presented) records ≡ o
        → (redeem_claimed c now presented o ≡ ok out) ↔ (
            (r : MagicLinkToken) × (o ≡ some r)
            × IsRedeemable now (hash_token c presented) r
            × (out ≡ record r { used = true }))
    unfolding redeem_claimed
    redeem-found now presented records out none e = (λ f. cc, λ w. cc (w.1))
    redeem-found now presented records out (some r) e =
        let (to, from) = redeem_claimed-some_iff now presented r out in
        (
          λ f. let (v, same) = to f in (r, refl, v, same),
          λ (r', found, v, same).
              let eq : r' ≡ r = cc in
              from (
                subst (IsRedeemable now (hash_token c presented)) eq v,
                same ∙ ap (λ (x : MagicLinkToken). record x { used = true }) eq,
              ),
        )

    -- A token is redeemed exactly when the store holds a record under its hash that carries that
    -- hash, is unused and has not expired; the answer is that record, marked used. Whatever the
    -- answer, the store holds no record under the hash afterwards, and its other records are kept.
    pub redeem-eq-ok_iff :
        (now : ℤ) (presented : String) (records : t.Map)
        → ((out : MagicLinkToken)
            → ((redeem_magic_link c (in_memory t) now presented records).0 ≡ ok out) ↔ (
                (r : MagicLinkToken) × (t.get (hash_token c presented) records ≡ some r)
                × IsRedeemable now (hash_token c presented) r
                × (out ≡ record r { used = true })))
          × ((j : String)
              → t.get j (redeem_magic_link c (in_memory t) now presented records).1
                ≡ (if str_eq (hash_token c presented) j then none else t.get j records))
    unfolding redeem_magic_link
    redeem-eq-ok_iff now presented records = (
      λ out. redeem-found now presented records out _ refl,
      λ j. t.get-remove j (hash_token c presented) records,
    )

    redeem_absent :
        (now : ℤ) (presented : String) (records : t.Map)
        → t.get (hash_token c presented) records ≡ none
        → (redeem_magic_link c (in_memory t) now presented records).0 ≡ err invalid_token
    unfolding redeem_magic_link
    redeem_absent now presented records e = rw e

    -- A link that was issued and saved is redeemed by its token until it expires, with the record
    -- that was issued, marked used, and its token is refused as invalid from then on.
    pub generate-redeem :
        (from_std : ℕ → Option ℤ) (bytes : List ℕ) (issued_at now later : ℤ) (identifier : String)
        (ttl : ℕ) (issued : IssuedMagicLink) (records : t.Map)
        → generate c from_std bytes issued_at identifier ttl ≡ ok issued
        → now ≤ℤ issued.token_record.expires_at
        → let saved = ((in_memory t).save issued.token_record records).1 in
          let first = redeem_magic_link c (in_memory t) now (secret issued) saved in
          (first.0 ≡ ok (record issued.token_record { used = true }))
          × (issued.token_record.identifier ≡ identifier)
          × ((redeem_magic_link c (in_memory t) later (secret issued) first.1).0
              ≡ err invalid_token)
    generate-redeem from_std bytes issued_at now later identifier ttl issued records e live =
        let (named, unused, hashed) =
          generate_inversion from_std bytes issued_at identifier ttl issued e in
        let r = issued.token_record in
        let h = hash_token c issued.token in
        let saved = t.insert r.token_hash r records in
        let found : t.get h saved ≡ some r =
          t.get-insert h r.token_hash r records
          ∙ ap (λ b. if b then some r else t.get h records)
              (ap (λ x. str_eq x h) hashed ∙ eq_refl h) in
        (
          ((redeem-eq-ok_iff now issued.token saved).0 _).1
              (r, found, record { genuine = sym hashed; unused = unused; unexpired = live }, refl),
          named,
          redeem_absent later issued.token _ (
              (redeem-eq-ok_iff now issued.token saved).1 h
              ∙ ap (λ b. if b then none else t.get h saved) (eq_refl h)),
        )

    -- Pruning at one time changes no redemption that succeeds at that time or later.
    pub redeem-prune :
        (pruned now : ℤ) (presented : String) (records : t.Map) (out : MagicLinkToken)
        → pruned ≤ℤ now
        → ((redeem_magic_link c (in_memory t) now presented (prune_expired t pruned records)).0
            ≡ ok out)
          ↔ ((redeem_magic_link c (in_memory t) now presented records).0 ≡ ok out)
    unfolding prune_expired
    redeem-prune pruned now presented records out h =
        let (to, from) = (redeem-eq-ok_iff now presented (prune_expired t pruned records)).0 out in
        let (to', from') = (redeem-eq-ok_iff now presented records).0 out in
        let same =
          t.get-retain (hash_token c presented) (λ r. not (ltb_ℤ r.expires_at pruned)) records in
        (
          λ e.
              let (r, found, v, o) = to e in
              from' (r, (kept_iff pruned now _ r h v.unexpired).0 (sym same ∙ found), v, o),
          λ e.
              let (r, found, v, o) = to' e in
              from (r, same ∙ (kept_iff pruned now _ r h v.unexpired).1 found, v, o),
        )
