-- ===== src/Passwordless/Kept.antt =====
-- Steps of `redeem_magic_link` of src/passwordless.rs at which a record is usable: none is lost.
use armature_auth.Prelude.{
  String, ℕ, zero, suc, ◌+◌, ℤ, ltb_ℤ, true, false, ◌≡◌, refl, sym, ap, ◌∙◌, List, [], ◌∷◌, map,
  Option, none, some, Result, ok, err, Table, str_eq, eq_iff, arith, All, Bool-cases, inl, inr,
}
use armature_auth.Crypto.{Crypto}
use armature_auth.Passwordless.{
  PasswordlessError, MagicLinkToken, hash_token, redeem_claimed, consume, is_usable,
}
use armature_auth.Passwordless.SingleUse.{
  Redeemer, called, claimed, finished, holders, run, step_at, stored,
}
use armature_auth.Passwordless.Progress.{holders-cons}

module _ (c : Crypto) (t : Table MagicLinkToken) where
  -- A store that held a usable record under `h`, and calls that have claimed no other.
  module _ (h : String) (r : MagicLinkToken) where
    abbrev pub Owns : Redeemer → Type 0
    Owns (called p) = Unit
    Owns (claimed p none) = Unit
    Owns (claimed p (some found)) = hash_token c p ≡ h → found ≡ r
    Owns (finished p out) = Unit

    abbrev pub Holds : t.Map → Type 0
    Holds records = (found : MagicLinkToken) → t.get h records ≡ some found → found ≡ r

    consume-fresh :
        (now : ℤ) (p : String)
        → r.token_hash ≡ h
        → r.used ≡ false
        → ltb_ℤ r.expires_at now ≡ false
        → hash_token c p ≡ h
        → consume c now p r ≡ (ok tt, record r { used = true })
    unfolding consume is_usable
    consume-fresh now p hash fresh young same =
        rw
          (
            consume,
            (c.ct_eq_iff (hash_token c p) r.token_hash).1 (same ∙ sym hash),
            is_usable,
            fresh,
            young,
          )
          refl

    redeem_claimed-fresh :
        (now : ℤ) (p : String)
        → r.token_hash ≡ h
        → r.used ≡ false
        → ltb_ℤ r.expires_at now ≡ false
        → hash_token c p ≡ h
        → redeem_claimed c now p (some r) ≡ ok (record r { used = true })
    unfolding redeem_claimed
    redeem_claimed-fresh now p hash fresh young same =
        rw (redeem_claimed, consume-fresh now p hash fresh young same)
          (ap (λ out. ok out.1) (consume-fresh now p hash fresh young same))

    claim_all :
        (p : String) (records : t.Map) (rs : List Redeemer)
        → holders c t h (claimed p (t.get (hash_token c p) records) ∷ rs)
            + stored c t h (t.remove (hash_token c p) records)
          ≡ holders c t h rs + stored c t h records
    claim_all p records rs =
        ground (arith, t.get-remove h (hash_token c p) records, eq_iff (hash_token c p) h)

    finish_all :
        (p : String) (now : ℤ) (o : Option MagicLinkToken) (rs : List Redeemer)
        → r.token_hash ≡ h
        → r.used ≡ false
        → ltb_ℤ r.expires_at now ≡ false
        → Owns (claimed p o)
        → holders c t h (finished p (redeem_claimed c now p o) ∷ rs)
          ≡ holders c t h (claimed p o ∷ rs)
    unfolding redeem_claimed
    finish_all p now none rs hash fresh young owns = refl
    finish_all p now (some found) rs hash fresh young owns =
        elim (Bool-cases (str_eq (hash_token c p) h)) [
          | inl e ↦
              let same = (eq_iff (hash_token c p) h).0 e in
              rw (owns same, redeem_claimed-fresh now p hash fresh young same) refl
          | inr e ↦ other (redeem_claimed c now p (some found)) e
        ]
      where
        other :
            (out : Result PasswordlessError MagicLinkToken)
            → str_eq (hash_token c p) h ≡ false
            → holders c t h (finished p out ∷ rs) ≡ holders c t h (claimed p (some found) ∷ rs)
        other (ok x) e = refl
        other (err x) e = rw e (omega arith)

    Owns-get :
        (p : String) (records : t.Map) (o : Option MagicLinkToken)
        → t.get (hash_token c p) records ≡ o
        → Holds records
        → Owns (claimed p o)
    Owns-get p records none e holds = tt
    Owns-get p records (some found) e holds =
        λ same. holds found (sym (ap (λ k. t.get k records) same) ∙ e)

    Holds-remove : (k : String) (records : t.Map) → Holds records → Holds (t.remove k records)
    Holds-remove k records holds found e = elim (Bool-cases (str_eq k h)) [
      | inl same ↦ (let stop = rw (t.get-remove h k records, same) at e in cc)
      | inr differs ↦ holds found (rw (t.get-remove h k records, differs) at e)
    ]

    -- A step at which the record is usable keeps every record: the one of the store and those that
    -- calls hold.
    step_at-keeps :
        (i : ℕ) (now : ℤ) (rs : List Redeemer) (records : t.Map)
        → r.token_hash ≡ h
        → r.used ≡ false
        → ltb_ℤ r.expires_at now ≡ false
        → All Owns rs
        → Holds records
        → (holders c t h (step_at c t i now rs records).0
              + stored c t h (step_at c t i now rs records).1
            ≡ holders c t h rs + stored c t h records)
          × All Owns (step_at c t i now rs records).0
          × Holds (step_at c t i now rs records).1
    unfolding step_at
    step_at-keeps i now [] records hash fresh young owns holds = (refl, tt, holds)
    step_at-keeps zero now (called p ∷ rs) records hash fresh young owns holds = (
      claim_all p records rs,
      (Owns-get p records (t.get (hash_token c p) records) refl holds, owns.1),
      Holds-remove (hash_token c p) records holds,
    )
    step_at-keeps zero now (claimed p o ∷ rs) records hash fresh young owns holds = (
      ap (λ n. n + stored c t h records) (finish_all p now o rs hash fresh young owns.0),
      (tt, owns.1),
      holds,
    )
    step_at-keeps zero now (finished p out ∷ rs) records hash fresh young owns holds =
        (refl, owns, holds)
    step_at-keeps (suc i) now (q ∷ rs) records hash fresh young owns holds =
        let rest = step_at-keeps i now rs records hash fresh young owns.1 holds in
        (
          omega (
            arith,
            rest.0,
            holders-cons c t h q rs,
            holders-cons c t h q (step_at c t i now rs records).0,
          ),
          (owns.0, rest.1),
          rest.2,
        )

    pub run-keeps :
        (schedule : List (ℕ × ℤ)) (rs : List Redeemer) (records : t.Map)
        → r.token_hash ≡ h
        → r.used ≡ false
        → All (λ turn. ltb_ℤ r.expires_at turn.1 ≡ false) schedule
        → All Owns rs
        → Holds records
        → holders c t h (run c t schedule rs records).0
            + stored c t h (run c t schedule rs records).1
          ≡ holders c t h rs + stored c t h records
    unfolding run
    run-keeps [] rs records hash fresh young owns holds = refl
    run-keeps ((i, now) ∷ schedule) rs records hash fresh young owns holds =
        let (kept, owns', holds') = step_at-keeps i now rs records hash fresh young.0 owns holds in
        run-keeps schedule (step_at c t i now rs records).0 (step_at c t i now rs records).1 hash
          fresh young.1 owns' holds'
        ∙ kept

    pub Owns-called : (tokens : List String) → All Owns (map called tokens)
    Owns-called [] = tt
    Owns-called (p ∷ tokens) = (tt, Owns-called tokens)
