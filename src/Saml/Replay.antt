-- ===== src/Saml/Replay.antt =====
-- The replay cache in memory of src/saml.rs against a log that never forgets.
use armature_auth.Prelude.{
  String, ℤ, ◌≤ℤ◌, ◌<ℤ◌, ltb_ℤ, ltb_ℤ→lt, ltb_ℤ→le, Bool, true, false, ◌≡◌, refl, sym, ap, ◌∙◌, ◌⊎◌,
  inl, inr, List, [], ◌∷◌, Option, none, some, leb, if◌then◌else◌, Table, keep_if, str_eq, arith,
  Bool-cases, some-injective,
}
use armature_auth.Saml.Cache.{prune_threshold, prune_expired, claim, remember}

-- One call of `check_and_insert`: the clock reads `now` at its start and `ended` at its
-- end.
pub record Call : Type 0 where
  pub assertion_id : String
  pub expires_at : ℤ
  pub now : ℤ
  pub ended : ℤ

-- The clock never runs back.
abbrev pub Timeline : ℤ → List Call → Type 0
Timeline last [] = Unit
Timeline last (r ∷ rs) = (last ≤ℤ r.now) × (r.now ≤ℤ r.ended) × Timeline r.ended rs

-- The expiry under which each identifier was last accepted.
abbrev pub Log : Type 0
Log = String → Option ℤ

abbrev pub logged : Call → Bool → Log → Log
logged r true f j = if str_eq r.assertion_id j then some (r.expires_at) else f j
logged r false f j = f j

-- What one decision promises: to accept, no earlier acceptance may still stand at the end of the
-- call; to refuse, one must stand at its start.
abbrev pub Allowed : Call → Bool → Option ℤ → Type 0
Allowed r true none = Unit
Allowed r true (some expiry) = expiry ≤ℤ r.ended
Allowed r false none = ⊥
Allowed r false (some expiry) = r.now <ℤ expiry

-- The runs of the log: each decision is allowed by the acceptances before it.
abbrev pub Meets : Log → List Call → List Bool → Type 0
Meets f [] [] = Unit
Meets f [] (d ∷ ds) = ⊥
Meets f (r ∷ rs) [] = ⊥
Meets f (r ∷ rs) (d ∷ ds) = Allowed r d (f r.assertion_id) × Meets (logged r d f) rs ds

-- A cached entry is the logged one, or it is gone and the logged one has expired.
abbrev pub Stands : ℤ → Option ℤ → Option ℤ → Type 0
Stands now cached none = cached ≡ none
Stands now cached (some expiry) = (cached ≡ some expiry) ⊎ ((cached ≡ none) × (expiry ≤ℤ now))

pub Stands-later :
    (now later : ℤ) (cached o : Option ℤ)
    → now ≤ℤ later
    → Stands now cached o
    → Stands later cached o
Stands-later now later cached none h e = e
Stands-later now later cached (some expiry) h (inl e) = inl e
Stands-later now later cached (some expiry) h (inr (e, le)) = inr (e, omega arith)

pub Stands-kept :
    (now : ℤ) (cached o : Option ℤ)
    → Stands now cached o
    → Stands now (keep_if (λ expires_at. ltb_ℤ now expires_at) cached) o
Stands-kept now cached none e = ap (keep_if (λ expires_at. ltb_ℤ now expires_at)) e
Stands-kept now cached (some expiry) (inr (e, le)) =
    inr (ap (keep_if (λ expires_at. ltb_ℤ now expires_at)) e, le)
Stands-kept now cached (some expiry) (inl e) = elim (Bool-cases (ltb_ℤ now expiry)) [
  | inl live ↦ inl (rw (e, live))
  | inr gone ↦ inr (rw (e, gone), ltb_ℤ→le now expiry gone)
]

pub Stands-refl : (now : ℤ) (o : Option ℤ) → Stands now o o
Stands-refl now none = refl
Stands-refl now (some expiry) = inl refl

Allowed-absent : (r : Call) (o : Option ℤ) → Stands r.ended none o → Allowed r true o
Allowed-absent r none e = tt
Allowed-absent r (some expiry) (inl e) = let stop = e in cc
Allowed-absent r (some expiry) (inr (e, le)) = le

Allowed-live :
    (r : Call) (recorded : ℤ) (o : Option ℤ)
    → ltb_ℤ r.now recorded ≡ true
    → Stands r.ended (some recorded) o
    → Allowed r false o
Allowed-live r recorded none e stands = let stop = stands in cc
Allowed-live r recorded (some expiry) e (inr (n, le)) = let stop = n in cc
Allowed-live r recorded (some expiry) e (inl same) =
    ltb_ℤ→lt r.now expiry (ap (ltb_ℤ r.now) (sym (some-injective same)) ∙ e)

Allowed-stale :
    (r : Call) (recorded : ℤ) (o : Option ℤ)
    → r.now ≤ℤ r.ended
    → ltb_ℤ r.now recorded ≡ false
    → Stands r.ended (some recorded) o
    → Allowed r true o
Allowed-stale r recorded none h e stands = tt
Allowed-stale r recorded (some expiry) h e (inr (n, le)) = le
Allowed-stale r recorded (some expiry) h e (inl same) =
    let le = ltb_ℤ→le r.now expiry (ap (ltb_ℤ r.now) (sym (some-injective same)) ∙ e) in omega arith

module _ (t : Table ℤ) where
  abbrev pub Tracks : ℤ → Log → t.Map → Type 0
  Tracks now f seen = (j : String) → Stands now (t.get j seen) (f j)

  -- The map after the prune that the length may ask for.
  kept : ℤ → t.Map → t.Map
  kept pruned seen = if leb prune_threshold (t.len seen) then prune_expired t pruned seen else seen

  Tracks-kept :
      (now : ℤ) (f : Log) (seen : t.Map) → Tracks now f seen → Tracks now f (kept now seen)
  unfolding kept prune_expired
  Tracks-kept now f seen tracks j = elim (Bool-cases (leb prune_threshold (t.len seen))) [
    | inl e ↦
        rw (e, t.get-retain j (λ expires_at. ltb_ℤ now expires_at) seen)
          (Stands-kept now (t.get j seen) (f j) (tracks j))
    | inr e ↦ rw e (tracks j)
  ]

  remember-claim :
      (r : Call) (seen : t.Map)
      → remember t r.assertion_id r.expires_at r.now r.ended seen
        ≡ claim t r.assertion_id r.expires_at r.now
            (kept r.ended seen)
            (t.get r.assertion_id (kept r.ended seen))
  unfolding remember kept
  remember-claim r seen = refl

  Tracks-insert :
      (now : ℤ) (r : Call) (f : Log) (seen : t.Map)
      → Tracks now f seen
      → Tracks now (logged r true f) (t.insert r.assertion_id r.expires_at seen)
  Tracks-insert now r f seen tracks j =
      rw (t.get-insert j r.assertion_id r.expires_at seen)
        (elim (Bool-cases (str_eq r.assertion_id j)) [
          | inl e ↦ rw e (inl refl)
          | inr e ↦ rw e (tracks j)
        ])

  -- One call, by the cached entry.
  abbrev pub Step : Call → Log → Bool × t.Map → Type 0
  Step r f out = Allowed r out.0 (f r.assertion_id) × Tracks r.ended (logged r out.0 f) out.1

  pub claim-Step :
      (r : Call) (f : Log) (seen : t.Map) (o : Option ℤ)
      → r.now ≤ℤ r.ended
      → Tracks r.ended f seen
      → Stands r.ended o (f r.assertion_id)
      → Step r f (claim t r.assertion_id r.expires_at r.now seen o)
  claim-Step r f seen none h tracks stands =
      (Allowed-absent r (f r.assertion_id) stands, Tracks-insert r.ended r f seen tracks)
  claim-Step r f seen (some recorded) h tracks stands = elim (Bool-cases (ltb_ℤ r.now recorded)) [
    | inl e ↦ rw e (Allowed-live r recorded (f r.assertion_id) e stands, tracks)
    | inr e ↦ rw e (
      Allowed-stale r recorded (f r.assertion_id) h e stands,
      Tracks-insert r.ended r f seen tracks,
    )
  ]

  remember-Step :
      (last : ℤ) (r : Call) (f : Log) (seen : t.Map)
      → last ≤ℤ r.now
      → r.now ≤ℤ r.ended
      → Tracks last f seen
      → Step r f (remember t r.assertion_id r.expires_at r.now r.ended seen)
  remember-Step last r f seen h h' tracks =
      let tracks' =
        Tracks-kept r.ended f seen
          (λ j. Stands-later last r.ended (t.get j seen) (f j) (omega arith) (tracks j)) in
      rw (remember-claim r seen) (
        claim-Step r f (kept r.ended seen) (t.get r.assertion_id (kept r.ended seen)) h' tracks'
          (tracks' r.assertion_id))

  -- The decisions of the cache, call after call.
  unfoldable pub decisions : t.Map → List Call → List Bool
  decisions seen [] = []
  decisions seen (r ∷ rs) =
      let out = remember t r.assertion_id r.expires_at r.now r.ended seen in
      out.0 ∷ decisions out.1 rs

  decisions-Tracks :
      (last : ℤ) (f : Log) (seen : t.Map) (rs : List Call)
      → Timeline last rs
      → Tracks last f seen
      → Meets f rs (decisions seen rs)
  unfolding decisions
  decisions-Tracks last f seen [] h tracks = tt
  decisions-Tracks last f seen (r ∷ rs) (h, h', hs) tracks =
      let step = remember-Step last r f seen h h' tracks in
      (step.0, decisions-Tracks r.ended _ _ rs hs step.1)

  -- Under a clock that does not run back, the cache in memory, from any contents and over all
  -- identifiers, refines the log that never forgets, started from the same contents: every call that
  -- it answers with true has no earlier acceptance that still stands at the call's end, and every
  -- call that it answers with false has one that stands at its start. So pruning never lets a replay
  -- through, and never refuses a first use.
  pub decisions-Meets :
      (last : ℤ) (seen : t.Map) (rs : List Call)
      → Timeline last rs
      → Meets (λ j. t.get j seen) rs (decisions seen rs)
  decisions-Meets last seen rs h =
      decisions-Tracks last (λ j. t.get j seen) seen rs h (λ j. Stands-refl last (t.get j seen))
