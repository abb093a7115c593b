-- ===== src/ApiKey/Window.antt =====
-- The rate limiter of src/api_key.rs against one that never sweeps.
use mathlib.Core.Path.{ap₂}
use armature_auth.Prelude.{
  String, ℕ, ℤ, ◌-ℤ◌, ◌≤ℤ◌, ltb_ℤ, -ℤ_parts, Bool, true, false, not, ◌≡◌, refl, sym, ap, ◌∙◌, inl,
  inr, List, [], ◌∷◌, Option, none, some, Result, ok, err, ltb, if◌then◌else◌, Table, keep_if,
  str_eq, arith, Bool-cases,
}
use armature_auth.ApiKey.{ApiKeyError, rate_limit_exceeded, ApiKeyManager, State}
use armature_auth.ApiKey.Limiter.{
  is_elapsed, touch, count_request, sweep_expired_windows, check_rate_limit,
}

-- One call of `check_rate_limit`.
pub record Request : Type 0 where
  pub key_id : String
  pub limit : ℕ
  pub at : ℤ

-- The clock never runs back.
abbrev pub Timeline : ℤ → List Request → Type 0
Timeline now [] = Unit
Timeline now (r ∷ rs) = (now ≤ℤ r.at) × Timeline r.at rs

abbrev pub accepts {ℓ} : {A : Type ℓ} → Result ApiKeyError A → Bool
accepts (ok a) = true
accepts (err e) = false

-- The window of a key after a request at `now`, from its window before.
abbrev pub next_window : ℤ → ℤ → Option (ℤ × ℕ) → ℤ × ℕ
next_window window now none = (now, 1)
next_window window now (some entry) = touch window now entry

-- Counters that are kept forever.
abbrev pub Counters : Type 0
Counters = String → Option (ℤ × ℕ)

abbrev pub count_for : ℤ → Request → Counters → Counters
count_for window r f j =
    if str_eq r.key_id j then some (next_window window r.at (f r.key_id)) else f j

-- The decisions of a limiter that never sweeps.
unfoldable pub unswept : ℤ → Counters → List Request → List Bool
unswept window f [] = []
unswept window f (r ∷ rs) =
    not (ltb r.limit (next_window window r.at (f r.key_id)).1)
    ∷ unswept window (count_for window r f) rs

-- A window that has not elapsed.
abbrev pub live : ℤ → ℤ → Option (ℤ × ℕ) → Option (ℤ × ℕ)
live window now = keep_if (λ entry. not (is_elapsed window now entry))

next_window-live :
    (window now : ℤ) (o : Option (ℤ × ℕ))
    → next_window window now (live window now o) ≡ next_window window now o
unfolding touch
next_window-live window now none = refl
next_window-live window now (some (start, c)) = ground arith

live-live :
    (window now : ℤ) (o : Option (ℤ × ℕ)) → live window now (live window now o) ≡ live window now o
live-live window now none = refl
live-live window now (some (start, c)) = ground arith

elapsed_later :
    (window now later start : ℤ)
    → now ≤ℤ later
    → ltb_ℤ window (now -ℤ start) ≡ true
    → ltb_ℤ window (later -ℤ start) ≡ true
elapsed_later window now later start h e = ground (arith, -ℤ_parts now start, -ℤ_parts later start)

live_later :
    (window now later : ℤ) (o : Option (ℤ × ℕ))
    → now ≤ℤ later
    → live window later (live window now o) ≡ live window later o
live_later window now later none h = refl
live_later window now later (some (start, c)) h = elim (Bool-cases (ltb_ℤ window (now -ℤ start))) [
  | inl e ↦ rw (e, elapsed_later window now later start h e)
  | inr e ↦ rw e
]

module _ (t : Table (ℤ × ℕ)) where
  count_cases :
      (window now : ℤ) (k : String) (c : t.Map) (o : Option (ℤ × ℕ))
      → t.get k c ≡ o
      → count_request t window now k c
        ≡ ((next_window window now o).1, t.insert k (next_window window now o) c)
  unfolding count_request
  count_cases window now k c none e = ground arith
  count_cases window now k c (some entry) e = ground arith

  -- The two look-ups together count the request in the window that it falls in.
  count_request_lem :
      (window now : ℤ) (k : String) (c : t.Map)
      → count_request t window now k c ≡ (
        (next_window window now (t.get k c)).1,
        t.insert k (next_window window now (t.get k c)) c,
      )
  count_request_lem window now k c = count_cases window now k c _ refl

  module _ {S : Type 0} (m : ApiKeyManager) where
    -- A sweep at `now` keeps every window that is live at `now`.
    live-sweep :
        (now : ℤ) (s : State S t.Map) (j : String)
        → live m.rate_limit_window now (t.get j (sweep_expired_windows t m now s).rate_counters)
          ≡ live m.rate_limit_window now (t.get j s.rate_counters)
    unfolding sweep_expired_windows
    live-sweep now s j = ground (
      arith,
      ap (live m.rate_limit_window now) (
          t.get-retain j (λ entry. not (is_elapsed m.rate_limit_window now entry)) s.rate_counters),
      live-live m.rate_limit_window now (t.get j s.rate_counters),
    )

    -- The counters agree on the windows that are live at `now`.
    abbrev Tracks : ℤ → Counters → State S t.Map → Type 0
    Tracks now f s =
        (j : String)
        → live m.rate_limit_window now (f j)
          ≡ live m.rate_limit_window now (t.get j s.rate_counters)

    Tracks-later :
        (now later : ℤ) (f : Counters) (s : State S t.Map)
        → now ≤ℤ later
        → Tracks now f s
        → Tracks later f s
    Tracks-later now later f s h tracks j =
        sym (live_later m.rate_limit_window now later (f j) h)
        ∙ ap (live m.rate_limit_window later) (tracks j)
        ∙ live_later m.rate_limit_window now later (t.get j s.rate_counters) h

    same_next_window :
        (now : ℤ) (f : Counters) (s : State S t.Map) (k : String)
        → Tracks now f s
        → next_window m.rate_limit_window now (f k)
          ≡ next_window m.rate_limit_window now (t.get k s.rate_counters)
    same_next_window now f s k tracks =
        sym (next_window-live m.rate_limit_window now (f k))
        ∙ ap (next_window m.rate_limit_window now) (tracks k)
        ∙ next_window-live m.rate_limit_window now (t.get k s.rate_counters)

    counted : Request → State S t.Map → State S t.Map
    counted r s = record s {
      rate_counters = (count_request t m.rate_limit_window r.at r.key_id s.rate_counters).1;
    }

    Tracks-counted :
        (r : Request) (f : Counters) (s : State S t.Map)
        → Tracks r.at f s
        → Tracks r.at (count_for m.rate_limit_window r f) (counted r s)
    unfolding counted
    Tracks-counted r f s tracks j =
        rw
          (
            count_request_lem m.rate_limit_window r.at r.key_id s.rate_counters,
            t.get-insert j r.key_id _ s.rate_counters,
            ← same_next_window r.at f s r.key_id tracks,
          )
          (elim (Bool-cases (str_eq r.key_id j)) [ inl e ↦ rw e | inr e ↦ rw e (tracks j) ])

    Tracks-check :
        (r : Request) (f : Counters) (s : State S t.Map)
        → Tracks r.at f s
        → Tracks r.at
            (count_for m.rate_limit_window r f)
            (check_rate_limit t m r.at r.key_id r.limit s).1
    unfolding check_rate_limit counted
    Tracks-check r f s tracks j =
        Tracks-counted r f s tracks j ∙ sym (live-sweep r.at (counted r s) j)

    accepts-check :
        (r : Request) (f : Counters) (s : State S t.Map)
        → Tracks r.at f s
        → accepts (check_rate_limit t m r.at r.key_id r.limit s).0
          ≡ not (ltb r.limit (next_window m.rate_limit_window r.at (f r.key_id)).1)
    unfolding check_rate_limit
    accepts-check r f s tracks =
        rw
          (
            count_request_lem m.rate_limit_window r.at r.key_id s.rate_counters,
            same_next_window r.at f s r.key_id tracks,
          )
          (either_way _)
      where
        either_way :
            (b : Bool)
            → accepts {A = Unit {0}} (if b then err rate_limit_exceeded else ok tt) ≡ not b
        either_way true = refl
        either_way false = refl

    -- The decisions of `check_rate_limit`, call after call.
    unfoldable pub decisions : State S t.Map → List Request → List Bool
    decisions s [] = []
    decisions s (r ∷ rs) =
        let out = check_rate_limit t m r.at r.key_id r.limit s in accepts out.0 ∷ decisions out.1 rs

    decisions-Tracks :
        (now : ℤ) (f : Counters) (s : State S t.Map) (rs : List Request)
        → Timeline now rs
        → Tracks now f s
        → decisions s rs ≡ unswept m.rate_limit_window f rs
    unfolding decisions unswept
    decisions-Tracks now f s [] h tracks = refl
    decisions-Tracks now f s (r ∷ rs) (h, hs) tracks =
        let tracks' = Tracks-later now r.at f s h tracks in
        ap₂ ◌∷◌ (accepts-check r f s tracks') (
          decisions-Tracks r.at (count_for m.rate_limit_window r f)
            (check_rate_limit t m r.at r.key_id r.limit s).1 rs hs (Tracks-check r f s tracks'))

    -- With a clock that does not run back, the limiter decides every sequence of calls, over all
    -- keys, as one that never sweeps, started from the same counters: a sweep changes no decision.
    pub decisions-eq-unswept :
        (now : ℤ) (s : State S t.Map) (rs : List Request)
        → Timeline now rs
        → decisions s rs ≡ unswept m.rate_limit_window (λ j. t.get j s.rate_counters) rs
    decisions-eq-unswept now s rs h =
        decisions-Tracks now (λ j. t.get j s.rate_counters) s rs h (λ j. refl)
