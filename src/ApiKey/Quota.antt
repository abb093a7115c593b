-- ===== src/ApiKey/Quota.antt =====
-- How many requests of one key the rate limiter of src/api_key.rs lets through.
use armature_auth.Prelude.{
  String, ℕ, ◌+◌, ◌-◌, ◌<◌, ◌^◌, min, ℤ, ◌-ℤ◌, ◌≤ℤ◌, le→ltb_ℤ, Bool, not, ◌&&◌, ◌≡◌, ap, ◌∙◌, List,
  [], ◌∷◌, none, some, ltb, if◌then◌else◌, Table, All, str_eq, eq_iff, eq_refl, arith, Bool-cases,
  inl, inr,
}
use armature_auth.ApiKey.{ApiKeyManager, State}
use armature_auth.ApiKey.Limiter.{touch}
use armature_auth.ApiKey.Window.{
  Request, Timeline, next_window, Counters, count_for, unswept, decisions, decisions-eq-unswept,
}

-- The requests of key `k`, and those of them that were let through.
abbrev pub requests : String → List Request → ℕ
requests k [] = 0
requests k (r ∷ rs) = (if str_eq r.key_id k then 1 else 0) + requests k rs

abbrev pub accepted : String → List Request → List Bool → ℕ
accepted k [] ds = 0
accepted k (r ∷ rs) [] = 0
accepted k (r ∷ rs) (d ∷ ds) = (if str_eq r.key_id k && d then 1 else 0) + accepted k rs ds

-- A request of key `k` carries the limit, and comes while the window opened at `start` lasts.
abbrev pub InWindow : ℤ → String → ℕ → ℤ → Request → Type 0
InWindow window k limit start r = r.key_id ≡ k → (r.limit ≡ limit) × (r.at -ℤ start ≤ℤ window)

touch_in_window :
    (window now start : ℤ) (c : ℕ)
    → now -ℤ start ≤ℤ window
    → c + 1 < 2 ^ 32
    → touch window now (start, c) ≡ (start, c + 1)
unfolding touch
touch_in_window window now start c h small =
    rw (le→ltb_ℤ window (now -ℤ start) h) (ap (λ n. (start, n)) (omega arith))

-- The arithmetic of one request: it is let through while the count stays within the limit.
count_one :
    (limit c n a : ℕ)
    → a ≡ min (limit - (c + 1)) n
    → (if not (ltb limit (c + 1)) then 1 else 0) + a ≡ min (limit - c) (1 + n)
count_one limit c n a h = ground arith

module _ (window : ℤ) (k : String) (limit : ℕ) (start : ℤ) where
  window_after :
      (f : Counters) (c : ℕ) (r : Request)
      → f k ≡ some (start, c)
      → r.key_id ≡ k
      → r.at -ℤ start ≤ℤ window
      → c + 1 < 2 ^ 32
      → next_window window r.at (f r.key_id) ≡ (start, c + 1)
  window_after f c r e same h small =
      ap (next_window window r.at) (ap f same ∙ e) ∙ touch_in_window window r.at start c h small

  accepted-unswept :
      (f : Counters) (c : ℕ) (rs : List Request)
      → f k ≡ some (start, c)
      → All (InWindow window k limit start) rs
      → c + requests k rs < 2 ^ 32
      → accepted k rs (unswept window f rs) ≡ min (limit - c) (requests k rs)
  unfolding unswept
  accepted-unswept f c [] e h small = omega arith
  accepted-unswept f c (r ∷ rs) e (h, hs) small = elim (Bool-cases (str_eq r.key_id k)) [
    | inl same ↦
        let key = (eq_iff r.key_id k).0 same in
        let one : c + 1 < 2 ^ 32 = ground arith in
        let counted = window_after f c r e key (h key).1 one in
        let rest =
          accepted-unswept (count_for window r f) (c + 1) rs (rw same (ap some counted)) hs
            (ground arith) in
        rw (same, counted, (h key).0) (count_one limit c (requests k rs) _ rest)
    | inr other ↦
        rw other (
          omega
            (arith, accepted-unswept (count_for window r f) c rs (rw other e) hs (ground arith)))
  ]

count_first :
    (limit n a : ℕ)
    → a ≡ min (limit - 1) n
    → (if not (ltb limit 1) then 1 else 0) + a ≡ min limit (1 + n)
count_first limit n a h = ground arith

le_refl_ℤ : (a : ℤ) → a ≤ℤ a
le_refl_ℤ a = omega arith

module _ (t : Table (ℤ × ℕ)) {S : Type 0} (m : ApiKeyManager) where
  -- A key that is not tracked makes a request, and more follow, among those of other keys, all
  -- under one limit and while the window opened by the first lasts; the clock does not run back and
  -- the count stays within `u32`. Then exactly as many are let through as the limit allows, or all
  -- of them if they are fewer.
  pub quota_exact :
      (s : State S t.Map) (first : Request) (rs : List Request)
      → t.get first.key_id s.rate_counters ≡ none
      → Timeline first.at rs
      → All (InWindow m.rate_limit_window first.key_id first.limit first.at) rs
      → 1 + requests first.key_id rs < 2 ^ 32
      → accepted first.key_id (first ∷ rs) (decisions t m s (first ∷ rs))
        ≡ min first.limit (1 + requests first.key_id rs)
  unfolding unswept
  quota_exact s first rs e line h small =
      let w = m.rate_limit_window in
      let k = first.key_id in
      let f : Counters = λ j. t.get j s.rate_counters in
      let opened : next_window w first.at (f k) ≡ (first.at, 1) = rw e in
      let rest =
        accepted-unswept w k first.limit first.at (count_for w first f) 1 rs
          (rw (eq_refl k) (ap some opened)) h small in
      rw
        (
          decisions-eq-unswept t m first.at s (first ∷ rs) (le_refl_ℤ first.at, line),
          eq_refl k,
          opened,
        )
        (count_first first.limit (requests k rs) _ rest)
