-- ===== src/ApiKey/Limiter.antt =====
-- `check_rate_limit` and `sweep_expired_windows` of src/api_key.rs, in their atomic parts. `u32`
-- counts wrap, as in a release build.
use armature_auth.Prelude.{
  String, ℕ, suc, ◌+◌, ◌/◌, ◌%◌, ◌^◌, ◌-◌, ℤ, pos, negsuc, ◌-ℤ◌, ltb_ℤ, Bool, not, Option, none,
  some, Result, ok, err, ltb, if◌then◌else◌, Table,
}
use armature_auth.ApiKey.{
  ApiKeyError, rate_limit_exceeded, ApiKeyManager, State, nanos, rate_counter_sweep_threshold,
}

-- `Duration::num_seconds`, which rounds towards zero.
unfoldable pub num_seconds : ℤ → ℤ
num_seconds (pos n) = pos (n / nanos)
num_seconds (negsuc n) = pos 0 -ℤ pos (suc n / nanos)

-- `DateTime::timestamp`, which rounds down.
unfoldable pub timestamp : ℤ → ℤ
timestamp (pos n) = pos (n / nanos)
timestamp (negsuc n) = negsuc (n / nanos)

-- `i64::saturating_sub`.
unfoldable pub saturate : ℤ → ℤ
saturate d =
    if ltb_ℤ (pos (2 ^ 63 - 1)) d
    then pos (2 ^ 63 - 1)
    else if ltb_ℤ d (negsuc (2 ^ 63 - 1))
    then negsuc (2 ^ 63 - 1)
    else d

unfoldable pub saturating_sub : ℤ → ℤ → ℤ
unfolding saturate
saturating_sub a b = saturate (a -ℤ b)

-- `.max(1)`.
unfoldable pub at_least_one : ℤ → ℤ
at_least_one d = if ltb_ℤ d (pos 1) then pos 1 else d

-- The window that an entry opens has fully elapsed.
abbrev pub is_elapsed : ℤ → ℤ → ℤ × ℕ → Bool
is_elapsed window now (start, count) = ltb_ℤ window (now -ℤ start)

-- The update of an entry under its lock: a new window if the old one has elapsed, and one request.
unfoldable pub touch : ℤ → ℤ → ℤ × ℕ → ℤ × ℕ
touch window now (start, count) =
    if is_elapsed window now (start, count) then (now, 1) else (start, (count + 1) % 2 ^ 32)

module _ (t : Table (ℤ × ℕ)) where
  -- The first look-up, by `get_mut`: the new count, if the key is tracked.
  unfoldable pub touch_tracked : ℤ → ℤ → String → t.Map → Option ℕ × t.Map
  unfolding touch
  touch_tracked window now key_id counters = elim (t.get key_id counters) [
    | some entry ↦
        let entry' = touch window now entry in (some (entry'.1), t.insert key_id entry' counters)
    | none ↦ (none, counters)
  ]

  -- The second, by `entry`: another caller may have inserted the key in between.
  unfoldable pub touch_or_insert : ℤ → ℤ → String → t.Map → ℕ × t.Map
  unfolding touch
  touch_or_insert window now key_id counters = elim (t.get key_id counters) [
    | some entry ↦
        let entry' = touch window now entry in (entry'.1, t.insert key_id entry' counters)
    | none ↦ (1, t.insert key_id (now, 1) counters)
  ]

  -- The count after a request, and the counters.
  unfoldable pub count_request : ℤ → ℤ → String → t.Map → ℕ × t.Map
  unfolding touch_tracked touch_or_insert
  count_request window now key_id counters =
      let tracked = touch_tracked window now key_id counters in
      elim tracked.0 [
        | some count ↦ (count, tracked.1)
        | none ↦ touch_or_insert window now key_id tracked.1
      ]

  module _ {S : Type 0} where
    -- With no other caller the compare-exchange finds the value just loaded.
    unfoldable pub sweep_expired_windows : ApiKeyManager → ℤ → State S t.Map → State S t.Map
    sweep_expired_windows m now s =
        let window_secs = at_least_one (num_seconds m.rate_limit_window) in
        let now_secs = timestamp now in
        if ltb (t.len s.rate_counters) rate_counter_sweep_threshold
        then s
        else if ltb_ℤ (saturating_sub now_secs s.last_sweep_unix) window_secs
        then s
        else record s {
          rate_counters =
              t.retain (λ entry. not (is_elapsed m.rate_limit_window now entry)) s.rate_counters;
          last_sweep_unix = now_secs;
        }

    unfoldable pub check_rate_limit :
        ApiKeyManager
        → ℤ
        → String
        → ℕ
        → State S t.Map
        → Result ApiKeyError (Unit {0}) × State S t.Map
    unfolding count_request sweep_expired_windows
    check_rate_limit m now key_id limit s =
        let counted = count_request m.rate_limit_window now key_id s.rate_counters in
        let swept = sweep_expired_windows m now (record s { rate_counters = counted.1 }) in
        (if ltb limit counted.0 then err rate_limit_exceeded else ok tt, swept)
