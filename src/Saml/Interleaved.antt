-- ===== src/Saml/Interleaved.antt =====
-- Concurrent calls of `check_and_insert` on one cache in memory of src/saml.rs. A call reads the clock,
-- asks for the length of the map, prunes if it was long, and claims the entry; others may come between
-- these steps. A schedule says which call steps next, and when.
use armature_auth.Prelude.{
  String, ℕ, zero, suc, ℤ, ◌≤ℤ◌, Bool, true, false, List, [], ◌∷◌, Option, none, some, leb,
  if◌then◌else◌, Table, All, arith, ltb_ℤ,
}
use armature_auth.Saml.Cache.{claim, prune_expired, prune_threshold}
use armature_auth.Saml.Replay.{
  Allowed, Call, Log, Stands-kept, Stands-later, Stands-refl, Tracks, claim-Step, logged,
}

-- Where a call stands: with its identifier and its expiry; with its reading of the clock as well; with
-- the test of the length; past the prune; and with its answer.
pub data Client : Type 0 where
  waiting : String → ℤ → Client
  started : String → ℤ → ℤ → Client
  checked : String → ℤ → ℤ → Bool → Client
  pruned : String → ℤ → ℤ → Client
  answered : Bool → Client

abbrev pub entered : String → ℤ → ℤ → ℤ → Call
entered id expires_at now at = record {
  assertion_id = id;
  expires_at = expires_at;
  now = now;
  ended = at;
}

-- Decisions in the order in which they are made.
abbrev pub MeetsTrace : Log → List (Call × Bool) → Type 0
MeetsTrace f [] = Unit
MeetsTrace f ((r, d) ∷ rest) = Allowed r d (f r.assertion_id) × MeetsTrace (logged r d f) rest

abbrev pub Clock : ℤ → List (ℕ × ℤ) → Type 0
Clock last [] = Unit
Clock last ((i, at) ∷ schedule) = (last ≤ℤ at) × Clock at schedule

-- A clock reading of a call is not in the future.
abbrev HasRead : ℤ → Client → Type 0
HasRead last (waiting id expires_at) = Unit
HasRead last (started id expires_at now) = now ≤ℤ last
HasRead last (checked id expires_at now long) = now ≤ℤ last
HasRead last (pruned id expires_at now) = now ≤ℤ last
HasRead last (answered d) = Unit

HasRead-later : (last later : ℤ) (q : Client) → last ≤ℤ later → HasRead last q → HasRead later q
HasRead-later last later (waiting id expires_at) h r = tt
HasRead-later last later (started id expires_at now) h r = omega arith
HasRead-later last later (checked id expires_at now long) h r = omega arith
HasRead-later last later (pruned id expires_at now) h r = omega arith
HasRead-later last later (answered d) h r = tt

All-HasRead-later :
    (last later : ℤ) (qs : List Client)
    → last ≤ℤ later
    → All (HasRead last) qs
    → All (HasRead later) qs
All-HasRead-later last later [] h r = tt
All-HasRead-later last later (q ∷ qs) h (r, rs) =
    (HasRead-later last later q h r, All-HasRead-later last later qs h rs)

module _ (t : Table ℤ) where
  -- The decision that a step makes, if it makes one, with the calls and the map after it.
  abbrev pub Outcome : Type 0
  Outcome = Option (Call × Bool) × List Client × t.Map

  unfoldable pub step_one : ℤ → Client → t.Map → Option (Call × Bool) × Client × t.Map
  step_one at (waiting id expires_at) seen = (none, started id expires_at at, seen)
  step_one at (started id expires_at now) seen =
      (none, checked id expires_at now (leb prune_threshold (t.len seen)), seen)
  step_one at (checked id expires_at now long) seen =
      (none, pruned id expires_at now, if long then prune_expired t at seen else seen)
  step_one at (pruned id expires_at now) seen =
      let out = claim t id expires_at now seen (t.get id seen) in
      (some (entered id expires_at now at, out.0), answered out.0, out.1)
  step_one at (answered d) seen = (none, answered d, seen)

  unfoldable pub step_at : ℕ → ℤ → List Client → t.Map → Outcome
  unfolding step_one
  step_at i at [] seen = (none, [], seen)
  step_at zero at (q ∷ qs) seen = let out = step_one at q seen in (out.0, out.1 ∷ qs, out.2)
  step_at (suc i) at (q ∷ qs) seen = let rest = step_at i at qs seen in (rest.0, q ∷ rest.1, rest.2)

  abbrev pub emit : Option (Call × Bool) → List (Call × Bool) → List (Call × Bool)
  emit none trace = trace
  emit (some decision) trace = decision ∷ trace

  unfoldable pub run : List (ℕ × ℤ) → List Client → t.Map → List (Call × Bool)
  unfolding step_at
  run [] qs seen = []
  run ((i, at) ∷ schedule) qs seen =
      let out = step_at i at qs seen in emit out.0 (run schedule out.1 out.2)

  abbrev Logged : Log → Option (Call × Bool) → Log
  Logged f none = f
  Logged f (some (r, d)) = logged r d f

  abbrev IsAllowed : Log → Option (Call × Bool) → Type 0
  IsAllowed f none = Unit
  IsAllowed f (some (r, d)) = Allowed r d (f r.assertion_id)

  Tracks-prune_expired :
      (at : ℤ) (f : Log) (seen : t.Map) (long : Bool)
      → Tracks t at f seen
      → Tracks t at f (if long then prune_expired t at seen else seen)
  unfolding prune_expired
  Tracks-prune_expired at f seen false tracks = tracks
  Tracks-prune_expired at f seen true tracks = λ j.
      rw (t.get-retain j (λ expires_at. ltb_ℤ at expires_at) seen)
        (Stands-kept at (t.get j seen) (f j) (tracks j))

  step_one-Tracks :
      (at : ℤ) (q : Client) (f : Log) (seen : t.Map)
      → HasRead at q
      → Tracks t at f seen
      → IsAllowed f (step_one at q seen).0
        × HasRead at (step_one at q seen).1
        × Tracks t at (Logged f (step_one at q seen).0) (step_one at q seen).2
  unfolding step_one
  step_one-Tracks at (waiting id expires_at) f seen h tracks = (tt, omega arith, tracks)
  step_one-Tracks at (started id expires_at now) f seen h tracks = (tt, h, tracks)
  step_one-Tracks at (checked id expires_at now long) f seen h tracks =
      (tt, h, Tracks-prune_expired at f seen long tracks)
  step_one-Tracks at (pruned id expires_at now) f seen h tracks =
      let step =
        claim-Step t (entered id expires_at now at) f seen (t.get id seen) h tracks (tracks id) in
      (step.0, tt, step.1)
  step_one-Tracks at (answered d) f seen h tracks = (tt, tt, tracks)

  step_at-Tracks :
      (i : ℕ) (at : ℤ) (qs : List Client) (f : Log) (seen : t.Map)
      → All (HasRead at) qs
      → Tracks t at f seen
      → IsAllowed f (step_at i at qs seen).0
        × All (HasRead at) (step_at i at qs seen).1
        × Tracks t at (Logged f (step_at i at qs seen).0) (step_at i at qs seen).2
  unfolding step_at
  step_at-Tracks i at [] f seen h tracks = (tt, tt, tracks)
  step_at-Tracks zero at (q ∷ qs) f seen (h, hs) tracks =
      let (allowed, read, tracks') = step_one-Tracks at q f seen h tracks in
      (allowed, (read, hs), tracks')
  step_at-Tracks (suc i) at (q ∷ qs) f seen (h, hs) tracks =
      let (allowed, read, tracks') = step_at-Tracks i at qs f seen hs tracks in
      (allowed, (h, read), tracks')

  emit-MeetsTrace :
      (o : Option (Call × Bool)) (f : Log) (trace : List (Call × Bool))
      → IsAllowed f o
      → MeetsTrace (Logged f o) trace
      → MeetsTrace f (emit o trace)
  emit-MeetsTrace none f trace allowed meets = meets
  emit-MeetsTrace (some (r, d)) f trace allowed meets = (allowed, meets)

  run-Tracks :
      (last : ℤ) (schedule : List (ℕ × ℤ)) (qs : List Client) (f : Log) (seen : t.Map)
      → Clock last schedule
      → All (HasRead last) qs
      → Tracks t last f seen
      → MeetsTrace f (run schedule qs seen)
  unfolding run
  run-Tracks last [] qs f seen clock h tracks = tt
  run-Tracks last ((i, at) ∷ schedule) qs f seen (later, clock) h tracks =
      let (allowed, read, tracks') =
        step_at-Tracks i at qs f seen (All-HasRead-later last at qs later h)
          (λ j. Stands-later last at (t.get j seen) (f j) later (tracks j)) in
      emit-MeetsTrace (step_at i at qs seen).0 f
        (run schedule (step_at i at qs seen).1 (step_at i at qs seen).2) allowed
        (run-Tracks at schedule (step_at i at qs seen).1 (Logged f (step_at i at qs seen).0)
          (step_at i at qs seen).2 clock read tracks')

  -- Calls that have not begun, with their identifiers and expiries.
  abbrev pub begin : List (String × ℤ) → List Client
  begin [] = []
  begin ((id, expires_at) ∷ calls) = waiting id expires_at ∷ begin calls

  begin-HasRead : (last : ℤ) (calls : List (String × ℤ)) → All (HasRead last) (begin calls)
  begin-HasRead last [] = tt
  begin-HasRead last (call ∷ calls) = (tt, begin-HasRead last calls)

  -- However many logins use the cache at once, and however the steps of their calls interleave under a
  -- clock that does not run back, the cache refines a log that never forgets, started from the same
  -- contents: a call that is answered with true has no earlier acceptance that still stands when it is
  -- answered, and a call that is answered with false has one that stood when it read the clock.
  pub run-MeetsTrace :
      (last : ℤ) (schedule : List (ℕ × ℤ)) (calls : List (String × ℤ)) (seen : t.Map)
      → Clock last schedule
      → MeetsTrace (λ j. t.get j seen) (run schedule (begin calls) seen)
  run-MeetsTrace last schedule calls seen clock =
      run-Tracks last schedule (begin calls) (λ j. t.get j seen) seen clock
        (begin-HasRead last calls) (λ j. Stands-refl last (t.get j seen))
