-- ===== src/Prelude/Results.antt =====
-- `Result<A, E>` and its `?` operator as `do`.
use mathlib.Core.Path.{◌≡◌, refl}
use mathlib.Core.Logic.{◌⊎◌, inl, inr}
use mathlib.Core.Option.{Option, none, some}

pub data Result {ℓ κ} (E : Type κ) (A : Type ℓ) : Type (ℓ ⊔ κ) where
  ok : A → Result E A
  err : E → Result E A

infixl 5 ◌>>=◌ ◌>>◌
-- `?`: the error is returned at once.
abbrev pub ◌>>=◌ {ξ ℓ κ} :
    {Failure : Type ξ} {Found : Type ℓ} {Out : Type κ}
    → Result Failure Found
    → (Found → Result Failure Out)
    → Result Failure Out
err failure >>= next = err failure
ok found >>= next = next found

abbrev pub ◌>>◌ {ξ κ} :
    {Failure : Type ξ} {Out : Type κ}
    → Result Failure (Unit {0})
    → Result Failure Out
    → Result Failure Out
check >> next = check >>= λ passed. next

-- `Option::ok_or`.
abbrev pub ok_or {ℓ κ} : {E : Type κ} {A : Type ℓ} → Option A → E → Result E A
ok_or none e = err e
ok_or (some a) e = ok a

-- `Result::map_err`.
abbrev pub map_err {ℓ κ ξ} :
    {E : Type κ} {F : Type ξ} {A : Type ℓ} → (E → F) → Result E A → Result F A
map_err f (ok a) = ok a
map_err f (err e) = err (f e)

pub Result-cases {ℓ κ} :
    {E : Type κ} {A : Type ℓ} (r : Result E A) → ((a : A) × (r ≡ ok a)) ⊎ ((e : E) × (r ≡ err e))
Result-cases (ok a) = inl (a, refl)
Result-cases (err e) = inr (e, refl)

-- What a `?` that did not return at once was given, and went on with.
pub >>=-eq-ok {ξ ℓ κ} :
    {Failure : Type ξ} {Found : Type ℓ} {Out : Type κ} (first : Result Failure Found)
    (next : Found → Result Failure Out) {out : Out}
    → (first >>= next) ≡ ok out
    → (found : Found) × (first ≡ ok found) × (next found ≡ ok out)
>>=-eq-ok (err failure) next returned = cc
>>=-eq-ok (ok found) next returned = (found, refl, returned)

pub map_err-eq-ok {ℓ κ ξ} :
    {E : Type κ} {F : Type ξ} {A : Type ℓ} (f : E → F) (r : Result E A) {a : A}
    → map_err f r ≡ ok a
    → r ≡ ok a
map_err-eq-ok f (ok a) h = cc
map_err-eq-ok f (err e) h = cc

pub ok-injective {ℓ κ} :
    {E : Type κ} {A : Type ℓ} {a b : A} → Path (Result E A) (ok a) (ok b) → a ≡ b
ok-injective h = cc
