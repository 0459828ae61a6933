-- ===== src/Prelude/Errors.antt =====
-- Go's error values, as far as the program tells them apart, and functions that may fail.
use Prim.Native.Nat.{ℕ}
use Prim.Native.String.{String}
use mathlib.Core.Bool.{Bool, true, false, ◌||◌}
use mathlib.Core.Path.{◌≡◌, refl}
use mathlib.Core.Logic.{◌⊎◌, inl, inr}
use mathlib.Core.Option.{Option, none, some}
use mathlib.Core.List.{List, [], ◌∷◌}

-- `canceled` is context.Canceled; `rate_limit`, `abuse_rate_limit` and `response` (with its status
-- code) are the errors of go-github; `wrap` is a `%w` in fmt.Errorf; `joined` is errors.Join.
mutual
  pub data Error : Type 0 where
    canceled : Error
    message : String → Error
    rate_limit : Error
    abuse_rate_limit : Error
    response : ℕ → Error
    wrap : String → Error → Error
    joined : Errors → Error

  pub data Errors : Type 0 where
    nil : Errors
    cons : Error → Errors → Errors

-- `errors.Is` and `errors.As` go through wrapped and joined errors.
unfoldable mutual
  pub has : (Error → Bool) → Error → Bool
  has p (wrap s e) = p (wrap s e) || has p e
  has p (joined es) = p (joined es) || has_any p es
  has p canceled = p canceled
  has p (message s) = p (message s)
  has p rate_limit = p rate_limit
  has p abuse_rate_limit = p abuse_rate_limit
  has p (response n) = p (response n)

  pub has_any : (Error → Bool) → Errors → Bool
  has_any p nil = false
  has_any p (cons e es) = has p e || has_any p es

abbrev pub to_errors : List Error → Errors
to_errors [] = nil
to_errors (e ∷ es) = cons e (to_errors es)

-- `errors.Join`: no error for an empty list.
abbrev pub join_errors : List Error → Option Error
join_errors [] = none
join_errors (e ∷ es) = some (joined (to_errors (e ∷ es)))

-- The test of `errors.Is(err, context.Canceled)` at one error.
abbrev pub is_canceled_here : Error → Bool
is_canceled_here canceled = true
is_canceled_here _ = false

unfoldable pub is_canceled : Error → Bool
unfolding has
is_canceled e = has is_canceled_here e

pub data Result {ℓ} (A : Type ℓ) : Type ℓ where
  ok : A → Result A
  err : Error → Result A

infixl 5 ◌>>=◌
abbrev pub ◌>>=◌ {ℓ κ} : {A : Type ℓ} {B : Type κ} → Result A → (A → Result B) → Result B
ok a >>= f = f a
err e >>= f = err e

-- Whether a call failed.
abbrev pub failed {ℓ} : {A : Type ℓ} → Result A → Bool
failed (ok _) = false
failed (err _) = true

abbrev pub is_some {ℓ} : {A : Type ℓ} → Option A → Bool
is_some none = false
is_some (some _) = true

-- A predicate of the result, if there is one.
abbrev pub Gives {ℓ κ} : {A : Type ℓ} → (A → Type κ) → Result A → Type κ
Gives P (ok a) = P a
Gives P (err e) = Unit

pub Gives-map {ℓ κ} :
    {A : Type ℓ} (P Q : A → Type κ) → ((a : A) → P a → Q a) → (r : Result A) → Gives P r → Gives Q r
Gives-map P Q f (ok a) h = f a h
Gives-map P Q f (err e) h = tt

pub Result-cases {ℓ} :
    {A : Type ℓ} (r : Result A) → ((a : A) × (r ≡ ok a)) ⊎ ((e : Error) × (r ≡ err e))
Result-cases (ok a) = inl (a, refl)
Result-cases (err e) = inr (e, refl)

-- A result that a test for failure replaces.
pub guarded :
    {A : Type 0} (P : A → Type 0) (o : Option Error) (a : A)
    → P a
    → (failed (elim o [ some e ↦ err e | none ↦ ok a ]) ≡ is_some o)
      × Gives P (elim o [ some e ↦ err e | none ↦ ok a ])
guarded P none a h = (refl, h)
guarded P (some e) a h = (refl, tt)

-- Equal results hold equal values.
pub ok_inj {ℓ} : {A : Type ℓ} {a b : A} → ok a ≡ ok b → a ≡ b
ok_inj e = cc
