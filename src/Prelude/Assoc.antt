-- ===== src/Prelude/Assoc.antt =====
-- Go's maps as association lists with one entry for each key. The order of the entries stands for
-- the order in which a `range` visits them, which Go leaves open.
use mathlib.Core.Path.{◌≡◌, refl}
use mathlib.Core.Bool.{false, ◌||◌}
use mathlib.Core.Option.{Option, none, some}
use mathlib.Core.List.{List, [], ◌∷◌}
use native.Mathlib.Omega.{arith}
use scm_metrics_exporter.Prelude.Tests.{if◌then◌else◌, Eq, ◌==◌}
use scm_metrics_exporter.Prelude.Lists.{contains, IsDistinct}

abbrev pub Map {ℓ κ} : Type ℓ → Type κ → Type (ℓ ⊔ κ)
Map K V = List (K × V)

abbrev pub or_else {ℓ} : {A : Type ℓ} → A → Option A → A
or_else d none = d
or_else d (some a) = a

module _ {ℓ κ} {K : Type ℓ} {V : Type κ} where
  abbrev pub keys : Map K V → List K
  keys [] = []
  keys ((k, _) ∷ m) = k ∷ keys m

module _ {ℓ κ} {K : Type ℓ} {V : Type κ} ⦃e : Eq K⦄ where
  -- `v, ok := m[k]`
  unfoldable pub lookup : K → Map K V → Option V
  lookup k [] = none
  lookup k ((i, w) ∷ rest) = if i == k then some w else lookup k rest

  -- `m[k] = f(m[k])`, from `d` where the key is missing
  unfoldable pub adjust : V → (V → V) → K → Map K V → Map K V
  adjust d f k [] = (k, f d) ∷ []
  adjust d f k ((j, v) ∷ m) = if j == k then (j, f v) ∷ m else (j, v) ∷ adjust d f k m

  -- `m[k] = v`
  abbrev pub insert : K → V → Map K V → Map K V
  insert k v = adjust v (λ _. v) k

  -- `m[k]`, the zero value where the key is missing
  abbrev pub get : V → K → Map K V → V
  get d k m = or_else d (lookup k m)

  pub lookup-adjust :
      (d : V) (f : V → V) (k j : K) (m : Map K V)
      → lookup j (adjust d f k m) ≡ (if k == j then some (f (get d k m)) else lookup j m)
  unfolding lookup adjust
  lookup-adjust d f k j [] = refl
  lookup-adjust d f k j ((i, v) ∷ m) =
      ground (arith, e.beq_iff k j, e.beq_iff i k, e.beq_iff i j, lookup-adjust d f k j m)

  pub get-adjust :
      (d : V) (f : V → V) (k j : K) (m : Map K V)
      → get d j (adjust d f k m) ≡ (if k == j then f (get d k m) else get d j m)
  get-adjust d f k j m = ground (arith, lookup-adjust d f k j m)

  pub contains-keys-adjust :
      (d : V) (f : V → V) (k j : K) (m : Map K V)
      → contains (keys (adjust d f k m)) j ≡ (k == j || contains (keys m) j)
  unfolding adjust
  contains-keys-adjust d f k j [] = refl
  contains-keys-adjust d f k j ((i, v) ∷ m) =
      ground (arith, e.beq_iff k j, e.beq_iff i k, e.beq_iff i j, contains-keys-adjust d f k j m)

  pub adjust-IsDistinct :
      (d : V) (f : V → V) (k : K) (m : Map K V)
      → IsDistinct (keys m)
      → IsDistinct (keys (adjust d f k m))
  unfolding adjust
  adjust-IsDistinct d f k [] h = (refl, tt)
  adjust-IsDistinct d f k ((i, v) ∷ m) h = ground (
    arith,
    e.beq_iff i k,
    e.beq_iff k i,
    contains-keys-adjust d f k i m,
    adjust-IsDistinct d f k m h.1,
  )

  pub lookup-none : (k : K) (m : Map K V) → contains (keys m) k ≡ false → lookup k m ≡ none
  unfolding lookup
  lookup-none k [] h = refl
  lookup-none k ((i, v) ∷ m) h = ground (arith, lookup-none k m)
