-- ===== src/Base/Maps.antt =====
-- Go maps as association lists without order: a write replaces the entry or adds one at the end.
use mathlib.Core.Path.{◌≡◌, refl}
use mathlib.Core.Bool.{false}
use mathlib.Core.Logic.{inl, inr}
use mathlib.Core.List.{List, [], ◌∷◌, map}
use mathlib.Core.Option.{Option, none, some}
use native.Mathlib.Omega.{arith}
use yolo_ave_mujica.Base.Tests.{if◌then◌else◌, Bool-cases}
use yolo_ave_mujica.Base.Keys.{Key, ◌==◌}

abbrev pub Map : Type 0 → Type 0 → Type 0
Map K V = List (K × V)

module _ {K V : Type 0} ⦃key : Key K⦄ where
  unfoldable pub insert : K → V → Map K V → Map K V
  insert at new [] = (at, new) ∷ []
  insert at new ((k, old) ∷ rest) =
      if k == at then (at, new) ∷ rest else (k, old) ∷ insert at new rest

  unfoldable pub lookup : K → Map K V → Option V
  lookup at ((k, found) ∷ rest) = if k == at then some found else lookup at rest
  lookup at [] = none

  -- A read after a write.
  pub lookup-insert :
      (read write : K) (new : V) (entries : Map K V)
      → lookup read (insert write new entries)
        ≡ (if write == read then some new else lookup read entries)
  unfolding insert lookup
  lookup-insert read write new ((k, old) ∷ rest) =
      let later = lookup-insert read write new rest in
      ground (arith, key.same_iff write read, key.same_iff k read, key.same_iff k write, later)
  lookup-insert read write new [] = refl

  pub lookup-insert_self :
      (at : K) (new : V) (entries : Map K V) → lookup at (insert at new entries) ≡ some new
  lookup-insert_self at new entries =
      ground (arith, key.same_iff at at, lookup-insert at at new entries)

  -- No key has two entries.
  abbrev pub Distinct : Map K V → Type 0
  Distinct [] = Unit {0}
  Distinct ((k, v) ∷ rest) = (lookup k rest ≡ none) × Distinct rest

  pub insert-Distinct :
      (at : K) (new : V) (entries : Map K V) → Distinct entries → Distinct (insert at new entries)
  unfolding insert lookup
  insert-Distinct at new [] d = (refl, tt)
  insert-Distinct at new ((k, old) ∷ rest) (fresh, d) = elim (Bool-cases (k == at)) [
    | inl same ↦ let e : k ≡ at = (key.same_iff k at).0 same in rw same (rw e at fresh, d)
    | inr differs ↦
        let e : (at == k) ≡ false = ground (arith, key.same_iff at k, key.same_iff k at) in
        rw differs (rw (lookup-insert k at new rest, e) fresh, insert-Distinct at new rest d)
  ]

-- The values in the order of the list, which stands for the order in which Go happens to range.
module _ {K V : Type 0} where
  abbrev pub keys : Map K V → List K
  keys = map (λ e. e.0)

  abbrev pub values : Map K V → List V
  values = map (λ e. e.1)
