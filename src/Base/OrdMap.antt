-- ===== src/Base/OrdMap.antt =====
-- Ordered maps (`BTreeMap`): association lists in the order of their keys.
mod Order
pub use Order.*
use Prim.Native.Nat.{ℕ, suc, ◌+◌, ◌≤◌, ◌<◌}
use mathlib.Core.Path.{◌≡◌, refl}
use mathlib.Core.Bool.{Bool, true, false}
use mathlib.Core.List.{List, [], ◌∷◌}
use mathlib.Core.Option.{Option, none, some}
use native.Mathlib.Omega.{arith}
use koros.Base.Tests.{if◌then◌else◌}
use koros.Base.Lists.{length}

module _ {K V : Type 0} ⦃key : Key K⦄ where
  unfoldable pub get : K → List (K × V) → Option V
  get k [] = none
  get k ((j, v) ∷ m) = if key.eqb k j then some v else get k m

  unfoldable pub insert : K → V → List (K × V) → List (K × V)
  insert k v [] = (k, v) ∷ []
  insert k v ((j, w) ∷ m) =
      if key.eqb k j
      then (k, v) ∷ m
      else if key.ltb k j
      then (k, v) ∷ (j, w) ∷ m
      else (j, w) ∷ insert k v m

  unfoldable pub remove : K → List (K × V) → List (K × V)
  remove k [] = []
  remove k ((j, w) ∷ m) = let rest = remove k m in if key.eqb k j then rest else (j, w) ∷ rest

  pub get-insert :
      (k j : K) (v : V) (m : List (K × V))
      → get j (insert k v m) ≡ (if key.eqb k j then some v else get j m)
  unfolding get insert
  get-insert k j v [] = ground (arith, key.eqb_iff k j, key.eqb_iff j k)
  get-insert k j v ((i, w) ∷ m) = ground (
    arith,
    key.eqb_iff k j,
    key.eqb_iff j k,
    key.eqb_iff k i,
    key.eqb_iff j i,
    get-insert k j v m,
  )

  pub get-remove :
      (k j : K) (m : List (K × V)) → get j (remove k m) ≡ (if key.eqb k j then none else get j m)
  unfolding get remove
  get-remove k j [] = ground arith
  get-remove k j ((i, w) ∷ m) =
      ground (arith, key.eqb_iff k j, key.eqb_iff j i, key.eqb_iff k i, get-remove k j m)

  -- Every key of the map lies above `k`.
  abbrev pub IsAbove : K → List (K × V) → Type 0
  IsAbove k [] = Unit {0}
  IsAbove k ((j, w) ∷ m) = (key.ltb k j ≡ true) × IsAbove k m

  abbrev pub IsOrdered : List (K × V) → Type 0
  IsOrdered [] = Unit {0}
  IsOrdered ((j, w) ∷ m) = IsAbove j m × IsOrdered m

  pub IsAbove-weaken : (k j : K) (m : List (K × V)) → key.ltb k j ≡ true → IsAbove j m → IsAbove k m
  IsAbove-weaken k j [] h a = tt
  IsAbove-weaken k j ((i, w) ∷ m) h a = (key.ltb_trans k j i h a.0, IsAbove-weaken k j m h a.1)

  pub get_above : (k : K) (m : List (K × V)) → IsAbove k m → get k m ≡ none
  unfolding get
  get_above k [] a = refl
  get_above k ((j, w) ∷ m) a = ground (arith, key.ltb_ne k j, get_above k m)

  IsAbove-insert :
      (i k : K) (v : V) (m : List (K × V))
      → key.ltb i k ≡ true
      → IsAbove i m
      → IsAbove i (insert k v m)
  unfolding insert
  IsAbove-insert i k v [] h a = (h, tt)
  IsAbove-insert i k v ((j, w) ∷ m) h a = ground (arith, IsAbove-insert i k v m h a.1)

  pub IsOrdered-insert : (k : K) (v : V) (m : List (K × V)) → IsOrdered m → IsOrdered (insert k v m)
  unfolding insert
  IsOrdered-insert k v [] o = (tt, tt)
  IsOrdered-insert k v ((j, w) ∷ m) o = ground (
    arith,
    key.eqb_iff k j,
    key.ltb_total k j,
    IsAbove-weaken k j m,
    IsOrdered-insert k v m o.1,
    IsAbove-insert j k v m,
  )

  IsAbove-remove : (i k : K) (m : List (K × V)) → IsAbove i m → IsAbove i (remove k m)
  unfolding remove
  IsAbove-remove i k [] a = tt
  IsAbove-remove i k ((j, w) ∷ m) a = ground (arith, IsAbove-remove i k m a.1)

  pub IsOrdered-remove : (k : K) (m : List (K × V)) → IsOrdered m → IsOrdered (remove k m)
  unfolding remove
  IsOrdered-remove k [] o = tt
  IsOrdered-remove k ((j, w) ∷ m) o =
      ground (arith, IsAbove-remove j k m o.0, IsOrdered-remove k m o.1)

  pub remove_absent : (k : K) (m : List (K × V)) → get k m ≡ none → remove k m ≡ m
  unfolding get remove
  remove_absent k [] h = refl
  remove_absent k ((j, w) ∷ m) h = ground (arith, remove_absent k m)

  -- A key that is inserted and removed again.
  pub remove-insert :
      (k : K) (v : V) (m : List (K × V)) → get k m ≡ none → remove k (insert k v m) ≡ m
  unfolding get insert remove
  remove-insert k v [] h = ground (arith, key.eqb_iff k k)
  remove-insert k v ((j, w) ∷ m) h =
      ground (arith, key.eqb_iff k k, remove-insert k v m, remove_absent k m)
