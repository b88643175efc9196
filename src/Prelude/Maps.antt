-- ===== src/Prelude/Maps.antt =====
-- A Go map with text keys: pairs with different keys, in the order of their first insertion.
use Prim.Native.String.{String}
use mathlib.Core.Path.{◌≡◌, refl}
use mathlib.Core.Option.{Option, none, some}
use mathlib.Core.List.{List, [], ◌∷◌}
use native.Mathlib.Omega.{arith}
use text.Mathlib.Text.{◌==◌}
use text.Mathlib.TextEquality.{eq_iff}
use tokayops.Prelude.Tests.{if◌then◌else◌}

-- `value, known := m[key]`
unfoldable pub lookup {ℓ} : {Value : Type ℓ} → String → List (String × Value) → Option Value
lookup key [] = none
lookup key (pair ∷ rest) = if pair.0 == key then some pair.1 else lookup key rest

-- `m[key] = value`
unfoldable pub insert {ℓ} :
    {Value : Type ℓ} → String → Value → List (String × Value) → List (String × Value)
insert key value [] = (key, value) ∷ []
insert key value (pair ∷ rest) =
    let behind = insert key value rest in
    if pair.0 == key then (key, value) ∷ rest else pair ∷ behind

-- A read after a write sees what was written at its key, and at any other key what stood there.
pub lookup-insert {ℓ} :
    {Value : Type ℓ} (entries : List (String × Value)) (written read : String) (value : Value)
    → lookup read (insert written value entries)
      ≡ (if written == read then some value else lookup read entries)
unfolding lookup insert
lookup-insert [] written read value = refl
lookup-insert (pair ∷ rest) written read value =
    let behind = lookup-insert rest written read value in
    ground (arith, behind, eq_iff pair.0 written, eq_iff pair.0 read, eq_iff written read)
