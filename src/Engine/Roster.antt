-- ===== src/Engine/Roster.antt =====
-- internal/engine/plan.go: who the people named by one plan are (`roster`).
pub mod Memory
use tokayops.Prelude.{if◌then◌else◌, Option, none, some, List, [], ◌∷◌, Bytes, Result, ok, err}
use tokayops.Engine.Types.{User, Table, put, StoreError, Services, Reading}

abbrev pub to_ask : Option (Option User) → Bytes → List Bytes → List Bytes
to_ask (some answer) id rest = rest
to_ask none id rest = id ∷ rest

-- The ids that no question was asked about yet.
abbrev pub unasked : Table (Option User) → List Bytes → List Bytes
unasked known [] = []
unasked known (id ∷ ids) = to_ask (known id) id (unasked known ids)

abbrev pub remember_absent : Table (Option User) → List Bytes → Table (Option User)
remember_absent known [] = known
remember_absent known (id ∷ ids) = remember_absent (put id none known) ids

abbrev pub remember_found : Table (Option User) → List User → Table (Option User)
remember_found known [] = known
remember_found known (u ∷ us) = remember_found (put u.id (some u) known) us

abbrev pub with_person : Option (Option User) → List User → List User
with_person (some (some u)) rest = u ∷ rest
with_person (some none) rest = rest
with_person none rest = rest

-- The people found, in the order of the ids.
abbrev pub present : Table (Option User) → List Bytes → List User
present known [] = []
present known (id ∷ ids) = with_person (known id) (present known ids)

module _ {World : Type 0} (services : Services World) where
  -- What the store answered about the ids asked for is remembered, an absence too.
  abbrev pub fetched :
      Reading World
      → List Bytes
      → World × Result StoreError (List User)
      → Reading World × Result StoreError (Unit {0})
  fetched s ask (w, err e) = (record s { world = w }, err e)
  fetched s ask (w, ok found) =
      (record s { world = w; known = remember_found (remember_absent s.known ask) found }, ok tt)

  abbrev pub learn : Reading World → List Bytes → Reading World × Result StoreError (Unit {0})
  learn s [] = (s, ok tt)
  learn s (id ∷ ids) = fetched s (id ∷ ids) (services.get_users s.world (id ∷ ids))

  abbrev pub resolved :
      List Bytes
      → Reading World × Result StoreError (Unit {0})
      → Reading World × Result StoreError (List User)
  resolved ids (s, err e) = (s, err e)
  resolved ids (s, ok _) = (s, ok (present s.known ids))

  -- `roster.people`
  unfoldable pub people : List Bytes → Reading World → Reading World × Result StoreError (List User)
  people ids s = resolved ids (learn s (unasked s.known ids))
