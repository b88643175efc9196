-- ===== src/AlertGroup/Merge/Latest.antt =====
-- The latest state of each fingerprint wins, whatever the order of the map.
use tokayops.Prelude.{
  String, ℕ, ◌≤◌, true, false, ◌≡◌, Option, none, some, List, [], ◌∷◌, refl, arith, str_eq, eq_iff,
  if◌then◌else◌, inl, inr, Bool-cases,
}
use tokayops.AlertGroup.Alert.{Alert}
use tokayops.AlertGroup.Merge.{
  put_alert, put_alerts, before, insert_alert, sort_alerts, merge_alerts,
}

-- The alert with this fingerprint.
unfoldable pub find : String → List Alert → Option Alert
find f [] = none
find f (a ∷ alerts) = if str_eq a.fingerprint f then some a else find f alerts

abbrev pub or_else {ℓ} : {A : Type ℓ} → Option A → Option A → Option A
or_else none b = b
or_else (some a) b = some a

-- The last alert with this fingerprint.
unfoldable pub latest : String → List Alert → Option Alert
latest f [] = none
latest f (a ∷ alerts) = or_else (latest f alerts) (if str_eq a.fingerprint f then some a else none)

-- Every fingerprint once.
abbrev pub Distinct : List Alert → Type 0
Distinct [] = Unit
Distinct (a ∷ alerts) = (find a.fingerprint alerts ≡ none) × Distinct alerts

find-put_alert :
    (f : String) (a : Alert) (m : List Alert)
    → find f (put_alert a m) ≡ (if str_eq a.fingerprint f then some a else find f m)
unfolding find put_alert
find-put_alert f a [] = refl
find-put_alert f a (b ∷ m) = ground (
  arith,
  eq_iff a.fingerprint f,
  eq_iff b.fingerprint f,
  eq_iff b.fingerprint a.fingerprint,
  find-put_alert f a m,
)

put_alert-Distinct : (a : Alert) (m : List Alert) → Distinct m → Distinct (put_alert a m)
unfolding find put_alert
put_alert-Distinct a [] d = (refl, tt)
put_alert-Distinct a (b ∷ m) d = ground (
  arith,
  eq_iff b.fingerprint a.fingerprint,
  eq_iff a.fingerprint b.fingerprint,
  find-put_alert b.fingerprint a m,
  put_alert-Distinct a m d.1,
)

find-put_alerts :
    (f : String) (m alerts : List Alert)
    → find f (put_alerts m alerts) ≡ or_else (latest f alerts) (find f m)
unfolding latest put_alerts
find-put_alerts f m [] = refl
find-put_alerts f m (a ∷ alerts) =
    ground (arith, find-put_alert f a m, find-put_alerts f (put_alert a m) alerts)

put_alerts-Distinct : (m alerts : List Alert) → Distinct m → Distinct (put_alerts m alerts)
unfolding put_alerts
put_alerts-Distinct m [] d = d
put_alerts-Distinct m (a ∷ alerts) d =
    put_alerts-Distinct (put_alert a m) alerts (put_alert-Distinct a m d)

find-insert_alert :
    (f : String) (a : Alert) (m : List Alert)
    → find a.fingerprint m ≡ none
    → find f (insert_alert a m) ≡ (if str_eq a.fingerprint f then some a else find f m)
unfolding find insert_alert
find-insert_alert f a [] n = refl
find-insert_alert f a (b ∷ m) n = ground (
  arith,
  eq_iff a.fingerprint f,
  eq_iff b.fingerprint f,
  eq_iff b.fingerprint a.fingerprint,
  find-insert_alert f a m,
)

insert_alert-Distinct :
    (a : Alert) (m : List Alert)
    → find a.fingerprint m ≡ none
    → Distinct m
    → Distinct (insert_alert a m)
unfolding find insert_alert
insert_alert-Distinct a [] n d = (refl, tt)
insert_alert-Distinct a (b ∷ m) n d = ground (
  arith,
  eq_iff b.fingerprint a.fingerprint,
  eq_iff a.fingerprint b.fingerprint,
  find-insert_alert b.fingerprint a m,
  insert_alert-Distinct a m,
)

-- What sorting keeps.
record Sorts (alerts sorted : List Alert) : Type 0 where
  finds : (f : String) → find f sorted ≡ find f alerts
  distinct : Distinct sorted

sort_alerts-Sorts : (alerts : List Alert) → Distinct alerts → Sorts alerts (sort_alerts alerts)
unfolding sort_alerts find
sort_alerts-Sorts [] d = record { finds = λ f. refl; distinct = tt }
sort_alerts-Sorts (a ∷ alerts) d =
    let s : Sorts alerts (sort_alerts alerts) = sort_alerts-Sorts alerts d.1 in
    let fresh : find a.fingerprint (sort_alerts alerts) ≡ none = rw (s.finds a.fingerprint) d.0 in
    record {
      finds = λ f. ground (arith, find-insert_alert f a (sort_alerts alerts) fresh, s.finds f);
      distinct = insert_alert-Distinct a (sort_alerts alerts) fresh s.distinct;
    }

-- After a merge the incident holds, under each fingerprint, the last alert that the payload has of
-- it, and else the last that it held.
pub find-merge_alerts :
    (f : String) (existing incoming : List Alert)
    → find f (merge_alerts existing incoming) ≡ or_else (latest f incoming) (latest f existing)
unfolding merge_alerts find
find-merge_alerts f existing incoming =
    let m = put_alerts [] existing in
    let d : Distinct m = put_alerts-Distinct [] existing tt in
    let s : Sorts (put_alerts m incoming) (sort_alerts (put_alerts m incoming)) =
      sort_alerts-Sorts (put_alerts m incoming) (put_alerts-Distinct m incoming d) in
    ground (arith, s.finds f, find-put_alerts f m incoming, find-put_alerts f [] existing)

abbrev StartsFrom : ℕ → List Alert → Type 0
StartsFrom t [] = Unit
StartsFrom t (a ∷ alerts) = t ≤ a.starts_at

-- In the order in which the alerts started.
abbrev pub IsOrdered : List Alert → Type 0
IsOrdered [] = Unit
IsOrdered (a ∷ alerts) = StartsFrom a.starts_at alerts × IsOrdered alerts

insert_alert-StartsFrom :
    (t : ℕ) (a : Alert) (m : List Alert)
    → t ≤ a.starts_at
    → StartsFrom t m
    → StartsFrom t (insert_alert a m)
unfolding insert_alert
insert_alert-StartsFrom t a [] h s = h
insert_alert-StartsFrom t a (b ∷ m) h s = ground arith

before_le : (a b : Alert) → before a b ≡ true → a.starts_at ≤ b.starts_at
unfolding before
before_le a b h = ground arith

not_before_le : (a b : Alert) → before a b ≡ false → b.starts_at ≤ a.starts_at
unfolding before
not_before_le a b h = ground arith

insert_alert_lem :
    (a b : Alert) (m : List Alert)
    → insert_alert a (b ∷ m) ≡ (if before b a then b ∷ insert_alert a m else a ∷ b ∷ m)
unfolding insert_alert
insert_alert_lem a b m = refl

insert_alert-IsOrdered : (a : Alert) (m : List Alert) → IsOrdered m → IsOrdered (insert_alert a m)
insert_alert-IsOrdered a [] o = unfold insert_alert in (tt, tt)
insert_alert-IsOrdered a (b ∷ m) o = elim (Bool-cases (before b a)) [
  | inl e ↦
      rw (insert_alert_lem, e)
        (
          insert_alert-StartsFrom b.starts_at a m (before_le b a e) o.0,
          insert_alert-IsOrdered a m o.1,
        )
  | inr e ↦ rw (insert_alert_lem, e) (not_before_le b a e, o)
]

sort_alerts-IsOrdered : (alerts : List Alert) → IsOrdered (sort_alerts alerts)
unfolding sort_alerts
sort_alerts-IsOrdered [] = tt
sort_alerts-IsOrdered (a ∷ alerts) =
    insert_alert-IsOrdered a (sort_alerts alerts) (sort_alerts-IsOrdered alerts)

-- A merged incident lists its alerts in the order in which they started, each fingerprint once.
pub merge_alerts-IsOrdered :
    (existing incoming : List Alert)
    → IsOrdered (merge_alerts existing incoming) × Distinct (merge_alerts existing incoming)
unfolding merge_alerts
merge_alerts-IsOrdered existing incoming =
    let m = put_alerts [] existing in
    let s : Sorts (put_alerts m incoming) (sort_alerts (put_alerts m incoming)) =
      sort_alerts-Sorts (put_alerts m incoming)
        (put_alerts-Distinct m incoming (put_alerts-Distinct [] existing tt)) in
    (sort_alerts-IsOrdered (put_alerts m incoming), s.distinct)
