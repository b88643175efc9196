-- ===== src/AlertGroup/Merge.antt =====
-- Merging what Alertmanager sends into the incident that is open (internal/alertgroup/merge.go).
--
-- The map that `MergeAlerts` builds is keyed by the alert's own fingerprint, so it is the list of
-- its values. Go iterates over it in any order; the sort decides the order of the result.
pub mod Latest
pub mod Incident
use Prim.Native.Nat.{Ordering}
use Prim.Native.String.{compare}
use tokayops.Prelude.{
  String, ℕ, suc, ◌-◌, ◌+◌, Bool, true, false, not, ◌&&◌, ◌||◌, Option, none, some, List, [], ◌∷◌,
  ltb, ◌==◌, str_eq, if◌then◌else◌, insert, lookup,
}
use tokayops.AlertGroup.Alert.{Alert, AlertStatus, AlertState, is_firing, state}

pub record Notification : Type 0 where
  pub alerts : List Alert
  pub snapshot : Bool
  pub integration_id : String
  pub stale_after_seconds : ℕ

-- The loop of `FingerprintsOf`.
unfoldable pub index : List (String × AlertStatus) → List Alert → List (String × AlertStatus)
index out [] = out
index out (a ∷ alerts) = index (insert a.fingerprint a.status out) alerts

unfoldable pub fingerprints_of : List Alert → List (String × AlertStatus)
unfolding index
fingerprints_of alerts = index [] alerts

abbrev pub is_known : Option AlertStatus → Bool
is_known none = false
is_known (some s) = true

unfoldable pub filter_mergeable : List Alert → List (String × AlertStatus) → List Alert
filter_mergeable [] existing = []
filter_mergeable (a ∷ incoming) existing =
    let rest = filter_mergeable incoming existing in
    if not (is_known (lookup a.fingerprint existing)) && not (is_firing a.status)
    then rest
    else a ∷ rest

-- `state[a.Fingerprint] = a`
unfoldable pub put_alert : Alert → List Alert → List Alert
put_alert a [] = a ∷ []
put_alert a (b ∷ bs) =
    let rest = put_alert a bs in if str_eq b.fingerprint a.fingerprint then a ∷ bs else b ∷ rest

unfoldable pub put_alerts : List Alert → List Alert → List Alert
unfolding put_alert
put_alerts m [] = m
put_alerts m (a ∷ alerts) = put_alerts (put_alert a m) alerts

abbrev is_lt : Ordering → Bool
is_lt Ordering.lt = true
is_lt _ = false

-- The order of the sort: by start, then by fingerprint.
unfoldable pub before : Alert → Alert → Bool
before a b =
    if not (a.starts_at == b.starts_at)
    then ltb a.starts_at b.starts_at
    else is_lt (compare a.fingerprint b.fingerprint)

unfoldable pub insert_alert : Alert → List Alert → List Alert
unfolding before
insert_alert a [] = a ∷ []
insert_alert a (b ∷ bs) =
    let rest = insert_alert a bs in if before b a then b ∷ rest else a ∷ b ∷ bs

unfoldable pub sort_alerts : List Alert → List Alert
unfolding insert_alert
sort_alerts [] = []
sort_alerts (a ∷ alerts) = insert_alert a (sort_alerts alerts)

unfoldable pub merge_alerts : List Alert → List Alert → List Alert
unfolding put_alerts sort_alerts
merge_alerts existing incoming = sort_alerts (put_alerts (put_alerts [] existing) incoming)

-- The loop of `ReportedIn`; the map only says true.
unfoldable pub report : List (String × Bool) → List Alert → List (String × Bool)
report reported [] = reported
report reported (a ∷ payload) = report (insert a.fingerprint true reported) payload

unfoldable pub reported_in : List Alert → List (String × Bool)
unfolding report
reported_in payload = report [] payload

-- Reading a map of Booleans: a missing key reads as false.
abbrev pub or_false : Option Bool → Bool
or_false none = false
or_false (some b) = b

abbrev pub is_set : Option ℕ → Bool
is_set none = false
is_set (some t) = true

-- The alert that the loop of `MarkStale` does not pass over.
unfoldable pub falls_silent : Alert → List (String × Bool) → Bool
falls_silent a reported =
    is_firing a.status
    && not (or_false (lookup a.fingerprint reported))
    && not (is_set a.stale_since)

unfoldable pub mark_stale : List Alert → List (String × Bool) → ℕ → List Alert × ℕ
unfolding falls_silent
mark_stale [] reported at = ([], 0)
mark_stale (a ∷ alerts) reported at =
    let (out, marked) = mark_stale alerts reported at in
    if falls_silent a reported
    then (record a { stale_since = some at } ∷ out, suc marked)
    else (a ∷ out, marked)

-- How long an alert was missing, and what it came back as.
pub record Reported : Type 0 where
  pub status : AlertStatus
  pub silent : ℕ

unfoldable pub silences : List (String × ℕ) → List Alert → List (String × ℕ)
silences silent [] = silent
silences silent (a ∷ held) =
    silences (elim a.stale_since [ none ↦ silent | some t ↦ insert a.fingerprint t silent ]) held

-- A negative silence is none, which the subtraction on ℕ gives.
unfoldable pub back_from : List (String × ℕ) → List Alert → ℕ → List Reported
back_from silent [] at = []
back_from silent (a ∷ payload) at =
    let rest = back_from silent payload at in
    elim (lookup a.fingerprint silent) [
      | none ↦ rest
      | some since ↦ record { status = a.status; silent = at - since } ∷ rest
    ]

unfoldable pub reported_again : List Alert → List Alert → ℕ → List Reported
unfolding silences back_from
reported_again held payload at = back_from (silences [] held) payload at

-- The loop of `HeldOnlyByStale`, with the flag so far.
unfoldable pub only_stale : Bool → List Alert → Bool
unfolding state
only_stale stale [] = stale
only_stale stale (a ∷ alerts) = elim (state a) [
  | AlertState.firing ↦ false
  | AlertState.stale ↦ only_stale true alerts
  | AlertState.resolved ↦ only_stale stale alerts
]

unfoldable pub held_only_by_stale : List Alert → Bool
unfolding only_stale
held_only_by_stale alerts = only_stale false alerts

unfoldable pub all_resolved : List Alert → Bool
all_resolved [] = true
all_resolved (a ∷ alerts) = if is_firing a.status then false else all_resolved alerts

pub record Applied : Type 0 where
  pub alerts : List Alert
  pub relevant : List Alert
  pub resolving : Bool
  pub marked : ℕ
  pub back : List Reported
  pub held_only_by_stale : Bool

-- What `Apply` holds after the marks.
unfoldable pub mark_snapshot : List Alert → Notification → ℕ → List Alert × ℕ
unfolding mark_stale reported_in
mark_snapshot alerts n at =
    if n.snapshot then mark_stale alerts (reported_in n.alerts) at else (alerts, 0)

unfoldable pub apply : List Alert → Notification → ℕ → Applied
unfolding filter_mergeable fingerprints_of merge_alerts mark_snapshot reported_again
    held_only_by_stale all_resolved
apply held n at =
    let relevant = filter_mergeable n.alerts (fingerprints_of held) in
    let (alerts, marked) = mark_snapshot (merge_alerts held relevant) n at in
    record {
      alerts = alerts;
      relevant = relevant;
      resolving = all_resolved alerts;
      marked = marked;
      back = reported_again held n.alerts at;
      held_only_by_stale = not (held_only_by_stale held) && held_only_by_stale alerts;
    }
