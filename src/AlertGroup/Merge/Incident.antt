-- ===== src/AlertGroup/Merge/Incident.antt =====
-- What a notification does to an incident (`Apply`).
use tokayops.Prelude.{
  String, ℕ, Bool, true, false, not, ◌&&◌, ◌||◌, ◌≡◌, Option, none, some, List, [], ◌∷◌, refl, ap,
  sym, ◌∙◌, arith, str_eq, eq_iff, if◌then◌else◌, lookup, insert, lookup-insert, any, all,
}
use tokayops.AlertGroup.Alert.{Alert, AlertStatus, is_firing}
use tokayops.AlertGroup.Merge.{
  Notification, index, fingerprints_of, is_known, filter_mergeable, merge_alerts, is_set,
  mark_stale, mark_snapshot, reported_in, only_stale, held_only_by_stale, all_resolved, apply,
}
use tokayops.AlertGroup.Merge.Latest.{
  Distinct, find, latest, or_else, find-merge_alerts, merge_alerts-IsOrdered,
}

abbrev pub status_of : Option Alert → Option AlertStatus
status_of none = none
status_of (some a) = some a.status

abbrev or_status : Option AlertStatus → Option AlertStatus → Option AlertStatus
or_status none b = b
or_status (some a) b = some a

lookup-index :
    (f : String) (out : List (String × AlertStatus)) (alerts : List Alert)
    → lookup f (index out alerts) ≡ or_status (status_of (latest f alerts)) (lookup f out)
unfolding index latest
lookup-index f out [] = refl
lookup-index f out (a ∷ alerts) = ground (
  arith,
  lookup-insert out a.fingerprint f a.status,
  lookup-index f (insert a.fingerprint a.status out) alerts,
)

lookup-fingerprints_of :
    (f : String) (alerts : List Alert)
    → lookup f (fingerprints_of alerts) ≡ status_of (latest f alerts)
unfolding fingerprints_of lookup
lookup-fingerprints_of f alerts = ground (arith, lookup-index f [] alerts)

abbrev pub next_of : Option Alert → Option Alert → Bool → Option AlertStatus
next_of (some a) reported joins = status_of (or_else reported (some a))
next_of none reported joins = if joins then some AlertStatus.firing else none

abbrev fires : Option Alert → Bool
fires none = false
fires (some a) = is_firing a.status

-- The payload reports this fingerprint as firing.
abbrev pub fires_in : String → List Alert → Bool
fires_in f = any (λ a. str_eq a.fingerprint f && is_firing a.status)

-- Of a fingerprint that the incident does not know, only a firing alert passes the filter.
latest-filter_mergeable :
    (f : String) (incoming : List Alert) (existing : List (String × AlertStatus))
    → lookup f existing ≡ none
    → status_of (latest f (filter_mergeable incoming existing))
      ≡ (if fires_in f incoming then some AlertStatus.firing else none)
unfolding latest filter_mergeable
latest-filter_mergeable f [] existing n = refl
latest-filter_mergeable f (a ∷ incoming) existing n =
    ground (arith, eq_iff a.fingerprint f, latest-filter_mergeable f incoming existing n)

-- Of one that it knows, everything passes.
latest-filter_mergeable_known :
    (f : String) (incoming : List Alert) (existing : List (String × AlertStatus))
    → is_known (lookup f existing) ≡ true
    → latest f (filter_mergeable incoming existing) ≡ latest f incoming
unfolding latest filter_mergeable
latest-filter_mergeable_known f [] existing k = refl
latest-filter_mergeable_known f (a ∷ incoming) existing k =
    ground (arith, eq_iff a.fingerprint f, latest-filter_mergeable_known f incoming existing k)

-- Marking changes nothing of an alert but its mark.
find-mark_stale :
    (f : String) (alerts : List Alert) (reported : List (String × Bool)) (at : ℕ)
    → status_of (find f (mark_stale alerts reported at).0) ≡ status_of (find f alerts)
unfolding find mark_stale
find-mark_stale f [] reported at = refl
find-mark_stale f (a ∷ alerts) reported at = ground (arith, find-mark_stale f alerts reported at)

find-mark_snapshot :
    (f : String) (alerts : List Alert) (n : Notification) (at : ℕ)
    → status_of (find f (mark_snapshot alerts n at).0) ≡ status_of (find f alerts)
unfolding mark_snapshot
find-mark_snapshot f alerts n at =
    ground (arith, find-mark_stale f alerts (reported_in n.alerts) at)

-- The status under a fingerprint after a notification.
status-apply :
    (f : String) (held : List Alert) (n : Notification) (at : ℕ)
    → status_of (find f (apply held n at).alerts)
      ≡ status_of (or_else (latest f (apply held n at).relevant) (latest f held))
unfolding apply
status-apply f held n at =
    let relevant = filter_mergeable n.alerts (fingerprints_of held) in
    find-mark_snapshot f (merge_alerts held relevant) n at
    ∙ ap status_of (find-merge_alerts f held relevant)

all_resolved-fires :
    (f : String) (alerts : List Alert) → fires (find f alerts) ≡ true → all_resolved alerts ≡ false
unfolding find all_resolved
all_resolved-fires f [] h = cc
all_resolved-fires f (a ∷ alerts) h = ground (arith, all_resolved-fires f alerts)

-- What is under a fingerprint of a list with something firing.
firing_in : List Alert → String
firing_in [] = ""
firing_in (a ∷ alerts) = if is_firing a.status then a.fingerprint else firing_in alerts

find-firing_in :
    (alerts : List Alert)
    → all_resolved alerts ≡ false
    → Distinct alerts
    → fires (find (firing_in alerts) alerts) ≡ true
unfolding find all_resolved firing_in
find-firing_in [] h d = cc
find-firing_in (a ∷ alerts) h d = ground (
  arith,
  eq_iff a.fingerprint a.fingerprint,
  eq_iff a.fingerprint (firing_in alerts),
  find-firing_in alerts,
)

-- The status that the incident has under a fingerprint after a notification: the payload's last word
-- on an alert that the incident holds, and of any other alert only that it fires.
abbrev pub next_status : List Alert → Notification → String → Option AlertStatus
next_status held n f = next_of (latest f held) (latest f n.alerts) (fires_in f n.alerts)

merged-next_status :
    (f : String) (held : List Alert) (n : Notification) (o : Option Alert)
    → latest f held ≡ o
    → status_of (or_else (latest f (filter_mergeable n.alerts (fingerprints_of held))) o)
      ≡ next_of o (latest f n.alerts) (fires_in f n.alerts)
merged-next_status f held n none e = ground (
  arith,
  lookup-fingerprints_of f held,
  latest-filter_mergeable f n.alerts (fingerprints_of held),
)
merged-next_status f held n (some a) e = ground (
  arith,
  lookup-fingerprints_of f held,
  latest-filter_mergeable_known f n.alerts (fingerprints_of held),
)

-- After a notification the incident has, under every fingerprint, the status that the specification
-- says: the payload's last word on an alert that it held; of another alert only that it fires, if
-- the payload reports it firing; and silence, marked or not, changes no status.
pub apply-next_status :
    (f : String) (held : List Alert) (n : Notification) (at : ℕ)
    → status_of (find f (apply held n at).alerts) ≡ next_status held n f
unfolding apply
apply-next_status f held n at =
    let relevant = filter_mergeable n.alerts (fingerprints_of held) in
    find-mark_snapshot f (merge_alerts held relevant) n at
    ∙ ap status_of (find-merge_alerts f held relevant)
    ∙ merged-next_status f held n (latest f held) refl

fires-status : (o : Option Alert) → status_of o ≡ some AlertStatus.firing → fires o ≡ true
fires-status o h = ground arith

resolving-all :
    (held : List Alert) (n : Notification) (at : ℕ)
    → (apply held n at).resolving ≡ all_resolved (apply held n at).alerts
unfolding apply
resolving-all held n at = refl

-- An incident does not end while anything in it fires: neither an alert that the payload keeps silent
-- about nor one that it reports firing is taken for resolved.
pub apply_firing :
    (f : String) (held : List Alert) (n : Notification) (at : ℕ)
    → next_status held n f ≡ some AlertStatus.firing
    → (apply held n at).resolving ≡ false
apply_firing f held n at h =
    resolving-all held n at
    ∙ all_resolved-fires f _ (fires-status _ (apply-next_status f held n at ∙ h))

Distinct-mark_stale :
    (alerts : List Alert) (reported : List (String × Bool)) (at : ℕ)
    → Distinct alerts
    → Distinct (mark_stale alerts reported at).0
unfolding mark_stale
Distinct-mark_stale [] reported at d = tt
Distinct-mark_stale (a ∷ alerts) reported at d = ground (
  arith,
  Distinct-mark_stale alerts reported at d.1,
  find-mark_stale a.fingerprint alerts reported at,
)

apply-Distinct : (held : List Alert) (n : Notification) (at : ℕ) → Distinct (apply held n at).alerts
unfolding apply mark_snapshot
apply-Distinct held n at =
    let merged = merge_alerts held (filter_mergeable n.alerts (fingerprints_of held)) in
    ground (
      arith,
      (merge_alerts-IsOrdered held (filter_mergeable n.alerts (fingerprints_of held))).1,
      Distinct-mark_stale merged (reported_in n.alerts) at,
    )

status-fires : (o : Option Alert) → fires o ≡ true → status_of o ≡ some AlertStatus.firing
status-fires o h = ground arith

-- And it ends as soon as nothing fires: an incident that stays open has a fingerprint that fires.
pub apply_open :
    (held : List Alert) (n : Notification) (at : ℕ)
    → (apply held n at).resolving ≡ false
    → (f : String) × (next_status held n f ≡ some AlertStatus.firing)
apply_open held n at h =
    let f = firing_in (apply held n at).alerts in
    let fire =
      find-firing_in (apply held n at).alerts (sym (resolving-all held n at) ∙ h)
        (apply-Distinct held n at) in
    (f, sym (apply-next_status f held n at) ∙ status-fires _ fire)

-- A mark says when a silence started: the same snapshot again, at any later time, marks nothing more
-- and rewrites no mark.
pub mark_stale_twice :
    (alerts : List Alert) (reported : List (String × Bool)) (at later : ℕ)
    → mark_stale (mark_stale alerts reported at).0 reported later
      ≡ ((mark_stale alerts reported at).0, 0)
unfolding mark_stale
mark_stale_twice [] reported at later = refl
mark_stale_twice (a ∷ alerts) reported at later =
    ground (arith, mark_stale_twice alerts reported at later)

only_stale-any :
    (stale : Bool) (alerts : List Alert)
    → only_stale stale alerts ≡ (
        all (λ a. not (is_firing a.status) || is_set a.stale_since) alerts
        && (stale || any (λ a. is_firing a.status && is_set a.stale_since) alerts))
unfolding only_stale
only_stale-any stale [] = ground arith
only_stale-any stale (a ∷ alerts) =
    ground (arith, only_stale-any true alerts, only_stale-any stale alerts)

-- An incident is held open only by silent alerts exactly when every firing alert of it is marked and
-- there is one.
pub held_only_by_stale-all :
    (alerts : List Alert)
    → held_only_by_stale alerts ≡ (
        all (λ a. not (is_firing a.status) || is_set a.stale_since) alerts
        && any (λ a. is_firing a.status && is_set a.stale_since) alerts)
unfolding held_only_by_stale
held_only_by_stale-all alerts = only_stale-any false alerts
