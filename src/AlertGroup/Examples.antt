-- ===== src/AlertGroup/Examples.antt =====
-- An incident at concrete payloads.
use tokayops.Prelude.{String, ℕ, true, false, ◌≡◌, none, some, List, [], ◌∷◌, refl, lookup, insert}
use tokayops.AlertGroup.Alert.{Alert, AlertStatus}
use tokayops.AlertGroup.Merge.{Notification, apply}
use tokayops.AlertGroup.Merge.Latest.{find, latest}
use tokayops.AlertGroup.Merge.Incident.{
  status_of, next_status, apply-next_status, apply_firing, apply_open,
}

abbrev alert : String → AlertStatus → ℕ → Alert
alert fingerprint status starts_at = record {
  fingerprint = fingerprint;
  status = status;
  labels = ("alertname", "DiskFull") ∷ [];
  annotations = [];
  starts_at = starts_at;
  ends_at = 0;
  generator_url = "";
  stale_since = none;
}

abbrev held : List Alert
held = alert "a" AlertStatus.firing 10 ∷ alert "b" AlertStatus.firing 20 ∷ []

-- A snapshot that resolves "a", is silent about "b", and repeats an old resolution of "c".
abbrev snapshot : Notification
snapshot = record {
  alerts = alert "c" AlertStatus.resolved 5 ∷ alert "a" AlertStatus.resolved 10 ∷ [];
  snapshot = true;
  integration_id = "int";
  stale_after_seconds = 0;
}

after :
    (apply held snapshot 99).alerts
    ≡ alert "a" AlertStatus.resolved 10
      ∷ record (alert "b" AlertStatus.firing 20) { stale_since = some 99 }
      ∷ []
unfolding apply lookup insert
after = refl

apply-next_status_example :
    status_of (find "c" (apply held snapshot 99).alerts) ≡ next_status held snapshot "c"
apply-next_status_example = apply-next_status "c" held snapshot 99

apply_firing_example : (apply held snapshot 99).resolving ≡ false
unfolding latest
apply_firing_example = apply_firing "b" held snapshot 99 refl

apply_open_example : (f : String) × (next_status held snapshot f ≡ some AlertStatus.firing)
unfolding apply lookup insert
apply_open_example = apply_open held snapshot 99 refl
