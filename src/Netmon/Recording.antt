-- ===== src/Netmon/Recording.antt =====
-- `record` of apps/api/src/modules/netmon/netmon.poller.ts: what a check writes.
use asset_it.Prelude.{
  ℕ, ◌+◌, Bool, true, false, ◌&&◌, ◌==◌, ltb, Option, none, some, List, [], ◌∷◌, map, any, get_or,
  if◌then◌else◌,
}
use asset_it.Netmon.Checks.{
  DeviceStatus, ProbeOutcome, DeviceCheckState, CheckResolution, resolve_check, sample_bucket,
}

pub data AlertStatus : Type 0 where
  open_ acknowledged resolved : AlertStatus

pub record NetworkDevice : Type 0 where
  pub id : ℕ
  pub status : DeviceStatus
  pub consecutive_failures : ℕ
  pub monitored : Bool
  pub failure_threshold : ℕ
  pub response_time_ms : Option ℕ
  pub last_checked_at : Option ℕ
  pub last_seen_at : Option ℕ
  pub open_ports : List ℕ

pub record NetworkSample : Type 0 where
  pub device_id : ℕ
  pub bucket_start : ℕ
  pub checks : ℕ
  pub successes : ℕ
  pub sum_response_ms : ℕ
  pub max_response_ms : Option ℕ

pub record NetworkEvent : Type 0 where
  pub device_id : ℕ
  pub from_status : DeviceStatus
  pub to_status : DeviceStatus
  pub response_time_ms : Option ℕ
  pub occurred_at : ℕ

pub record NetworkAlert : Type 0 where
  pub device_id : ℕ
  pub status : AlertStatus
  pub down_since : ℕ
  pub resolved_at : Option ℕ

-- A device, and the tables that its checks write. Rows stand newest first.
pub record Monitoring : Type 0 where
  pub device : NetworkDevice
  pub samples : List NetworkSample
  pub events : List NetworkEvent
  pub alerts : List NetworkAlert

abbrev pub is_live : AlertStatus → Bool
is_live AlertStatus.resolved = false
is_live _ = true

abbrev pub live_for : ℕ → NetworkAlert → Bool
live_for k a = is_live a.status && a.device_id == k

-- `tx.networkDevice.update`
abbrev pub checked : ℕ → ProbeOutcome → CheckResolution → NetworkDevice → NetworkDevice
checked now outcome r d = record d {
  status = r.status;
  consecutive_failures = r.consecutive_failures;
  response_time_ms = outcome.response_time_ms;
  last_checked_at = some now;
  last_seen_at = if outcome.reachable then some now else d.last_seen_at;
  open_ports = if outcome.reachable then outcome.open_ports else d.open_ports;
}

-- `GREATEST`, which passes over NULL
abbrev pub greatest : Option ℕ → Option ℕ → Option ℕ
greatest none b = b
greatest (some a) none = some a
greatest (some a) (some b) = if ltb a b then some b else some a

abbrev pub success_of : Bool → ℕ
success_of true = 1
success_of false = 0

abbrev pub first_sample : ℕ → ℕ → ProbeOutcome → NetworkSample
first_sample k bucket outcome = record {
  device_id = k;
  bucket_start = bucket;
  checks = 1;
  successes = success_of outcome.reachable;
  sum_response_ms = get_or outcome.response_time_ms 0;
  max_response_ms = outcome.response_time_ms;
}

abbrev pub more_samples : ProbeOutcome → NetworkSample → NetworkSample
more_samples outcome s = record s {
  checks = s.checks + 1;
  successes = s.successes + success_of outcome.reachable;
  sum_response_ms = s.sum_response_ms + get_or outcome.response_time_ms 0;
  max_response_ms = greatest s.max_response_ms outcome.response_time_ms;
}

-- `INSERT INTO network_samples ... ON CONFLICT ("deviceId", "bucketStart") DO UPDATE`
unfoldable pub upsert_sample : ℕ → ℕ → ProbeOutcome → List NetworkSample → List NetworkSample
upsert_sample k bucket outcome [] = first_sample k bucket outcome ∷ []
upsert_sample k bucket outcome (s ∷ rest) =
    let others = upsert_sample k bucket outcome rest in
    if s.device_id == k && s.bucket_start == bucket
    then more_samples outcome s ∷ rest
    else s ∷ others

abbrev pub event_if :
    Bool
    → ℕ
    → DeviceStatus
    → CheckResolution
    → ProbeOutcome
    → ℕ
    → List NetworkEvent
    → List NetworkEvent
event_if false k before r outcome now events = events
event_if true k before r outcome now events =
    record {
      device_id = k;
      from_status = before;
      to_status = r.status;
      response_time_ms = outcome.response_time_ms;
      occurred_at = now;
    }
    ∷ events

-- An alert is raised unless one is live.
unfoldable pub raise_if : Bool → ℕ → ℕ → List NetworkAlert → List NetworkAlert
raise_if false k now alerts = alerts
raise_if true k now alerts =
    if any (live_for k) alerts
    then alerts
    else record { device_id = k; status = AlertStatus.open_; down_since = now; resolved_at = none }
      ∷ alerts

abbrev pub resolve_alert : ℕ → ℕ → NetworkAlert → NetworkAlert
resolve_alert k now a =
    if live_for k a then record a { status = AlertStatus.resolved; resolved_at = some now } else a

unfoldable pub clear_if : Bool → ℕ → ℕ → List NetworkAlert → List NetworkAlert
clear_if false k now alerts = alerts
clear_if true k now alerts = map (resolve_alert k now) alerts

abbrev pub check_state : NetworkDevice → DeviceCheckState
check_state d = record {
  status = d.status;
  consecutive_failures = d.consecutive_failures;
  monitored = d.monitored;
}

unfoldable pub record_check : ℕ → ProbeOutcome → Monitoring → Monitoring
record_check now outcome m =
    let d = m.device in
    let r = resolve_check (check_state d) outcome d.failure_threshold in
    record {
      device = checked now outcome r d;
      samples = upsert_sample d.id (sample_bucket now) outcome m.samples;
      events = event_if r.changed d.id d.status r outcome now m.events;
      alerts = clear_if r.clear_alert d.id now (raise_if r.raise_alert d.id now m.alerts);
    }

-- A history of checks, each with its time.
unfoldable pub record_checks : List (ℕ × ProbeOutcome) → Monitoring → Monitoring
unfolding record_check
record_checks [] m = m
record_checks ((now, outcome) ∷ rest) m = record_checks rest (record_check now outcome m)
