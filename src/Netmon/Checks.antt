-- ===== src/Netmon/Checks.antt =====
-- `resolveCheck` of apps/api/src/modules/netmon/network.ts: what one probe makes of a device.
use asset_it.Prelude.{
  ℕ, ◌+◌, ◌*◌, ◌/◌, Bool, true, false, not, ◌&&◌, leb, ltb, Option, List, if◌then◌else◌,
}

pub data DeviceStatus : Type 0 where
  unknown up down paused : DeviceStatus

pub record ProbeOutcome : Type 0 where
  pub reachable : Bool
  pub response_time_ms : Option ℕ
  pub open_ports : List ℕ

pub record DeviceCheckState : Type 0 where
  pub status : DeviceStatus
  pub consecutive_failures : ℕ
  pub monitored : Bool

pub record CheckResolution : Type 0 where
  pub status : DeviceStatus
  pub consecutive_failures : ℕ
  pub changed : Bool
  pub raise_alert : Bool
  pub clear_alert : Bool

abbrev pub is_up : DeviceStatus → Bool
is_up DeviceStatus.up = true
is_up _ = false

abbrev pub is_down : DeviceStatus → Bool
is_down DeviceStatus.down = true
is_down _ = false

abbrev pub is_paused : DeviceStatus → Bool
is_paused DeviceStatus.paused = true
is_paused _ = false

-- `Math.max(1, failureThreshold)`
abbrev pub threshold_of : ℕ → ℕ
threshold_of n = if ltb n 1 then 1 else n

abbrev pub resolve_unmonitored : DeviceCheckState → CheckResolution
resolve_unmonitored current = record {
  status = DeviceStatus.paused;
  consecutive_failures = 0;
  changed = not (is_paused current.status);
  raise_alert = false;
  clear_alert = is_down current.status;
}

abbrev pub resolve_reply : DeviceCheckState → CheckResolution
resolve_reply current = record {
  status = DeviceStatus.up;
  consecutive_failures = 0;
  changed = not (is_up current.status);
  raise_alert = false;
  clear_alert = not (is_up current.status);
}

-- `failures >= threshold`, the failure at hand counted
abbrev pub goes_down : DeviceCheckState → ℕ → Bool
goes_down current failure_threshold =
    leb (threshold_of failure_threshold) (current.consecutive_failures + 1)

abbrev pub resolve_silence : DeviceCheckState → ℕ → CheckResolution
resolve_silence current failure_threshold = record {
  status = if goes_down current failure_threshold then DeviceStatus.down else current.status;
  consecutive_failures = current.consecutive_failures + 1;
  changed = goes_down current failure_threshold && not (is_down current.status);
  raise_alert = goes_down current failure_threshold && not (is_down current.status);
  clear_alert = false;
}

unfoldable pub resolve_check : DeviceCheckState → ProbeOutcome → ℕ → CheckResolution
resolve_check current outcome failure_threshold =
    if not current.monitored
    then resolve_unmonitored current
    else if outcome.reachable
    then resolve_reply current
    else resolve_silence current failure_threshold

-- `sampleBucket`, on milliseconds since 1970
unfoldable pub sample_bucket : ℕ → ℕ
sample_bucket at = at / 3600000 * 3600000
