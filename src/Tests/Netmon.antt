-- ===== src/Tests/Netmon.antt =====
-- The theorems on device checks at a device that misses three checks and replies again.
use asset_it.Prelude.{
  Text, text, trim, split, length, All, ◌≤◌, ℕ, ◌≡◌, refl, true, false, none, some, List, [], ◌∷◌,
  arith,
}
use asset_it.Netmon.Addresses.{read_octet, read_octets, ip_to_int, int_to_ip}
use asset_it.Netmon.Addresses.RoundTrip.{ip_to_int-int_to_ip}
use asset_it.Netmon.Ranges.{addresses_from, parsed_block, parse_cidr, host_addresses, is_in_cidr}
use asset_it.Netmon.Hosts.{host_addresses-in_cidr, host_addresses-counts}
use asset_it.Netmon.Checks.{DeviceStatus, ProbeOutcome}
use asset_it.Netmon.Recording.{NetworkDevice, Monitoring, record_checks}
use asset_it.Netmon.Alerts.{Alerting, record_checks-Alerting, record_checks_silent}
use asset_it.Netmon.Samples.{checks_of, successes_of, record_checks-totals}

abbrev printer : NetworkDevice
printer = record {
  id = 4;
  status = DeviceStatus.up;
  consecutive_failures = 0;
  monitored = true;
  failure_threshold = 3;
  response_time_ms = none;
  last_checked_at = none;
  last_seen_at = none;
  open_ports = [];
}

abbrev fresh : Monitoring
fresh = record { device = printer; samples = []; events = []; alerts = [] }

abbrev silence : ProbeOutcome
silence = record { reachable = false; response_time_ms = none; open_ports = [] }

abbrev reply : ProbeOutcome
reply = record { reachable = true; response_time_ms = some 12; open_ports = 80 ∷ [] }

abbrev outage : List (ℕ × ProbeOutcome)
outage = (1000, silence) ∷ (61000, silence) ∷ (3600000, silence) ∷ []

abbrev outage_and_back : List (ℕ × ProbeOutcome)
outage_and_back = (1000, silence) ∷ (61000, silence) ∷ (3600000, silence) ∷ (3660000, reply) ∷ []

record_checks-Alerting_example : Alerting (record_checks outage fresh)
record_checks-Alerting_example = record_checks-Alerting outage fresh refl

record_checks_silent_example : (record_checks outage fresh).device.status ≡ DeviceStatus.down
record_checks_silent_example = record_checks_silent outage fresh refl refl refl

record_checks-totals_example :
    (checks_of 4 (record_checks outage_and_back fresh).samples ≡ 4)
    × (successes_of 4 (record_checks outage_and_back fresh).samples ≡ 1)
record_checks-totals_example = record_checks-totals outage_and_back fresh

-- 192.168.1.7
ip_to_int-int_to_ip_example : ip_to_int (int_to_ip 3232235783) ≡ some 3232235783
ip_to_int-int_to_ip_example = ip_to_int-int_to_ip 3232235783 (omega arith)

-- A range of four addresses, two of them usable.
abbrev small_range : Text
small_range = text "192.168.1.4/30"

host_addresses-in_cidr_example :
    (length (host_addresses small_range) ≤ 1022)
    × All (λ h. is_in_cidr h small_range ≡ true) (host_addresses small_range)
host_addresses-in_cidr_example = host_addresses-in_cidr small_range

host_addresses-counts_example : length (host_addresses small_range) ≡ 2
unfolding parse_cidr split text trim ip_to_int read_octets read_octet
host_addresses-counts_example = host_addresses-counts small_range (parsed_block 30 3232235780) refl

small_range_hosts : host_addresses small_range ≡ text "192.168.1.5" ∷ text "192.168.1.6" ∷ []
unfolding host_addresses parse_cidr split text trim ip_to_int int_to_ip read_octets read_octet
    addresses_from
small_range_hosts = refl
