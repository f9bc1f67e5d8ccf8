-- ===== src/Netmon/Samples.antt =====
-- The hourly samples of a device against the checks they sum up.
use asset_it.Prelude.{ℕ, ◌+◌, ◌==◌, ◌≡◌, List, [], ◌∷◌, length, keep, if◌then◌else◌, arith}
use asset_it.Netmon.Checks.{ProbeOutcome, sample_bucket}
use asset_it.Netmon.Recording.{
  NetworkSample, Monitoring, upsert_sample, success_of, record_check, record_checks,
}
use asset_it.Netmon.Alerts.{is_reply}

-- The sums over all hours of one device, as the uptime and the dashboard take them.
abbrev pub checks_of : ℕ → List NetworkSample → ℕ
checks_of k [] = 0
checks_of k (s ∷ rest) = (if s.device_id == k then s.checks else 0) + checks_of k rest

abbrev pub successes_of : ℕ → List NetworkSample → ℕ
successes_of k [] = 0
successes_of k (s ∷ rest) = (if s.device_id == k then s.successes else 0) + successes_of k rest

upsert_sample-checks :
    (k bucket : ℕ) (outcome : ProbeOutcome) (samples : List NetworkSample)
    → checks_of k (upsert_sample k bucket outcome samples) ≡ checks_of k samples + 1
unfolding upsert_sample
upsert_sample-checks k bucket outcome [] = ground arith
upsert_sample-checks k bucket outcome (s ∷ rest) =
    ground (arith, upsert_sample-checks k bucket outcome rest)

upsert_sample-successes :
    (k bucket : ℕ) (outcome : ProbeOutcome) (samples : List NetworkSample)
    → successes_of k (upsert_sample k bucket outcome samples)
      ≡ successes_of k samples + success_of outcome.reachable
unfolding upsert_sample
upsert_sample-successes k bucket outcome [] = ground arith
upsert_sample-successes k bucket outcome (s ∷ rest) =
    ground (arith, upsert_sample-successes k bucket outcome rest)

-- After a history of checks the samples of the device count each check once, whatever the hours the
-- checks fell in, and each reply as one success.
pub record_checks-totals :
    (checks : List (ℕ × ProbeOutcome)) (m : Monitoring)
    → (checks_of m.device.id (record_checks checks m).samples
        ≡ checks_of m.device.id m.samples + length checks)
      × (successes_of m.device.id (record_checks checks m).samples
          ≡ successes_of m.device.id m.samples + length (keep is_reply checks))
unfolding record_checks record_check
record_checks-totals [] m = (omega arith, omega arith)
record_checks-totals ((now, outcome) ∷ rest) m =
    let (all, replies) = record_checks-totals rest (record_check now outcome m) in
    let one = upsert_sample-checks m.device.id (sample_bucket now) outcome m.samples in
    let success = upsert_sample-successes m.device.id (sample_bucket now) outcome m.samples in
    (omega (arith, all, one), ground (arith, replies, success))
