-- ===== src/Netmon/Alerts.antt =====
-- The alerts of a device and its status.
use asset_it.Prelude.{
  ℕ, ◌+◌, Bool, true, false, not, ◌&&◌, ◌≡◌, refl, ap, ◌∙◌, List, [], ◌∷◌, map, any, keep, length,
  inl, inr, ◌⊎◌, leb, if◌then◌else◌, Bool-cases, arith,
}
use asset_it.Netmon.Checks.{
  DeviceStatus, ProbeOutcome, DeviceCheckState, resolve_check, is_down, is_up, goes_down,
  threshold_of,
}
use asset_it.Netmon.Recording.{
  NetworkAlert, NetworkDevice, Monitoring, live_for, resolve_alert, raise_if, clear_if,
  record_check, record_checks, check_state,
}

abbrev pub live_count : ℕ → List NetworkAlert → ℕ
live_count k alerts = length (keep (live_for k) alerts)

-- One alert is live while the device is DOWN, and none otherwise.
abbrev pub Alerting : Monitoring → Type 0
Alerting m = live_count m.device.id m.alerts ≡ (if is_down m.device.status then 1 else 0)

live_count-resolved :
    (k now : ℕ) (alerts : List NetworkAlert) → live_count k (map (resolve_alert k now) alerts) ≡ 0
live_count-resolved k now [] = refl
live_count-resolved k now (a ∷ rest) = ground (arith, live_count-resolved k now rest)

live_count-any :
    (k : ℕ) (alerts : List NetworkAlert) → live_count k alerts ≡ 0 → any (live_for k) alerts ≡ false
live_count-any k [] none_live = refl
live_count-any k (a ∷ rest) none_live = ground (arith, live_count-any k rest)

live_count-cleared :
    (k now : ℕ) (alerts : List NetworkAlert) → live_count k (clear_if true k now alerts) ≡ 0
unfolding clear_if
live_count-cleared k now alerts = live_count-resolved k now alerts

live_count-raised :
    (k now : ℕ) (alerts : List NetworkAlert)
    → live_count k alerts ≡ 0
    → live_count k (raise_if true k now alerts) ≡ 1
unfolding raise_if
live_count-raised k now alerts none_live =
    let quiet = live_count-any k alerts none_live in ground (arith, quiet)

-- What a check says of alerts fits the status it gives.
resolve_check-alerts :
    (current : DeviceCheckState) (outcome : ProbeOutcome) (n : ℕ)
    → ((resolve_check current outcome n).raise_alert ≡ true)
        × ((resolve_check current outcome n).clear_alert ≡ false)
        × (is_down (resolve_check current outcome n).status ≡ true)
        × (is_down current.status ≡ false)
      ⊎ ((resolve_check current outcome n).raise_alert ≡ false)
        × ((resolve_check current outcome n).clear_alert ≡ true)
        × (is_down (resolve_check current outcome n).status ≡ false)
      ⊎ ((resolve_check current outcome n).raise_alert ≡ false)
        × ((resolve_check current outcome n).clear_alert ≡ false)
        × (is_down (resolve_check current outcome n).status ≡ is_down current.status)
unfolding resolve_check
resolve_check-alerts current outcome n = elim (Bool-cases current.monitored) [
  | inr off ↦ elim (Bool-cases (is_down current.status)) [
    | inl was ↦ inr (inl (ground arith, ground arith, ground arith))
    | inr other ↦ inr (inr (ground arith, ground arith, ground arith))
  ]
  | inl on ↦ elim (Bool-cases outcome.reachable) [
    | inl reply ↦ elim (Bool-cases (is_up current.status)) [
      | inl was ↦ inr (inr (ground arith, ground arith, ground arith))
      | inr other ↦ inr (inl (ground arith, ground arith, ground arith))
    ]
    | inr silent ↦ elim (Bool-cases (goes_down current n && not (is_down current.status))) [
      | inl falls ↦ inl (ground arith, ground arith, ground arith, ground arith)
      | inr stays ↦ inr (inr (ground arith, ground arith, ground arith))
    ]
  ]
]

record_check-Alerting :
    (now : ℕ) (outcome : ProbeOutcome) (m : Monitoring)
    → Alerting m
    → Alerting (record_check now outcome m)
unfolding record_check clear_if raise_if
record_check-Alerting now outcome m h =
    elim (resolve_check-alerts (check_state m.device) outcome m.device.failure_threshold) [
      | inl falls ↦
          let count = live_count-raised m.device.id now m.alerts (h ∙ rw falls.3 refl) in
          rw (falls.0, falls.1, falls.2) count
      | inr (inl recovers) ↦
          rw (recovers.0, recovers.1, recovers.2) (live_count-cleared m.device.id now m.alerts)
      | inr (inr stays) ↦ rw (stays.0, stays.1, stays.2) h
    ]

-- If it is so before, then after any history of checks exactly one alert of the device is live while its status is DOWN,
-- and none is live otherwise.
pub record_checks-Alerting :
    (checks : List (ℕ × ProbeOutcome)) (m : Monitoring)
    → Alerting m
    → Alerting (record_checks checks m)
unfolding record_checks
record_checks-Alerting [] m h = h
record_checks-Alerting ((now, outcome) ∷ rest) m h =
    record_checks-Alerting rest (record_check now outcome m) (record_check-Alerting now outcome m h)

-- The status says whether the failures in a row have reached the threshold.
abbrev pub Counted : NetworkDevice → Type 0
Counted d = d.status ≡ (
    if leb (threshold_of d.failure_threshold) d.consecutive_failures
    then DeviceStatus.down
    else DeviceStatus.up)

record_check-Counted :
    (now : ℕ) (outcome : ProbeOutcome) (m : Monitoring)
    → m.device.monitored ≡ true
    → Counted m.device
    → Counted (record_check now outcome m).device
unfolding record_check resolve_check
record_check-Counted now outcome m on h = ground arith

abbrev pub is_reply : ℕ × ProbeOutcome → Bool
is_reply check = check.1.reachable

-- A monitored device, UP or DOWN as its failures say, that misses each of a row of checks is DOWN after them if the failures before
-- and the row together reach the threshold of its subnet, 1 at least, and UP otherwise.
pub record_checks_silent :
    (checks : List (ℕ × ProbeOutcome)) (m : Monitoring)
    → any is_reply checks ≡ false
    → m.device.monitored ≡ true
    → Counted m.device
    → (record_checks checks m).device.status ≡ (
        if leb
          (threshold_of m.device.failure_threshold)
          (m.device.consecutive_failures + length checks)
        then DeviceStatus.down
        else DeviceStatus.up)
unfolding record_checks record_check resolve_check
record_checks_silent [] m silent on h = ground arith
record_checks_silent ((now, outcome) ∷ rest) m silent on h =
    let later =
      record_checks_silent rest (record_check now outcome m) (ground arith) on
        (record_check-Counted now outcome m on h) in
    let one : (record_check now outcome m).device.consecutive_failures
        ≡ m.device.consecutive_failures + 1 =
      ground arith in
    later
    ∙ ap
        (λ (n : ℕ).
          if leb (threshold_of m.device.failure_threshold) n
          then DeviceStatus.down
          else DeviceStatus.up)
        (omega (arith, one))
