-- ===== src/Incidents/Names.antt =====
-- The enumerations as the API writes them into JSON and texts.
use asset_it.Prelude.{ℕ, Option, none, some, List, [], ◌∷◌, Text, text}
use asset_it.Store.Rows.{Json}
use asset_it.Incidents.Rows.{IncidentCategory, IncidentStatus, IncidentPriority}

pub category_name : IncidentCategory → Text
category_name IncidentCategory.power = text "POWER"
category_name IncidentCategory.network = text "NETWORK"
category_name IncidentCategory.malware = text "MALWARE"
category_name IncidentCategory.hardware = text "HARDWARE"
category_name IncidentCategory.software = text "SOFTWARE"
category_name IncidentCategory.security = text "SECURITY"
category_name IncidentCategory.access = text "ACCESS"
category_name IncidentCategory.cloud = text "CLOUD"
category_name IncidentCategory.telephony = text "TELEPHONY"
category_name IncidentCategory.other = text "OTHER"

pub status_name : IncidentStatus → Text
status_name IncidentStatus.new = text "NEW"
status_name IncidentStatus.acknowledged = text "ACKNOWLEDGED"
status_name IncidentStatus.in_progress = text "IN_PROGRESS"
status_name IncidentStatus.monitoring = text "MONITORING"
status_name IncidentStatus.resolved = text "RESOLVED"
status_name IncidentStatus.closed = text "CLOSED"
status_name IncidentStatus.cancelled = text "CANCELLED"

pub priority_name : IncidentPriority → Text
priority_name IncidentPriority.p1 = text "P1"
priority_name IncidentPriority.p2 = text "P2"
priority_name IncidentPriority.p3 = text "P3"
priority_name IncidentPriority.p4 = text "P4"

-- A key with `undefined` is left out of JSON, one with `null` is not.
abbrev pub entry_if_defined : Text → Option ℕ → List (Text × Json)
entry_if_defined key none = []
entry_if_defined key (some k) = (key, Json.id k) ∷ []

abbrev pub nullable : Option ℕ → Json
nullable none = Json.null
nullable (some k) = Json.id k

abbrev pub nullable_text : Option Text → Json
nullable_text none = Json.null
nullable_text (some t) = Json.str t
