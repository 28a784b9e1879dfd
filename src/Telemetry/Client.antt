-- ===== src/Telemetry/Client.antt =====
-- `detectClient` of telemetry_service.js: the browser's name and version, read off the user agent.
pub mod Version
use sunbird_devops.Base.{ℕ, ◌+◌, String, Option, none, some}
use sunbird_devops.Js.Text.{index_of, slice_from, before}

pub record Client : Type 0 where
  pub browser : String
  pub browserver : String
  pub os : String

-- the name of the browser with the text that its version begins
abbrev pub Named : Type 0
Named = String × String

-- `agent.substring(offset)`, with what "Version" is followed by instead, where it stands
unfoldable version_after : ℕ → String → String
unfolding index_of slice_from
version_after offset agent = elim (index_of "Version" agent) [
  | some i ↦ slice_from (i + 8) agent
  | none ↦ slice_from offset agent
]

-- The ladder on the names in the user agent; `name` and `version` are the navigator's own.
unfoldable name_client : (name version agent : String) → Named
unfolding version_after
name_client name version agent = elim (index_of "Opera" agent) [
  | some i ↦ ("opera", version_after (i + 6) agent)
  | none ↦ elim (index_of "MSIE" agent) [
    | some i ↦ ("IE", slice_from (i + 5) agent)
    | none ↦ elim (index_of "Chrome" agent) [
      | some i ↦ ("chrome", slice_from (i + 7) agent)
      | none ↦ elim (index_of "Safari" agent) [
        | some i ↦ ("safari", version_after (i + 7) agent)
        | none ↦ elim (index_of "Firefox" agent) [
          | some i ↦ ("firefox", slice_from (i + 8) agent)
          | none ↦ (name, version)
        ]
      ]
    ]
  ]
]

-- `detectClient`, where `version` is the text of `parseFloat(navigator.appVersion)`
unfoldable pub detect_client : (name version agent platform : String) → Client
unfolding name_client before
detect_client name version agent platform =
    let found = name_client name version agent in
    record { browser = found.0; browserver = before b' ' (before b';' found.1); os = platform }
