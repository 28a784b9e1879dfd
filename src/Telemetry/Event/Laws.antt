-- ===== src/Telemetry/Event/Laws.antt =====
-- What an event holds, and what the configuration of `Telemetry` becomes.
use sunbird_devops.Js.Value.{Value}
