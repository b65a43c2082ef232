-- ===== src/Incidents/Injected.antt =====
-- What the injectors of backend/app/incidents/injectors.py do to the data, and that the controls of
-- backend/app/detection/detectors.py find it.
pub mod Links
pub mod Linked
pub mod Duplicates
pub mod Planned
pub mod Delays
pub mod Nulls
pub mod Outages
pub mod Mappings
pub mod Aggregates
mod Tests
