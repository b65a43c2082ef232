-- ===== src/Simulator.antt =====
-- backend/app/simulator: the conversion of currencies, and the validator of the clean baseline.
pub mod Fx
pub mod Validator
