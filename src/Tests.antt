-- ===== src/Tests.antt =====
-- A concrete platform, and the theorems applied at concrete inputs.
mod Sort
mod Platform
mod Laws
mod Data
mod StorageExamples
mod OrderExamples
mod AlgoExamples
mod Messages
mod ApiExamples
mod PoolExamples
mod EmulatorExamples
mod ModelExamples
mod NetworkExamples
mod SettingsExamples
