-- ===== src/Tests.antt =====
-- Concrete runs: small stand-ins for what is outside, and each theorem at one input.
mod CodePoints
mod Worlds
mod StateRuns
mod EnvelopeRuns
mod FfiRuns
mod ProtocolRuns
mod KeysetRuns
mod SecrecyRuns
mod TrailRuns
mod WireRuns
mod DeployedRuns
mod StoredRuns
mod TargetsRuns
mod KubeconfigRuns
mod AgeRuns
mod Letters
mod KmsRuns
mod MockRuns
