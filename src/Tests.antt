-- ===== src/Tests.antt =====
-- Concrete data for the models, and each theorem of the header at an input
-- where its hypotheses hold. No other module uses these.
mod Fixtures
mod Documents
mod Hosts
mod Headers
mod Vaults
mod Fetches
mod Waits
mod Planes
mod Answers
mod Apps
mod Sessions
