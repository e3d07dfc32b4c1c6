-- ===== src/Tests.antt =====
-- The theorems at concrete inputs.
mod Objects
mod Staging
mod Wkt
mod Writing
mod Records
mod Referring
mod Annotations
mod Requests
mod Exports
mod Builds
mod Ids
