-- ===== src/Tests.antt =====
-- The theorems at concrete inputs, and the data that these share.
mod Data
mod Stage
mod Requests
mod Adjudication
mod Safety
mod Options
mod Authority
mod Selector
mod Worker
mod Polygons
