-- ===== src/Tests.antt =====
-- Concrete inputs, and the theorems at them.
mod World
mod Licences
mod Metadata
mod Classification
mod Images
mod Pipeline
mod Searches
mod Pages
mod Providers
