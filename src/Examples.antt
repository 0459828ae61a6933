-- ===== src/Examples.antt =====
-- Concrete runs: the theorems at inputs where their conditions hold, and tests by evaluation.
mod Provider
mod Store
mod Collector
mod Config
mod Metrics
mod Discovery
mod GitHub
mod GitLab
mod Controller
mod Environment
mod Exporter
