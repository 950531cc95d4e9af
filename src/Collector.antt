-- ===== src/Collector.antt =====
-- internal/collector/collector.go: one poll of a lighthouse (Poll), the goroutines of a round
-- (Fanout), the saving of a round's results (Round) and the loop over rounds (Service).
pub mod Poll
pub mod Fanout
pub mod Round
pub mod Service
