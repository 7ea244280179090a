-- ===== src/Scheduler.antt =====
-- scheduler/: the cycles, their metadata and throttles, the scheduler and its configuration.
pub mod Mode
pub mod States
pub mod Metadata
pub mod Publish
pub mod WholeCollection
pub mod Duration
pub mod Throttle
pub mod Cycle
pub mod Config
pub mod LoadFile
pub mod Control
pub mod Interleaved
pub mod Overlapping
pub mod MetadataStore
pub mod TimeWindow
