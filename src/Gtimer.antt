-- ===== src/Gtimer.antt =====
-- utils/tools/gtimer: a timer that runs jobs from a priority queue of ticks.
pub mod Heap
pub mod Queue
pub mod Entry
pub mod Timer
pub mod Tests
