-- ===== src/Garray.antt =====
-- utils/tools/garray: arrays that are lists with methods, plain and sorted.
pub mod Element
pub mod Normal
pub mod Bulk
pub mod Reads
pub mod Order
pub mod QuickSort
pub mod Sorted
pub mod Tests
pub mod SortedTests
