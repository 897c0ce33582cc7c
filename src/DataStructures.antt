-- ===== src/DataStructures.antt =====
-- The containers and records of DataStructures/.
pub mod BinaryHeap
pub mod RestrictionMap
pub mod DynamicGraph
pub mod ConcurrentQueue
pub mod LruCache
pub mod ImportEdge
pub mod StaticGraph
pub mod RangeTable
pub mod XorFastHash
pub mod XorFastHashStorage
pub mod TurnInstructions
