-- ===== src/BinaryHeap.antt =====
-- `std::collections::BinaryHeap`, as the sources use it: `push`, `peek`, `pop` and `is_empty` of a
-- priority queue whose greatest element is popped first. The contents are kept in popping order.
-- `std` does not say which of two equal elements is popped first; here it is the older one.
mod Laws
pub use Laws.*
mod Defs
unfoldable pub use Defs.*
