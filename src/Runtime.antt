-- ===== src/Runtime.antt =====
-- runtime/src: the collections that compiled programs link with.
pub mod Run
pub mod Order
pub mod Probe
pub mod LinkedMap
pub mod LinkedSet
pub mod SortedMap
pub mod SortedSet
