-- ===== src/Lists.antt =====
-- src/function/list_indexing.cc, src/function/list_group.cc and the bitmaps of
-- src/function/list_comparison.cc and src/function/list_aggregation.cc: what the functions on lists
-- compute. A list structure is the list of its elements; its bytes in the arena are not modelled.
-- An element type is a parameter, with the tests of the source that are made on its elements.
pub mod Table
pub mod Search
pub mod Sorted
pub mod SortedFind
pub mod Compact
pub mod Bitmap
pub mod BitValue
pub mod BitFilter
pub mod BitCount
pub mod Filter
pub mod Choose
pub mod Choices
pub mod Group
pub mod Cells
pub mod Sums
pub mod Encode
pub mod Dictionary
mod Examples
