-- ===== src/Tests.antt =====
-- The theorems at concrete inputs.
pub mod Drive
pub mod Volumes
pub mod Growing
pub mod Lifetimes
pub mod Searches
pub mod Text
pub mod Files
pub mod Mounting
pub mod Caching
pub mod Directories
pub mod Formatting
pub mod Listing
