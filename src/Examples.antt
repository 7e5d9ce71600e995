-- ===== src/Examples.antt =====
-- Runs on concrete data, with the numbers of `nat_floats`.
pub mod Data
pub mod Requests
pub mod Hooks
pub mod Lists
pub mod Links
pub mod Pages
pub mod Panels
pub mod Selecting
pub mod Splits
pub mod Opening
pub mod Containers
pub mod Shell
