-- ===== src/Binding.antt =====
-- The Node module: src/binding.cpp, from the arguments of JavaScript to the calls of libmaxminddb
-- and back to the values of JavaScript.
pub mod Js
pub mod Constants
pub mod Completion
pub mod Fields
pub mod Collect
pub mod Lookup
pub mod Load
pub mod Exports
pub mod Collected
pub mod Libmaxminddb
pub mod Shown
pub mod Slots
pub mod Unloaded
pub mod Reports
pub mod Objects
pub mod Asked
pub mod Located
pub mod Answered
pub mod Shared
pub mod Ready
pub mod Reachable
pub mod Kept
pub mod Lawful
pub mod Displayed
pub mod Explained
pub mod Thrown
