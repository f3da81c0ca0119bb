-- ===== src/Tests.antt =====
-- The theorems at concrete inputs, and small runs of the code, one module for each component.
mod BaseTypes
mod Arrays
mod Functions
mod Calls
mod Composites
mod Lengths
mod Types
mod Proxies
mod Libraries
mod Addresses
mod Pointers
mod Collector
mod NewArrays
mod Closures
mod TypeSetups
mod Modules
mod Printing
mod SharedArrays
mod Loaders
mod Typdict
