-- ===== src/Examples/Vol.antt =====
-- The theorems on adapter/vol/vol-old/H5VLDTIO.cc at concrete inputs.
pub mod Memory
pub mod Words
pub mod Transfers
pub mod Spaces
pub mod Datasets
pub mod Writes
pub mod Life
pub mod Sessions
