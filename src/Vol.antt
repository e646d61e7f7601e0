-- ===== src/Vol.antt =====
-- The legacy HDF5 connector, adapter/vol/vol-old/H5VLDTIO.cc, by its parts.
mod Bits
pub mod Words
pub mod Objects
pub mod Oids
pub mod Store
pub mod Links
pub mod Chunks
pub mod Conversion
pub mod IoOps
pub mod Broadcast
pub mod Groups
pub mod Files
pub mod Datasets
pub mod Buffers
pub mod Requests
pub mod Specific
pub mod Transfer
