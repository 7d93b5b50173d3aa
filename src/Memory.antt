-- ===== src/Memory.antt =====
-- include/memory, src/memory and src/device/io: physical memory, the regions of the devices, and the
-- bus that the processor sees.
pub mod Host
pub mod IoMap
pub mod Physical
pub mod HostLaws
pub mod IoMapLaws
pub mod PhysicalLaws
pub mod RegionLaws
