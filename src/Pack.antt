-- ===== src/Pack.antt =====
-- The message packets of the C++ services: InPack and OutPack of cpp/common/Pack.h and Pack.cpp.
pub mod Order
pub mod Decode
pub mod Encode
pub mod Trip
pub mod Delivery
pub mod Bounds
pub mod Zip
mod Tests
