-- ===== src/Text.antt =====
-- Text messages of the C++ services (cpp/common/common.h, Pack.h, Pack.cpp).
pub mod Divide
pub mod Strsep
pub mod Number
pub mod Sorted
pub mod Parm
mod Tests
