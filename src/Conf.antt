-- ===== src/Conf.antt =====
-- The module configurations that are created, merged and initialised with ngxpp/NgxValue.hpp.
pub mod Word
pub mod Discard
pub mod Shmem
pub mod Subrequest
pub mod Upstream
pub mod Inheritance
