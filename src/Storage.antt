-- ===== src/Storage.antt =====
-- What the simulator keeps on the host, of src/Storage: the SIMH tape container and the EBCDIC code
-- pages.
pub mod Tape
pub mod Ebcdic
pub mod Disk
