-- ===== src/Files.antt =====
-- utils/utils.c: `mkdirs`; proto/methods.c: what is done with received file names.
pub mod Mkdirs
pub mod Name
pub mod Walk
