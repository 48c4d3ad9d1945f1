-- ===== src/Start.antt =====
-- main.c and utils/kill_others.c on Linux: the start of the program and its processes.
pub mod Conf
pub mod Options
pub mod Kill
pub mod Launch
