-- ===== src/Client.antt =====
-- The clients that call `handle_proto`: the web page's server, the command line, and the listener on the
-- clipboard.
pub mod Host
pub mod Web
pub mod Cli
pub mod Listener
