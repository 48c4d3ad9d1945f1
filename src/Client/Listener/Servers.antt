-- ===== src/Client/Listener/Servers.antt =====
-- To which servers the listener sends.
