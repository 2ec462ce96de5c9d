-- ===== src/Boot/Sockets.antt =====
-- The listening socket of a program, from its start to its end.
use highway.Server.{Server}
