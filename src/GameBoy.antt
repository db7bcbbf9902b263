-- ===== src/GameBoy.antt =====
-- Game-Boy/src/Game-Boy.c: the client that sends one message, or subscribes to one queue.
pub mod Cliente
pub mod Principal
pub mod Cabeceras
pub mod Conversa
