-- ===== src/Particiones.antt =====
-- Broker/src/Particiones.c: the memory of the Broker.
pub mod Tabla
pub mod Ajuste
pub mod Consolidacion
pub mod Liberacion
pub mod Dinamica
pub mod Forma
pub mod Punteros
pub mod Buddy
pub mod Rastro
