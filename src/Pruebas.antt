-- ===== src/Pruebas.antt =====
-- Runs of the model at concrete inputs, and the theorems at such inputs.
mod Memoria
mod Mensajes
mod Buddy
mod Equipo
mod Camino
mod Deadlocks
mod Difusion
mod Medidas
mod Juego
