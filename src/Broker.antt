-- ===== src/Broker.antt =====
-- Broker/src/Broker.c: the messages and the subscribers of the Broker, and what its threads do.
pub mod Estado
pub mod Tamanios
pub mod Consultas
pub mod Recepcion
pub mod Envio
pub mod Suscripcion
pub mod Servidor
pub mod Codigos
pub mod Coherencia
pub mod Pasos
pub mod Sistema
pub mod Mantiene
pub mod Avance
pub mod Sostiene
pub mod Alcance
pub mod Reparto
pub mod Refinamiento
pub mod Entrega
pub mod Medidas
pub mod Acuse
pub mod Duplicados
pub mod SinFallas
pub mod Enviables
pub mod Segura
pub mod Atencion
