-- ===== src/Sockets.antt =====
-- OurLibraries/Sockets: the messages that the processes exchange.
pub mod Codigos
pub mod Bytes
pub mod Serializacion
pub mod Deserializacion
pub mod Copia
pub mod Viaje
pub mod Campos
pub mod IdaYVuelta
pub mod Localizada
pub mod Envio
