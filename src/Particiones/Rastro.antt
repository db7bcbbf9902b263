-- ===== src/Particiones/Rastro.antt =====
-- Broker/src/Particiones.c: where the operations on the memory take the messages from. A property
-- of the code and the message of a partition that holds for every free one stays true of a whole
-- table, whatever its shape.
pub mod Desalojo
pub mod Guardado
