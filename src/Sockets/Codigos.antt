-- ===== src/Sockets/Codigos.antt =====
-- OurLibraries/Sockets/sockets.h: the operation codes of the protocol, and the numbers that the
-- C enumeration gives them.
use sistemas_operativos_utn.Base.{ℕ}

pub data OpCode : Type 0 where
  suscripcion_new suscripcion_appeared suscripcion_catch suscripcion_caught : OpCode
  suscripcion_get suscripcion_localized : OpCode
  new_pokemon appeared_pokemon catch_pokemon caught_pokemon get_pokemon : OpCode
  localized_pokemon ack handshake : OpCode

unfoldable pub codigo : OpCode → ℕ
codigo suscripcion_new = 0
codigo suscripcion_appeared = 1
codigo suscripcion_catch = 2
codigo suscripcion_caught = 3
codigo suscripcion_get = 4
codigo suscripcion_localized = 5
codigo new_pokemon = 6
codigo appeared_pokemon = 7
codigo catch_pokemon = 8
codigo caught_pokemon = 9
codigo get_pokemon = 10
codigo localized_pokemon = 11
codigo ack = 12
codigo handshake = 13
