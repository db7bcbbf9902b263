-- ===== src/Broker/Codigos.antt =====
-- The operation codes of the queues, compared as numbers.
use sistemas_operativos_utn.Base.{ℕ, ◌≡◌, refl, sym, ap, ◌∙◌, true, ◌==◌, if◌then◌else◌, arith}
use sistemas_operativos_utn.Sockets.Codigos.{
  OpCode, codigo, suscripcion_new, suscripcion_appeared, suscripcion_catch, suscripcion_caught,
  suscripcion_get, suscripcion_localized, new_pokemon, appeared_pokemon, catch_pokemon,
  caught_pokemon, get_pokemon, localized_pokemon, ack, handshake,
}
use sistemas_operativos_utn.Broker.Estado.{
  Cola, cola_new, cola_appeared, cola_get, cola_localized, cola_catch, cola_caught, suscripcion_de,
  mensaje_de, mismo_codigo,
}
use sistemas_operativos_utn.Broker.Consultas.{tipo_mensaje_a_buscar}

-- The operation of a number.
operacion_de : ℕ → OpCode
operacion_de n =
    if n == 0
    then suscripcion_new
    else if n == 1
    then suscripcion_appeared
    else if n == 2
    then suscripcion_catch
    else if n == 3
    then suscripcion_caught
    else if n == 4
    then suscripcion_get
    else if n == 5
    then suscripcion_localized
    else if n == 6
    then new_pokemon
    else if n == 7
    then appeared_pokemon
    else if n == 8
    then catch_pokemon
    else if n == 9
    then caught_pokemon
    else if n == 10
    then get_pokemon
    else if n == 11
    then localized_pokemon
    else if n == 12
    then ack
    else handshake

operacion_de-codigo : (a : OpCode) → operacion_de (codigo a) ≡ a
unfolding operacion_de codigo
operacion_de-codigo suscripcion_new = refl
operacion_de-codigo suscripcion_appeared = refl
operacion_de-codigo suscripcion_catch = refl
operacion_de-codigo suscripcion_caught = refl
operacion_de-codigo suscripcion_get = refl
operacion_de-codigo suscripcion_localized = refl
operacion_de-codigo new_pokemon = refl
operacion_de-codigo appeared_pokemon = refl
operacion_de-codigo catch_pokemon = refl
operacion_de-codigo caught_pokemon = refl
operacion_de-codigo get_pokemon = refl
operacion_de-codigo localized_pokemon = refl
operacion_de-codigo ack = refl
operacion_de-codigo handshake = refl

-- Two operations with the same number are the same.
pub mismo_codigo_iguales : (a b : OpCode) → mismo_codigo a b ≡ true → a ≡ b
unfolding mismo_codigo
mismo_codigo_iguales a b h =
    let e : codigo a ≡ codigo b = ground arith in
    sym (operacion_de-codigo a) ∙ ap operacion_de e ∙ operacion_de-codigo b

pub tipo_mensaje_lem :
    (x : OpCode) (c : Cola) → tipo_mensaje_a_buscar x (suscripcion_de c) ≡ mensaje_de c
unfolding tipo_mensaje_a_buscar suscripcion_de mensaje_de
tipo_mensaje_lem x cola_new = refl
tipo_mensaje_lem x cola_appeared = refl
tipo_mensaje_lem x cola_get = refl
tipo_mensaje_lem x cola_localized = refl
tipo_mensaje_lem x cola_catch = refl
tipo_mensaje_lem x cola_caught = refl
