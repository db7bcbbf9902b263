-- ===== src/Broker/Envio.antt =====
-- Broker/src/Broker.c: how a message goes out to a subscriber (`enviarMensaje`).
use sistemas_operativos_utn.Base.{
  ℕ, Bool, true, false, Option, none, some, List, [], ◌∷◌, ◌==◌, if◌then◌else◌, ◌>>=◌,
}
use sistemas_operativos_utn.Sockets.Codigos.{
  OpCode, suscripcion_new, suscripcion_appeared, suscripcion_catch, suscripcion_caught,
  suscripcion_get, suscripcion_localized,
}
use sistemas_operativos_utn.Sockets.Envio.{
  enviar_new_pokemon, enviar_appeared_pokemon, enviar_catch_pokemon, enviar_caught_pokemon,
  enviar_get_pokemon, enviar_localized_pokemon,
}
use sistemas_operativos_utn.Particiones.Tabla.{Memoria, actualizar_id}
use sistemas_operativos_utn.Particiones.Liberacion.{Reemplazo, fifo, lru, otro_reemplazo}
use sistemas_operativos_utn.Broker.Estado.{
  Cola, suscripcion_de, Carga, de_new, de_appeared, de_get, de_localized, de_catch, de_caught,
  InfoMensaje, Configuracion,
}
use sistemas_operativos_utn.Broker.Recepcion.{es_correlativo}

-- The C string that a block holds: the bytes before the first 0. A block without one is read past
-- its end.
unfoldable pub cadena : List ℕ → Option (List ℕ)
cadena [] = none
cadena (b ∷ bs) = if b == 0 then some [] else (do resto ← cadena bs; some (b ∷ resto))

unfoldable pub es_lru : Reemplazo → Bool
es_lru fifo = false
es_lru lru = true
es_lru otro_reemplazo = false

unfoldable pub id_a_enviar : InfoMensaje → ℕ
unfolding es_correlativo
id_a_enviar mensaje =
    if es_correlativo mensaje.id_mensaje_correlativo
    then mensaje.id_mensaje_correlativo
    else mensaje.id_mensaje

-- `actualizarID` under LRU, with no other thread in between.
unfoldable pub usar : Configuracion → InfoMensaje → Memoria → Memoria
unfolding es_lru actualizar_id
usar c mensaje m = if es_lru c.alg_reemplazo then actualizar_id mensaje.id_mensaje m else m

module _ (malloc : ℕ → List ℕ) (atoi : List ℕ → ℕ) (string_itoa : ℕ → List ℕ)
    (sin_iniciar : ℕ) where
  -- The switch of `enviarMensaje`. A payload of another kind than the operation is a read through a
  -- pointer of the wrong type.
  unfoldable pub enviar_carga : OpCode → ℕ → Carga → Option (List ℕ)
  unfolding cadena enviar_new_pokemon enviar_appeared_pokemon enviar_get_pokemon
      enviar_localized_pokemon enviar_catch_pokemon enviar_caught_pokemon
  enviar_carga suscripcion_new id (de_new new) = do
    nombre ← cadena new.pokemon.nombre
    enviar_new_pokemon malloc atoi nombre (string_itoa new.posicion.x) (string_itoa new.posicion.y)
        (string_itoa new.cant) (string_itoa id)
  enviar_carga suscripcion_new id _ = none
  enviar_carga suscripcion_appeared id (de_appeared app) = do
    nombre ← cadena app.pokemon.nombre
    enviar_appeared_pokemon malloc atoi nombre (string_itoa app.posicion.x)
        (string_itoa app.posicion.y) (string_itoa id)
  enviar_carga suscripcion_appeared id _ = none
  enviar_carga suscripcion_get id (de_get get) = do
    nombre ← cadena get.pokemon.nombre
    enviar_get_pokemon malloc atoi nombre (string_itoa id)
  enviar_carga suscripcion_get id _ = none
  enviar_carga suscripcion_localized id (de_localized loc) =
      enviar_localized_pokemon malloc loc.pokemon loc.lista_posiciones id
  enviar_carga suscripcion_localized id _ = none
  enviar_carga suscripcion_catch id (de_catch catch) = do
    nombre ← cadena catch.pokemon.nombre
    enviar_catch_pokemon malloc atoi nombre (string_itoa catch.posicion.x)
        (string_itoa catch.posicion.y) (string_itoa id)
  enviar_carga suscripcion_catch id _ = none
  enviar_carga suscripcion_caught id (de_caught caught) =
      enviar_caught_pokemon malloc atoi sin_iniciar (string_itoa id)
        (string_itoa caught.fue_atrapado)
  enviar_carga suscripcion_caught id _ = none
  enviar_carga _ id carga = some []

  -- Whether the switch has a case for the operation: each of them renews the ids under LRU.
  unfoldable pub enviar_mensaje :
      Configuracion → Cola → InfoMensaje → Memoria → Option (List ℕ × Memoria)
  unfolding enviar_carga suscripcion_de id_a_enviar usar
  enviar_mensaje c cola mensaje m = do
    enviado ← enviar_carga (suscripcion_de cola) (id_a_enviar mensaje) mensaje.mensaje
    some (enviado, usar c mensaje m)
