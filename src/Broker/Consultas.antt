-- ===== src/Broker/Consultas.antt =====
-- Broker/src/Broker.c: the look-ups in the lists of messages and subscribers. A message is the
-- index of its entry; `none` as the value of a step is the read through a NULL pointer.
use sistemas_operativos_utn.Base.{
  ℕ, suc, Bool, true, false, Option, none, some, List, [], ◌∷◌, ◌==◌, get_elem?, if◌then◌else◌,
  ◌>>=◌,
}
use sistemas_operativos_utn.Sockets.Codigos.{
  OpCode, suscripcion_new, suscripcion_appeared, suscripcion_catch, suscripcion_caught,
  suscripcion_get, suscripcion_localized, new_pokemon, appeared_pokemon, catch_pokemon,
  caught_pokemon, get_pokemon, localized_pokemon,
}
use sistemas_operativos_utn.Particiones.Tabla.{Particion}
use sistemas_operativos_utn.Broker.Estado.{Suscriptor, InfoMensaje, mismo_codigo}

unfoldable pub es_el_mensaje : InfoMensaje → ℕ → Bool
es_el_mensaje mensaje id_mensaje = mensaje.id_mensaje == id_mensaje

-- `list_filter` over the messages: the indices of those that have the id, from index `i` on.
unfoldable pub con_ese_id : ℕ → ℕ → List InfoMensaje → List ℕ
unfolding es_el_mensaje
con_ese_id id_mensaje i [] = []
con_ese_id id_mensaje i (m ∷ ms) =
    let resto = con_ese_id id_mensaje (suc i) ms in
    if es_el_mensaje m id_mensaje then i ∷ resto else resto

-- NULL unless exactly one message has the id.
unfoldable pub unico : List ℕ → Option ℕ
unico [] = none
unico (i ∷ []) = some i
unico (i ∷ (j ∷ is)) = none

unfoldable pub obtener_mensaje : ℕ → List InfoMensaje → Option ℕ
unfolding unico con_ese_id
obtener_mensaje id_mensaje mensajes = unico (con_ese_id id_mensaje 0 mensajes)

unfoldable pub es_el_suscriptor : Suscriptor → ℕ → Bool
es_el_suscriptor suscriptor id_proceso = suscriptor.id == id_proceso

-- The loop of `recibioMensaje`.
unfoldable pub esta_entre : ℕ → List Suscriptor → Bool
esta_entre id_proceso [] = false
esta_entre id_proceso (s ∷ ss) = if s.id == id_proceso then true else esta_entre id_proceso ss

unfoldable pub recibio_mensaje : ℕ → ℕ → List InfoMensaje → Option Bool
unfolding obtener_mensaje esta_entre
recibio_mensaje id_proceso id_mensaje mensajes = do
  i ← obtener_mensaje id_mensaje mensajes
  mensaje ← get_elem? mensajes i
  some (esta_entre id_proceso mensaje.suscriptores_que_recibieron)

-- The code -1 of a free partition is no operation.
unfoldable pub mensaje_cacheado_de_operacion : Particion → OpCode → Bool
unfolding mismo_codigo
mensaje_cacheado_de_operacion p operacion = elim p.codigo_operacion [
  | none ↦ false
  | some op ↦ mismo_codigo op operacion
]

unfoldable pub get_mensajes_cacheados_de_operacion : OpCode → List Particion → List Particion
unfolding mensaje_cacheado_de_operacion
get_mensajes_cacheados_de_operacion operacion [] = []
get_mensajes_cacheados_de_operacion operacion (p ∷ ps) =
    let resto = get_mensajes_cacheados_de_operacion operacion ps in
    if mensaje_cacheado_de_operacion p operacion then p ∷ resto else resto

-- The switch of `getMensajesAEnviar`; for another operation the variable is never set.
unfoldable pub tipo_mensaje_a_buscar : OpCode → OpCode → OpCode
tipo_mensaje_a_buscar sin_iniciar suscripcion_new = new_pokemon
tipo_mensaje_a_buscar sin_iniciar suscripcion_appeared = appeared_pokemon
tipo_mensaje_a_buscar sin_iniciar suscripcion_catch = catch_pokemon
tipo_mensaje_a_buscar sin_iniciar suscripcion_caught = caught_pokemon
tipo_mensaje_a_buscar sin_iniciar suscripcion_get = get_pokemon
tipo_mensaje_a_buscar sin_iniciar suscripcion_localized = localized_pokemon
tipo_mensaje_a_buscar sin_iniciar _ = sin_iniciar

-- Its loop over the partitions.
unfoldable pub sin_recibir : ℕ → List InfoMensaje → List Particion → Option (List ℕ)
unfolding recibio_mensaje obtener_mensaje
sin_recibir id_proceso mensajes [] = some []
sin_recibir id_proceso mensajes (p ∷ ps) = do
  recibio ← recibio_mensaje id_proceso p.id_mensaje mensajes
  resto ← sin_recibir id_proceso mensajes ps
  (if recibio then some resto else (do i ← obtener_mensaje p.id_mensaje mensajes; some (i ∷ resto)))

unfoldable pub get_mensajes_a_enviar :
    OpCode → OpCode → ℕ → List InfoMensaje → List Particion → Option (List ℕ)
unfolding sin_recibir get_mensajes_cacheados_de_operacion tipo_mensaje_a_buscar
get_mensajes_a_enviar sin_iniciar operacion id_proceso mensajes tabla =
    sin_recibir id_proceso mensajes
      (get_mensajes_cacheados_de_operacion (tipo_mensaje_a_buscar sin_iniciar operacion) tabla)

-- `list_filter` over the subscribers.
unfoldable pub suscripciones : ℕ → List Suscriptor → List Suscriptor
unfolding es_el_suscriptor
suscripciones id_proceso [] = []
suscripciones id_proceso (s ∷ ss) =
    let resto = suscripciones id_proceso ss in
    if es_el_suscriptor s id_proceso then s ∷ resto else resto

-- The loop of the two functions below.
unfoldable pub de_operacion : OpCode → List Suscriptor → Option Suscriptor
unfolding mismo_codigo
de_operacion operacion [] = none
de_operacion operacion (s ∷ ss) =
    if mismo_codigo s.op_code operacion then some s else de_operacion operacion ss

unfoldable pub obtener_suscriptor : ℕ → OpCode → List Suscriptor → Option Suscriptor
unfolding suscripciones de_operacion
obtener_suscriptor id_proceso operacion suscriptores =
    de_operacion operacion (suscripciones id_proceso suscriptores)

unfoldable pub hay_suscriptor : Option Suscriptor → Bool
hay_suscriptor none = false
hay_suscriptor (some s) = true

unfoldable pub proceso_suscripto_a_cola : OpCode → ℕ → List Suscriptor → Bool
unfolding obtener_suscriptor hay_suscriptor
proceso_suscripto_a_cola operacion id_proceso suscriptores =
    hay_suscriptor (obtener_suscriptor id_proceso operacion suscriptores)
