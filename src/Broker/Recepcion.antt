-- ===== src/Broker/Recepcion.antt =====
-- Broker/src/Broker.c: a message that arrives is read from the connection, entered in the list,
-- stored in the memory and acknowledged (`recibirMensaje*`, `guardarMensajeEnCache`,
-- `manejoMensaje`).
use sistemas_operativos_utn.Base.{
  ℕ, suc, ◌+◌, Bool, not, Option, none, some, List, [], ◌∷◌, ◌++◌, ◌==◌, length, get_elem?,
  if◌then◌else◌, ◌>>=◌,
}
use sistemas_operativos_utn.Universo.{Posicion}
use sistemas_operativos_utn.Sockets.Codigos.{
  OpCode, new_pokemon, appeared_pokemon, catch_pokemon, caught_pokemon, get_pokemon,
  localized_pokemon,
}
use sistemas_operativos_utn.Sockets.Deserializacion.{
  deserializar_paquete_new, deserializar_paquete_appeared, deserializar_paquete_catch,
  deserializar_paquete_get, deserializar_paquete_caught, deserializar_paquete_localized,
}
use sistemas_operativos_utn.Sockets.Envio.{enviar_ack}
use sistemas_operativos_utn.Particiones.Tabla.{Memoria}
use sistemas_operativos_utn.Particiones.Dinamica.{
  Resultado, guardado, sin_lugar, no_implementado, fallo, sin_combustible,
  algoritmo_particion_dinamica,
}
use sistemas_operativos_utn.Particiones.Buddy.{algoritmo_buddy_system}
use sistemas_operativos_utn.Broker.Estado.{
  Cola, cola_new, cola_appeared, cola_get, cola_localized, cola_catch, cola_caught, suscripcion_de,
  mensaje_de, mismo_codigo, Carga, de_new, de_appeared, de_get, de_localized, de_catch, de_caught,
  Suscriptor, InfoMensaje, para_memoria, bs, particiones, Configuracion, Broker, modificar, postear,
}
use sistemas_operativos_utn.Broker.Tamanios.{
  get_size_mensaje_new, get_size_mensaje_appeared, get_size_mensaje_get, get_size_mensaje_localized,
  get_size_mensaje_catch, get_size_mensaje_caught,
}

-- The increment and the read, with no other thread between them.
unfoldable pub get_id : ℕ → ℕ × ℕ
get_id id_mensaje_global = (suc id_mensaje_global, suc id_mensaje_global)

-- How often a message posts to a semaphore of its queue: for each subscriber of the queue, the last
-- in the list left out, and once more.
unfoldable pub posts : OpCode → List Suscriptor → ℕ
unfolding mismo_codigo
posts suscripcion [] = 1
posts suscripcion (s ∷ []) = 1
posts suscripcion (s ∷ (r ∷ rs)) =
    (if mismo_codigo s.op_code suscripcion then 1 else 0) + posts suscripcion (r ∷ rs)

-- With no other thread in between: the message with its new id at the end of the list, and the posts
-- to `nuevoMensaje*`. The value is the index of the message.
unfoldable pub registrar : Cola → Carga → ℕ → Broker → ℕ × Broker
unfolding get_id posts postear suscripcion_de mensaje_de
registrar cola carga size_msg b =
    let (id, contador) = get_id b.id_mensaje_global in
    let mensaje : InfoMensaje = record {
      op_code = mensaje_de cola;
      id_mensaje = id;
      id_mensaje_correlativo = 0;
      process_id = 1;
      mensaje = carga;
      size_msg = size_msg;
      suscriptores_a_los_que_se_envio = [];
      suscriptores_que_recibieron = [];
    } in
    (
      length b.list_mensajes,
      record b {
        list_mensajes = b.list_mensajes ++ (mensaje ∷ []);
        id_mensaje_global = contador;
        nuevo_mensaje =
            postear cola (posts (suscripcion_de cola) b.list_suscriptores) b.nuevo_mensaje;
      },
    )

unfoldable pub recibir_mensaje_new : List ℕ → Broker → Option (ℕ × Broker)
unfolding registrar deserializar_paquete_new get_size_mensaje_new
recibir_mensaje_new s b = do
  (new, resto) ← deserializar_paquete_new s
  some (registrar cola_new (de_new new) (get_size_mensaje_new new) b)

unfoldable pub recibir_mensaje_appeared : List ℕ → Broker → Option (ℕ × Broker)
unfolding registrar deserializar_paquete_appeared get_size_mensaje_appeared
recibir_mensaje_appeared s b = do
  (app, resto) ← deserializar_paquete_appeared s
  some (registrar cola_appeared (de_appeared app) (get_size_mensaje_appeared app) b)

unfoldable pub recibir_mensaje_get : List ℕ → Broker → Option (ℕ × Broker)
unfolding registrar deserializar_paquete_get get_size_mensaje_get
recibir_mensaje_get s b = do
  (get, resto) ← deserializar_paquete_get s
  some (registrar cola_get (de_get get) (get_size_mensaje_get get) b)

unfoldable pub recibir_mensaje_localized : Posicion → List ℕ → Broker → Option (ℕ × Broker)
unfolding registrar deserializar_paquete_localized get_size_mensaje_localized
recibir_mensaje_localized sin_iniciar s b = do
  (loc, resto) ← deserializar_paquete_localized sin_iniciar s
  some (registrar cola_localized (de_localized loc) (get_size_mensaje_localized loc) b)

unfoldable pub recibir_mensaje_catch : List ℕ → Broker → Option (ℕ × Broker)
unfolding registrar deserializar_paquete_catch get_size_mensaje_catch
recibir_mensaje_catch s b = do
  (catch, resto) ← deserializar_paquete_catch s
  some (registrar cola_catch (de_catch catch) (get_size_mensaje_catch catch) b)

unfoldable pub recibir_mensaje_caught : ℕ → List ℕ → Broker → Option (ℕ × Broker)
unfolding registrar deserializar_paquete_caught get_size_mensaje_caught
recibir_mensaje_caught sizeof_size_t s b = do
  (caught, resto) ← deserializar_paquete_caught s
  some (registrar cola_caught (de_caught caught) (get_size_mensaje_caught sizeof_size_t caught) b)

unfoldable pub es_correlativo : ℕ → Bool
es_correlativo id_mensaje = not (id_mensaje == 0)

unfoldable pub guardar_mensaje_en_cache : Configuracion → InfoMensaje → Memoria → Resultado
unfolding algoritmo_buddy_system algoritmo_particion_dinamica
guardar_mensaje_en_cache c mensaje m = elim c.alg_memoria [
  | bs ↦ algoritmo_buddy_system c.size_min_particion (para_memoria mensaje) c.alg_reemplazo m
  | particiones ↦
      algoritmo_particion_dinamica c.size_min_particion (para_memoria mensaje)
        c.frecuencia_compactacion c.alg_reemplazo c.alg_particion_libre m
]

-- The memory that the call leaves; `none` is the fault.
unfoldable pub memoria_tras : Resultado → Option Memoria
memoria_tras (guardado m) = some m
memoria_tras (sin_lugar m) = some m
memoria_tras (no_implementado m) = some m
memoria_tras fallo = none
memoria_tras sin_combustible = none

abbrev pub con_correlativo : ℕ → InfoMensaje → InfoMensaje
con_correlativo id mensaje = record mensaje { id_mensaje_correlativo = id }

-- What each case of the switch does after the message was received: the correlative id, the store,
-- and the posts to `primer*`.
unfoldable pub manejo_caso : Configuracion → Cola → ℕ → ℕ × Broker → Option (ℕ × Broker)
unfolding es_correlativo modificar guardar_mensaje_en_cache memoria_tras posts postear
    suscripcion_de
manejo_caso c cola id_mensaje (i, b) =
    let mensajes =
      if es_correlativo id_mensaje
      then modificar i (con_correlativo id_mensaje) b.list_mensajes
      else b.list_mensajes in
    do
      mensaje ← get_elem? mensajes i
      m' ← memoria_tras (guardar_mensaje_en_cache c mensaje b.memoria)
      some (
        i,
        record b {
          list_mensajes = mensajes;
          memoria = m';
          primer = postear cola (posts (suscripcion_de cola) b.list_suscriptores) b.primer;
        },
      )

abbrev pub con_proceso : ℕ → InfoMensaje → InfoMensaje
con_proceso id mensaje = record mensaje { process_id = id }

-- What the machine gives: the blocks of the heap, `sizeof(size_t)`, and what an unset position
-- holds.
module _ (malloc : ℕ → List ℕ) (sizeof_size_t : ℕ) (sin_iniciar : Posicion) where
  -- The switch; in its default case the message is never set.
  unfoldable pub manejo_operacion :
      Configuracion → OpCode → ℕ → List ℕ → Broker → Option (ℕ × Broker)
  unfolding manejo_caso recibir_mensaje_new recibir_mensaje_appeared recibir_mensaje_get
      recibir_mensaje_localized recibir_mensaje_catch recibir_mensaje_caught
  manejo_operacion c new_pokemon id s b = recibir_mensaje_new s b >>= manejo_caso c cola_new id
  manejo_operacion c appeared_pokemon id s b =
      recibir_mensaje_appeared s b >>= manejo_caso c cola_appeared id
  manejo_operacion c get_pokemon id s b = recibir_mensaje_get s b >>= manejo_caso c cola_get id
  manejo_operacion c localized_pokemon id s b =
      recibir_mensaje_localized sin_iniciar s b >>= manejo_caso c cola_localized id
  manejo_operacion c catch_pokemon id s b =
      recibir_mensaje_catch s b >>= manejo_caso c cola_catch id
  manejo_operacion c caught_pokemon id s b =
      recibir_mensaje_caught sizeof_size_t s b >>= manejo_caso c cola_caught id
  manejo_operacion c _ id s b = none

  -- The whole handler: the state that it leaves, and the bytes of its ACK.
  unfoldable pub manejo_mensaje :
      Configuracion → ℕ → OpCode → ℕ → List ℕ → Broker → Option (Broker × List ℕ)
  unfolding manejo_operacion modificar enviar_ack
  manejo_mensaje c id_proceso operacion id_mensaje s b = do
    (i, b1) ← manejo_operacion c operacion id_mensaje s b
    mensaje ← get_elem? b1.list_mensajes i
    enviado ← enviar_ack malloc mensaje.id_mensaje
    some (
      record b1 { list_mensajes = modificar i (con_proceso id_proceso) b1.list_mensajes },
      enviado,
    )
