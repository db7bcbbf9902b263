-- ===== src/Broker/Pasos.antt =====
-- Broker/src/Broker.c: the threads of the Broker as the steps that they take on the shared state,
-- in any order, where no new message is entered. What a mutex or `writer` guards is one step.
-- `actualizarID` is called under no mutex, so that its writes to the ids of the partitions are steps
-- that come at any moment, each alone or some together. That such a write meets a traversal of the
-- table by another thread half way is left out.
use sistemas_operativos_utn.Base.{ℕ, ◌<◌, ◌≤◌, ◌≡◌, some, List, [], ◌∷◌, get_elem?, Todas}
use sistemas_operativos_utn.Particiones.Rastro.Desalojo.{TodasSanas}
use sistemas_operativos_utn.Particiones.Tabla.{Particion, Memoria}
use sistemas_operativos_utn.Broker.Estado.{
  Cola, cola_new, cola_appeared, cola_get, cola_localized, cola_catch, cola_caught, suscripcion_de,
  mensaje_de, Carga, de_new, de_appeared, de_get, de_localized, de_catch, de_caught, Suscriptor,
  InfoMensaje, Configuracion, Broker, modificar,
}
use sistemas_operativos_utn.Broker.Recepcion.{
  con_correlativo, con_proceso, guardar_mensaje_en_cache, memoria_tras,
}
use sistemas_operativos_utn.Broker.Suscripcion.{suscribir, con_envio, con_recepcion}
use sistemas_operativos_utn.Broker.Coherencia.{ids, Registrado}

-- The queue of a payload.
unfoldable pub cola_de_carga : Carga → Cola
cola_de_carga (de_new new) = cola_new
cola_de_carga (de_appeared app) = cola_appeared
cola_de_carga (de_get get) = cola_get
cola_de_carga (de_localized loc) = cola_localized
cola_de_carga (de_catch catch) = cola_catch
cola_de_carga (de_caught caught) = cola_caught

-- Writes to the list of messages alone.
abbrev pub en_mensajes : ℕ → (InfoMensaje → InfoMensaje) → Broker → Broker
en_mensajes i f b = record b { list_mensajes = modificar i f b.list_mensajes }

-- The table, whatever the ids of its partitions.
abbrev pub sin_ids : List Particion → List Particion
sin_ids [] = []
sin_ids (p ∷ ps) = record p { id = 0 } ∷ sin_ids ps

-- One step of some thread.
pub data Paso (c : Configuracion) : Broker → Broker → Type 0 where
  -- `manejoMensaje`: the correlative id, the store, the process.
  correlativo : (i id : ℕ) (b : Broker) → Paso c b (en_mensajes i (con_correlativo id) b)
  guarda :
      (i : ℕ) (mensaje : InfoMensaje) (m : Memoria) (b : Broker)
      → get_elem? b.list_mensajes i ≡ some mensaje
      → memoria_tras (guardar_mensaje_en_cache c mensaje b.memoria) ≡ some m
      → Paso c b (record b { memoria = m })
  proceso : (i id : ℕ) (b : Broker) → Paso c b (en_mensajes i (con_proceso id) b)
  -- `manejoSuscripcion*`: the subscriber, then for each message the new ids that `enviarMensaje`
  -- gives to partitions, and the two lists of the message.
  suscribe :
      (cola : Cola) (p : ℕ) (s : Suscriptor) (b b' : Broker)
      → suscribir (suscripcion_de cola) p b ≡ some (s, b')
      → Paso c b b'
  renueva :
      (m : Memoria) (b : Broker)
      → sin_ids m.tabla ≡ sin_ids b.memoria.tabla
      → Paso c b (record b { memoria = m })
  anota_envio : (i : ℕ) (s : Suscriptor) (b : Broker) → Paso c b (en_mensajes i (con_envio s) b)
  anota_ack : (i : ℕ) (s : Suscriptor) (b : Broker) → Paso c b (en_mensajes i (con_recepcion s) b)
  -- Posts to the semaphores of the queues, and waits that pass.
  semaforos :
      (nuevo primer : Cola → ℕ) (b : Broker)
      → Paso c b (record b { nuevo_mensaje = nuevo; primer = primer })

-- Some steps.
pub data Pasos (c : Configuracion) : Broker → Broker → Type 0 where
  quieto : (b : Broker) → Pasos c b b
  luego : (a b d : Broker) → Pasos c a b → Paso c b d → Pasos c a d

-- The code of a message is the one of its payload.
abbrev pub ConCarga : InfoMensaje → Type 0
ConCarga m = m.op_code ≡ mensaje_de (cola_de_carga m.mensaje)

-- An id that `get_id` gave while the global was no larger than this.
abbrev pub EnRango : ℕ → ℕ → Type 0
EnRango global id = (0 < id) × (id ≤ global)

-- The ids are among those given so far, the partitions lead to messages of the list, and the
-- payloads are of the kind that the codes say.
pub record EsCoherente (b : Broker) : Type 0 where
  pub en_rango : Todas (EnRango b.id_mensaje_global) (ids b.list_mensajes)
  pub registrada : TodasSanas (Registrado b.list_mensajes) b.memoria.tabla
  pub cargas : Todas ConCarga b.list_mensajes
