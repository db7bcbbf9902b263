-- ===== src/Broker/Estado.antt =====
-- Broker/src/Broker.h and the globals of Broker.c: the state that the threads of the Broker share.
--
-- Nothing is taken out of `list_mensajes`, so that an `info_mensaje*` is the index of its entry.
-- The twelve semaphores of the queues are two counts for each queue. The mutexes are what makes a
-- step of a thread one step here; the semaphore `writer` and the counter `reader` are left out.
use sistemas_operativos_utn.Base.{ℕ, zero, suc, Bool, List, [], ◌∷◌, ◌==◌, ◌+◌, if◌then◌else◌, ℤ}
use sistemas_operativos_utn.Universo.{New, Localized, Get, Appeared, Catch, Caught}
use sistemas_operativos_utn.Sockets.Codigos.{
  OpCode, codigo, suscripcion_new, suscripcion_appeared, suscripcion_catch, suscripcion_caught,
  suscripcion_get, suscripcion_localized, new_pokemon, appeared_pokemon, catch_pokemon,
  caught_pokemon, get_pokemon, localized_pokemon,
}
use sistemas_operativos_utn.Particiones.Tabla.{Memoria, Mensaje}
use sistemas_operativos_utn.Particiones.Liberacion.{Reemplazo}
use sistemas_operativos_utn.Particiones.Dinamica.{Ajuste}

-- The six queues.
pub data Cola : Type 0 where
  cola_new cola_appeared cola_get cola_localized cola_catch cola_caught : Cola

-- `SUSCRIPCION_*` and `*_POKEMON` of a queue.
unfoldable pub suscripcion_de : Cola → OpCode
suscripcion_de cola_new = suscripcion_new
suscripcion_de cola_appeared = suscripcion_appeared
suscripcion_de cola_get = suscripcion_get
suscripcion_de cola_localized = suscripcion_localized
suscripcion_de cola_catch = suscripcion_catch
suscripcion_de cola_caught = suscripcion_caught

unfoldable pub mensaje_de : Cola → OpCode
mensaje_de cola_new = new_pokemon
mensaje_de cola_appeared = appeared_pokemon
mensaje_de cola_get = get_pokemon
mensaje_de cola_localized = localized_pokemon
mensaje_de cola_catch = catch_pokemon
mensaje_de cola_caught = caught_pokemon

-- `==` of two operation codes.
unfoldable pub mismo_codigo : OpCode → OpCode → Bool
unfolding codigo
mismo_codigo a b = codigo a == codigo b

-- What the `void*` of a message leads to.
pub data Carga : Type 0 where
  de_new : New → Carga
  de_appeared : Appeared → Carga
  de_get : Get → Carga
  de_localized : Localized → Carga
  de_catch : Catch → Carga
  de_caught : Caught → Carga

-- `t_suscriptor`.
pub record Suscriptor : Type 0 where
  pub op_code : OpCode
  pub id : ℕ

-- `info_mensaje`.
pub record InfoMensaje : Type 0 where
  pub op_code : OpCode
  pub id_mensaje : ℕ
  pub id_mensaje_correlativo : ℕ
  pub process_id : ℕ
  pub mensaje : Carga
  pub size_msg : ℕ
  pub suscriptores_a_los_que_se_envio : List Suscriptor
  pub suscriptores_que_recibieron : List Suscriptor

-- The fields that the memory reads.
abbrev pub para_memoria : InfoMensaje → Mensaje
para_memoria i = record { op_code = i.op_code; id_mensaje = i.id_mensaje; size_msg = i.size_msg }

pub data AlgoritmoMemoria : Type 0 where
  bs particiones : AlgoritmoMemoria

-- The globals that `iniciarBroker` reads from the configuration.
pub record Configuracion : Type 0 where
  pub size_memoria : ℕ
  pub size_min_particion : ℕ
  pub alg_memoria : AlgoritmoMemoria
  pub alg_reemplazo : Reemplazo
  pub alg_particion_libre : Ajuste
  pub frecuencia_compactacion : ℤ

pub record Broker : Type 0 where
  pub list_mensajes : List InfoMensaje
  pub list_suscriptores : List Suscriptor
  pub id_mensaje_global : ℕ
  pub memoria : Memoria
  pub nuevo_mensaje : Cola → ℕ
  pub primer : Cola → ℕ

-- A write through the pointer with the index.
unfoldable pub modificar : ℕ → (InfoMensaje → InfoMensaje) → List InfoMensaje → List InfoMensaje
modificar i f [] = []
modificar zero f (m ∷ ms) = f m ∷ ms
modificar (suc i) f (m ∷ ms) = m ∷ modificar i f ms

-- `sem_post` so often on the semaphore of a queue.
unfoldable pub postear : Cola → ℕ → (Cola → ℕ) → Cola → ℕ
unfolding suscripcion_de mismo_codigo
postear c n sem d = if mismo_codigo (suscripcion_de c) (suscripcion_de d) then sem d + n else sem d
