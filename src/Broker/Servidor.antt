-- ===== src/Broker/Servidor.antt =====
-- Broker/src/Broker.c: the start of the Broker, what `main` does with a connection, and the dump of
-- the memory.
use sistemas_operativos_utn.Base.{
  ℕ, suc, ◌+◌, Bool, false, Option, none, some, List, [], ◌∷◌, ◌==◌, ℤ, if◌then◌else◌, ◌>>=◌,
}
use sistemas_operativos_utn.Sockets.Codigos.{
  OpCode, codigo, suscripcion_new, suscripcion_appeared, suscripcion_catch, suscripcion_caught,
  suscripcion_get, suscripcion_localized, new_pokemon, appeared_pokemon, catch_pokemon,
  caught_pokemon, get_pokemon, localized_pokemon, handshake,
}
use sistemas_operativos_utn.Sockets.Bytes.{recv_entero}
use sistemas_operativos_utn.Sockets.Envio.{iguales, enviar_ack}
use sistemas_operativos_utn.Particiones.Tabla.{Particion, Memoria, crear_particion}
use sistemas_operativos_utn.Particiones.Liberacion.{fifo, lru}
use sistemas_operativos_utn.Particiones.Dinamica.{ff, bf}
use sistemas_operativos_utn.Broker.Estado.{
  Cola, cola_new, cola_appeared, cola_get, cola_localized, cola_catch, cola_caught, bs, particiones,
  Configuracion, Broker,
}

-- The values of the configuration file that `iniciarBroker` reads. The texts are C strings; the
-- frequency may be negative.
pub record Valores : Type 0 where
  pub tamano_memoria : List ℕ
  pub tamano_minimo_particion : List ℕ
  pub algoritmo_memoria : List ℕ
  pub algoritmo_reemplazo : List ℕ
  pub algoritmo_particion_libre : List ℕ
  pub frecuencia_compactacion : List ℕ

module _ (atoi : List ℕ → ℕ) (atoi_entero : List ℕ → ℤ) where
  unfoldable pub leer_configuracion : Valores → Configuracion
  unfolding iguales
  leer_configuracion v = record {
    size_memoria = atoi v.tamano_memoria;
    size_min_particion = atoi v.tamano_minimo_particion;
    alg_memoria = if iguales v.algoritmo_memoria (b'B' ∷ (b'S' ∷ [])) then bs else particiones;
    alg_reemplazo =
        if iguales v.algoritmo_reemplazo (b'F' ∷ (b'I' ∷ (b'F' ∷ (b'O' ∷ [])))) then fifo else lru;
    alg_particion_libre =
        if iguales v.algoritmo_particion_libre (b'F' ∷ (b'F' ∷ [])) then ff else bf;
    frecuencia_compactacion = atoi_entero v.frecuencia_compactacion;
  }

-- The memory and the lists at the start: one free partition, no message and no subscriber.
unfoldable pub iniciar_broker : Configuracion → Broker
unfolding crear_particion
iniciar_broker c =
    let sin_tabla : Memoria = record { tabla = []; id_particion = 0 } in
    let (inicial, m) = crear_particion sin_tabla 0 c.size_memoria false in
    record {
      list_mensajes = [];
      list_suscriptores = [];
      id_mensaje_global = 0;
      memoria = record m { tabla = inicial ∷ [] };
      nuevo_mensaje = λ cola. 0;
      primer = λ cola. 0;
    }

-- What `main` does with a connection: it starts one of the threads, with what the connection still
-- has, or nothing.
pub data Conexion : Type 0 where
  hilo_suscripcion : Cola → ℕ → List ℕ → Conexion
  hilo_mensaje : OpCode → ℕ → ℕ → List ℕ → Conexion
  sin_hilo : Conexion

-- A `recv` into a variable whose result is not looked at: the variable stays as it was where the
-- connection has ended.
unfoldable pub recv_en : ℕ → List ℕ → ℕ × List ℕ
unfolding recv_entero
recv_en variable s = elim (recv_entero s) [ none ↦ (variable, []) | some r ↦ r ]

-- The cases of the switch.
abbrev pub operaciones : List OpCode
operaciones =
    suscripcion_new
    ∷ (suscripcion_appeared
        ∷ (suscripcion_get
            ∷ (suscripcion_localized
                ∷ (suscripcion_catch
                    ∷ (suscripcion_caught
                        ∷ (new_pokemon
                            ∷ (appeared_pokemon
                                ∷ (get_pokemon
                                    ∷ (localized_pokemon
                                        ∷ (catch_pokemon ∷ (caught_pokemon ∷ [])))))))))))

unfoldable pub caso_de : ℕ → List OpCode → Option OpCode
unfolding codigo
caso_de operacion [] = none
caso_de operacion (op ∷ ops) =
    let resto = caso_de operacion ops in if operacion == codigo op then some op else resto

unfoldable pub lanzar : Option OpCode → ℕ → ℕ → List ℕ → Conexion
lanzar (some suscripcion_new) id_proceso id s = hilo_suscripcion cola_new id_proceso s
lanzar (some suscripcion_appeared) id_proceso id s = hilo_suscripcion cola_appeared id_proceso s
lanzar (some suscripcion_get) id_proceso id s = hilo_suscripcion cola_get id_proceso s
lanzar (some suscripcion_localized) id_proceso id s = hilo_suscripcion cola_localized id_proceso s
lanzar (some suscripcion_catch) id_proceso id s = hilo_suscripcion cola_catch id_proceso s
lanzar (some suscripcion_caught) id_proceso id s = hilo_suscripcion cola_caught id_proceso s
lanzar (some op) id_proceso id s = hilo_mensaje op id_proceso id s
lanzar none id_proceso id s = sin_hilo

-- The second half: the operation behind the handshake, its size and its id.
unfoldable pub atender_operacion : ℕ → List ℕ → Conexion
unfolding recv_entero recv_en lanzar caso_de
atender_operacion id_proceso s = elim (recv_entero s) [
  | none ↦ sin_hilo
  | some (operacion, s1) ↦
      let (tamanio, s2) = recv_en 0 s1 in
      let (id_mensaje, s3) = recv_en 0 s2 in
      lanzar (caso_de operacion operaciones) id_proceso id_mensaje s3
]

-- The body of the loop of `main` for a connection: the bytes that it sends, which are the ACK of
-- the handshake, and the thread.
module _ (malloc : ℕ → List ℕ) where
  unfoldable pub atender : List ℕ → Option (List ℕ × Conexion)
  unfolding recv_entero recv_en atender_operacion codigo enviar_ack
  atender s = elim (recv_entero s) [
    | none ↦ some ([], sin_hilo)
    | some (operacion, s1) ↦
        let (tamanio, s2) = recv_en 0 s1 in
        let (id_proceso, s3) = recv_en 0 s2 in
        if operacion == codigo handshake
        then (do enviado ← enviar_ack malloc 0; some (enviado, atender_operacion id_proceso s3))
        else some ([], sin_hilo)
  ]

-- A line of the dump: the number of the partition, its first and its last address, whether its
-- state is `X`, its queue (`none` is `VACIA`), and the other numbers.
pub record Linea : Type 0 where
  pub particion : ℕ
  pub desde : ℕ
  pub hasta : ℕ
  pub ocupada : Bool
  pub size : ℕ
  pub lru : ℕ
  pub cola : Option Cola
  pub id_mensaje : ℕ

unfoldable pub cola_de : Option OpCode → Option Cola
cola_de (some new_pokemon) = some cola_new
cola_de (some appeared_pokemon) = some cola_appeared
cola_de (some get_pokemon) = some cola_get
cola_de (some localized_pokemon) = some cola_localized
cola_de (some catch_pokemon) = some cola_catch
cola_de (some caught_pokemon) = some cola_caught
cola_de _ = none

-- The loop, from the partition `i` on.
unfoldable pub dump_desde : ℕ → ℕ → List Particion → List Linea
unfolding cola_de
dump_desde inicio_memoria i [] = []
dump_desde inicio_memoria i (p ∷ ps) =
    record {
      particion = i;
      desde = inicio_memoria + p.posicion_inicial;
      hasta = inicio_memoria + p.posicion_final;
      ocupada = p.ocupada;
      size = p.size;
      lru = p.id;
      cola = cola_de p.codigo_operacion;
      id_mensaje = p.id_mensaje;
    }
    ∷ dump_desde inicio_memoria (suc i) ps

unfoldable pub hacer_dump : ℕ → List Particion → List Linea
unfolding dump_desde
hacer_dump inicio_memoria tabla = dump_desde inicio_memoria 0 tabla
