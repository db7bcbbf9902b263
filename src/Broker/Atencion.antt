-- ===== src/Broker/Atencion.antt =====
-- Broker/src/Broker.c: `manejoMensaje` with the memory of Particiones.c behind it: a message that
-- arrives whole is entered, stored and acknowledged.
use sistemas_operativos_utn.Base.{
  ℕ, zero, suc, ◌≤◌, ◌<◌, ◌^◌, ◌≡◌, ◌≢◌, refl, ap, ◌∙◌, false, Option, some, List, [], ◌∷◌, ◌++◌,
  ◌==◌, arith, length, get_elem?, if◌then◌else◌,
}
use sistemas_operativos_utn.Universo.{Posicion, New}
use sistemas_operativos_utn.Sockets.Codigos.{OpCode, new_pokemon}
use sistemas_operativos_utn.Sockets.Deserializacion.{deserializar_paquete_new}
use sistemas_operativos_utn.Sockets.Envio.{enviar_ack}
use sistemas_operativos_utn.Sockets.Envio.Control.{enviar_control-LlegaCabecera}
use sistemas_operativos_utn.Particiones.Tabla.{Memoria}
use sistemas_operativos_utn.Particiones.Forma.{EsValida}
use sistemas_operativos_utn.Particiones.Liberacion.{otro_reemplazo}
use sistemas_operativos_utn.Particiones.Dinamica.{
  guardado, otro_ajuste, algoritmo_particion_dinamica, tamanio_pedido,
}
use sistemas_operativos_utn.Particiones.Dinamica.Ronda.{Almacena}
use sistemas_operativos_utn.Particiones.Dinamica.Total.{algoritmo_particion_dinamica-Almacena}
use sistemas_operativos_utn.Broker.Estado.{
  Cola, cola_new, suscripcion_de, mensaje_de, de_new, InfoMensaje, para_memoria, particiones,
  Configuracion, Broker, modificar, postear,
}
use sistemas_operativos_utn.Broker.Tamanios.{get_size_mensaje_new}
use sistemas_operativos_utn.Broker.Recepcion.{
  registrar, get_id, posts, es_correlativo, con_correlativo, con_proceso, guardar_mensaje_en_cache,
  memoria_tras, recibir_mensaje_new, manejo_caso, manejo_operacion, manejo_mensaje,
}

get-ultimo :
    (ms : List InfoMensaje) (x : InfoMensaje) → get_elem? (ms ++ (x ∷ [])) (length ms) ≡ some x
get-ultimo [] x = refl
get-ultimo (m ∷ ms) x = get-ultimo ms x

modificar-ultimo :
    (f : InfoMensaje → InfoMensaje) (ms : List InfoMensaje) (x : InfoMensaje)
    → modificar (length ms) f (ms ++ (x ∷ [])) ≡ ms ++ (f x ∷ [])
unfolding modificar
modificar-ultimo f [] x = refl
modificar-ultimo f (m ∷ ms) x = ap (λ y. m ∷ y) (modificar-ultimo f ms x)

-- The test for 0 makes no difference: without a correlative id the field is 0 already.
correlativo_siempre :
    (id : ℕ) (ms : List InfoMensaje) (x : InfoMensaje)
    → x.id_mensaje_correlativo ≡ 0
    → (if es_correlativo id
        then modificar (length ms) (con_correlativo id) (ms ++ (x ∷ []))
        else ms ++ (x ∷ []))
      ≡ ms ++ (con_correlativo id x ∷ [])
unfolding es_correlativo
correlativo_siempre zero ms x e = ap (λ n. ms ++ (con_correlativo n x ∷ [])) e
correlativo_siempre (suc id) ms x e =
    let hay : (suc id == 0) ≡ false = ground arith in
    rw hay (modificar-ultimo (con_correlativo (suc id)) ms x)

manejo_caso_lem :
    (c : Configuracion) (cola : Cola) (id i : ℕ) (b : Broker) (mensajes : List InfoMensaje)
    (mensaje : InfoMensaje) (m : Memoria)
    → (if es_correlativo id
        then modificar i (con_correlativo id) b.list_mensajes
        else b.list_mensajes)
      ≡ mensajes
    → get_elem? mensajes i ≡ some mensaje
    → memoria_tras (guardar_mensaje_en_cache c mensaje b.memoria) ≡ some m
    → manejo_caso c cola id (i, b)
      ≡ some (
        i,
        record b {
          list_mensajes = mensajes;
          memoria = m;
          primer = postear cola (posts (suscripcion_de cola) b.list_suscriptores) b.primer;
        },
      )
unfolding manejo_caso
manejo_caso_lem c cola id i b mensajes mensaje m e g h = rw (e, g, h) refl

guardar_particiones :
    (c : Configuracion) (x : InfoMensaje) (m m' : Memoria)
    → c.alg_memoria ≡ particiones
    → algoritmo_particion_dinamica c.size_min_particion
        (para_memoria x)
        c.frecuencia_compactacion
        c.alg_reemplazo
        c.alg_particion_libre
        m
      ≡ guardado m'
    → memoria_tras (guardar_mensaje_en_cache c x m) ≡ some m'
unfolding guardar_mensaje_en_cache memoria_tras
guardar_particiones c x m m' e g = rw (guardar_mensaje_en_cache, e, g) refl

-- The entry of a NEW_POKEMON that a process sent with this id.
abbrev pub entrada_new : New → ℕ → ℕ → ℕ → InfoMensaje
entrada_new new id correlativo proceso = record {
  op_code = new_pokemon;
  id_mensaje = id;
  id_mensaje_correlativo = correlativo;
  process_id = proceso;
  mensaje = de_new new;
  size_msg = get_size_mensaje_new new;
  suscriptores_a_los_que_se_envio = [];
  suscriptores_que_recibieron = [];
}

-- The thread ends: the message stands at the end of the list with the next id, is in the memory
-- besides those that were not evicted, and its id is acknowledged.
pub record Atendido (malloc : ℕ → List ℕ) (c : Configuracion) (b : Broker) (x : InfoMensaje)
    (r : Option (Broker × List ℕ)) : Type 0 where
  pub despues : Broker
  pub enviado : List ℕ
  pub hecho : r ≡ some (despues, enviado)
  pub acuse : enviar_ack malloc (suc b.id_mensaje_global) ≡ some enviado
  pub entra : despues.list_mensajes ≡ b.list_mensajes ++ (x ∷ [])
  pub contador : despues.id_mensaje_global ≡ suc b.id_mensaje_global
  pub almacenado :
      Almacena c.size_memoria
        (para_memoria x)
        (tamanio_pedido c.size_min_particion (para_memoria x))
        b.memoria
        (guardado despues.memoria)

module _ (malloc : ℕ → List ℕ) (m : (n : ℕ) → length (malloc n) ≡ n) (sizeof_size_t : ℕ)
    (sin_iniciar : Posicion) where
  manejo_operacion_new :
      (c : Configuracion) (id : ℕ) (s : List ℕ) (b : Broker) (new : New) (resto : List ℕ)
      → deserializar_paquete_new s ≡ some (new, resto)
      → manejo_operacion malloc sizeof_size_t sin_iniciar c new_pokemon id s b
        ≡ manejo_caso c cola_new id (registrar cola_new (de_new new) (get_size_mensaje_new new) b)
  unfolding manejo_operacion recibir_mensaje_new
  manejo_operacion_new c id s b new resto d = rw (recibir_mensaje_new, d) refl

  manejo_mensaje_lem :
      (c : Configuracion) (p : ℕ) (operacion : OpCode) (id i : ℕ) (s : List ℕ) (b b2 : Broker)
      (x : InfoMensaje) (e : List ℕ)
      → manejo_operacion malloc sizeof_size_t sin_iniciar c operacion id s b ≡ some (i, b2)
      → get_elem? b2.list_mensajes i ≡ some x
      → enviar_ack malloc x.id_mensaje ≡ some e
      → manejo_mensaje malloc sizeof_size_t sin_iniciar c p operacion id s b
        ≡ some (record b2 { list_mensajes = modificar i (con_proceso p) b2.list_mensajes }, e)
  unfolding manejo_mensaje
  manejo_mensaje_lem c p operacion id i s b b2 x e h g k = rw (h, g, k) refl

  -- With PARTICIONES and settings that `iniciarBroker` reads, on a valid memory: a NEW_POKEMON that
  -- arrives whole, with an id that fits in 32 bits and a size no larger than the memory, is
  -- entered at the end of the list with the next id and the correlative id and the process of the
  -- sender, is stored as `algoritmoParticionDinamica` promises, and is acknowledged with its id.
  pub manejo_mensaje-Atendido :
      (c : Configuracion) (p id : ℕ) (s : List ℕ) (b : Broker) (new : New) (resto : List ℕ)
      → deserializar_paquete_new s ≡ some (new, resto)
      → c.alg_memoria ≡ particiones
      → c.alg_reemplazo ≢ otro_reemplazo
      → c.alg_particion_libre ≢ otro_ajuste
      → EsValida c.size_memoria b.memoria.tabla
      → let x = entrada_new new (suc b.id_mensaje_global) id p in
        0 < tamanio_pedido c.size_min_particion (para_memoria x)
        → tamanio_pedido c.size_min_particion (para_memoria x) ≤ c.size_memoria
        → suc b.id_mensaje_global < 2 ^ 32
        → Atendido malloc c b x
            (manejo_mensaje malloc sizeof_size_t sin_iniciar c p new_pokemon id s b)
  unfolding registrar get_id mensaje_de
  manejo_mensaje-Atendido c p id s b new resto d part re aj v h k cabe =
      let g = b.id_mensaje_global in
      let ms = b.list_mensajes in
      let x1 = entrada_new new (suc g) id 1 in
      let r = registrar cola_new (de_new new) (get_size_mensaje_new new) b in
      let ack = (enviar_control-LlegaCabecera malloc m new_pokemon (suc g) cabe).2 in
      let alm =
        algoritmo_particion_dinamica-Almacena c.size_memoria c.size_min_particion (para_memoria x1)
          c.frecuencia_compactacion c.alg_reemplazo c.alg_particion_libre b.memoria re aj h k v in
      let caso =
        manejo_caso_lem c cola_new id (length ms) r.1 (ms ++ (x1 ∷ [])) x1 alm.m'
          (correlativo_siempre id ms (entrada_new new (suc g) 0 1) refl) (get-ultimo ms x1)
          (guardar_particiones c x1 b.memoria alm.m' part alm.hecho) in
      let operado = manejo_operacion_new c id s b new resto d ∙ caso in
      let b2 = record r.1 {
        list_mensajes = ms ++ (x1 ∷ []);
        memoria = alm.m';
        primer = postear cola_new (posts (suscripcion_de cola_new) b.list_suscriptores) b.primer;
      } in
      record {
        despues = record b2 {
          list_mensajes = modificar (length ms) (con_proceso p) (ms ++ (x1 ∷ []));
        };
        enviado = ack.enviado;
        hecho =
            manejo_mensaje_lem c p new_pokemon id (length ms) s b b2 x1 ack.enviado operado
              (get-ultimo ms x1) ack.hecho;
        acuse = ack.hecho;
        entra = modificar-ultimo (con_proceso p) ms x1;
        contador = refl;
        almacenado = record {
          m' = alm.m';
          hecho = refl;
          valida = alm.valida;
          desalojados = alm.desalojados;
          quedan = alm.quedan;
          desalojos = alm.desalojos;
          inserta = alm.inserta;
        };
      }
