-- ===== src/Broker/Refinamiento.antt =====
-- Broker/src/Broker.c: the thread of a message, run with no other thread in between, takes only the
-- steps of `Sistema`.
use sistemas_operativos_utn.Base.{
  ℕ, suc, ◌≡◌, refl, subst, Option, none, some, List, [], ◌∷◌, get_elem?, if◌then◌else◌, Bool-cases,
  inl, inr, Si, Si->>=, ◌>>=◌,
}
use sistemas_operativos_utn.Universo.{Posicion}
use sistemas_operativos_utn.Sockets.Codigos.{
  OpCode, new_pokemon, appeared_pokemon, catch_pokemon, caught_pokemon, get_pokemon,
  localized_pokemon,
}
use sistemas_operativos_utn.Sockets.Deserializacion.{
  deserializar_paquete_new, deserializar_paquete_appeared, deserializar_paquete_catch,
  deserializar_paquete_get, deserializar_paquete_caught, deserializar_paquete_localized,
}
use sistemas_operativos_utn.Sockets.Envio.{enviar_ack}
use sistemas_operativos_utn.Broker.Estado.{
  Cola, cola_new, cola_appeared, cola_get, cola_localized, cola_catch, cola_caught, suscripcion_de,
  Carga, de_new, de_appeared, de_get, de_localized, de_catch, de_caught, Configuracion, Broker,
  modificar, postear,
}
use sistemas_operativos_utn.Broker.Tamanios.{
  get_size_mensaje_new, get_size_mensaje_appeared, get_size_mensaje_get, get_size_mensaje_localized,
  get_size_mensaje_catch, get_size_mensaje_caught,
}
use sistemas_operativos_utn.Broker.Recepcion.{
  registrar, get_id, posts, es_correlativo, con_correlativo, guardar_mensaje_en_cache, memoria_tras,
  recibir_mensaje_new, recibir_mensaje_appeared, recibir_mensaje_get, recibir_mensaje_localized,
  recibir_mensaje_catch, recibir_mensaje_caught, manejo_caso, manejo_operacion, manejo_mensaje,
}
use sistemas_operativos_utn.Broker.Pasos.{
  cola_de_carga, Paso, correlativo, guarda, proceso, semaforos, Pasos, quieto, luego,
}
use sistemas_operativos_utn.Broker.Sistema.{
  Sistema, en_reposo, mensaje_nuevo, con_mensaje, escribe, cuenta, lee, agrega, Corrida, parada,
  avanza, seguir_tras, Pasos-Corrida,
}

-- A step of a chain, with what it gave.
pub tras_paso {ℓ} :
    {A : Type ℓ} {B : Type ℓ} (Q : B → Type 0) (m : Option A) (f : A → Option B)
    → ((a : A) → m ≡ some a → Si Q (f a))
    → Si Q (m >>= f)
tras_paso Q none f h = tt
tras_paso Q (some a) f h = h a refl

pub uno : (c : Configuracion) (a b : Broker) → Paso c a b → Pasos c a b
uno c a b p = luego a a b (quieto a) p

pub encadenar : (c : Configuracion) (a b d : Broker) → Pasos c a b → Pasos c b d → Pasos c a d
encadenar c a _ _ ps (quieto b) = ps
encadenar c a _ _ ps (luego b d e qs p) = luego a d e (encadenar c a b d ps qs) p

correlativo-Pasos :
    (c : Configuracion) (i id : ℕ) (b : Broker)
    → Pasos c b (record b {
      list_mensajes =
          if es_correlativo id
          then modificar i (con_correlativo id) b.list_mensajes
          else b.list_mensajes;
    })
correlativo-Pasos c i id b = elim (Bool-cases (es_correlativo id)) [
  | inl e ↦ rw e (uno c b _ (correlativo i id b))
  | inr e ↦ rw e (quieto b)
]

-- The value of a chain is a state that the steps lead to, beside another value.
abbrev Lleva : {A : Type 0} → Configuracion → Broker → A × Broker → Type 0
Lleva c b r = Pasos c b r.1

manejo_caso-Lleva :
    (c : Configuracion) (cola : Cola) (id i : ℕ) (b : Broker)
    → Si (Lleva c b) (manejo_caso c cola id (i, b))
unfolding manejo_caso
manejo_caso-Lleva c cola id i b =
    let mensajes =
      if es_correlativo id
      then modificar i (con_correlativo id) b.list_mensajes
      else b.list_mensajes in
    tras_paso (Lleva c b) (get_elem? mensajes i) _ (λ mensaje e.
      tras_paso (Lleva c b) (memoria_tras (guardar_mensaje_en_cache c mensaje b.memoria)) _ (λ m g.
        luego b (record b { list_mensajes = mensajes; memoria = m }) _
          (luego b (record b { list_mensajes = mensajes }) _ (correlativo-Pasos c i id b)
            (guarda i mensaje m (record b { list_mensajes = mensajes }) e g))
          (semaforos b.nuevo_mensaje
            (postear cola (posts (suscripcion_de cola) b.list_suscriptores) b.primer)
            (record b { list_mensajes = mensajes; memoria = m }))))

-- `recibirMensaje*` with no other thread in between: the id is counted, read and entered.
registrar-Corrida :
    (c : Configuracion) (carga : Carga) (size_msg : ℕ) (b : Broker)
    → Corrida c (en_reposo b) (en_reposo (registrar (cola_de_carga carga) carga size_msg b).1)
unfolding registrar get_id
registrar-Corrida c carga size_msg b =
    let id = suc b.id_mensaje_global in
    let contado = record b { id_mensaje_global = id } in
    let agregado = con_mensaje (mensaje_nuevo carga size_msg id) contado in
    let s1 : Sistema = record { broker = contado; contados = 1; leidos = [] } in
    let s2 : Sistema = record { broker = contado; contados = 0; leidos = id ∷ [] } in
    let cola = cola_de_carga carga in
    avanza _ (en_reposo agregado) _
      (avanza _ s2 _
        (avanza _ s1 _ (avanza _ _ _ (parada (en_reposo b)) (cuenta (en_reposo b))) (lee s1 0 refl))
        (agrega s2 0 id carga size_msg refl))
      (escribe (en_reposo agregado) _ (
        semaforos (postear cola (posts (suscripcion_de cola) b.list_suscriptores) b.nuevo_mensaje)
          b.primer agregado))

-- The value of a chain is a state to which threads lead that enter messages too.
abbrev Corre : {A : Type 0} → Configuracion → Broker → A × Broker → Type 0
Corre c b r = Corrida c (en_reposo b) (en_reposo r.1)

-- A payload that was read, entered and handled.
caso-Corre :
    (c : Configuracion) (carga : Carga) (size_msg id : ℕ) (b : Broker)
    → Si
        (Corre c b)
        (manejo_caso c (cola_de_carga carga) id (registrar (cola_de_carga carga) carga size_msg b))
caso-Corre c carga size_msg id b =
    let r = registrar (cola_de_carga carga) carga size_msg b in
    Si-seguir (manejo_caso c (cola_de_carga carga) id r)
      (manejo_caso-Lleva c (cola_de_carga carga) id (r.0) (r.1))
  where
    Si-seguir :
        (m : Option (ℕ × Broker))
        → Si (Lleva c ((registrar (cola_de_carga carga) carga size_msg b).1)) m
        → Si (Corre c b) m
    Si-seguir none h = tt
    Si-seguir (some r) h =
        seguir_tras c _ _ _ (registrar-Corrida c carga size_msg b) (Pasos-Corrida c _ _ h)

leido-Corre :
    {A : Type 0} (c : Configuracion) (d : Option (A × List ℕ)) (envolver : A → Carga)
    (size_msg : A → ℕ) (cola : Cola) (id : ℕ) (b : Broker)
    → ((a : A) → cola_de_carga (envolver a) ≡ cola)
    → Si (Corre c b) (
        (do (a, resto) ← d; some (registrar cola (envolver a) (size_msg a) b))
        >>= manejo_caso c cola id)
leido-Corre c none envolver size_msg cola id b h = tt
leido-Corre c (some (a, resto)) envolver size_msg cola id b h =
    subst (λ k. Si (Corre c b) (manejo_caso c k id (registrar k (envolver a) (size_msg a) b))) (h a)
      (caso-Corre c (envolver a) (size_msg a) id b)

module _ (malloc : ℕ → List ℕ) (sizeof_size_t : ℕ) (sin_iniciar : Posicion) where
  manejo_operacion-Corre :
      (c : Configuracion) (operacion : OpCode) (id : ℕ) (s : List ℕ) (b : Broker)
      → Si (Corre c b) (manejo_operacion malloc sizeof_size_t sin_iniciar c operacion id s b)
  unfolding manejo_operacion recibir_mensaje_new recibir_mensaje_appeared recibir_mensaje_get
      recibir_mensaje_localized recibir_mensaje_catch recibir_mensaje_caught cola_de_carga
  manejo_operacion-Corre c new_pokemon id s b =
      leido-Corre c (deserializar_paquete_new s) de_new get_size_mensaje_new cola_new id b
        (λ a. refl)
  manejo_operacion-Corre c appeared_pokemon id s b =
      leido-Corre c (deserializar_paquete_appeared s) de_appeared get_size_mensaje_appeared
        cola_appeared id b (λ a. refl)
  manejo_operacion-Corre c get_pokemon id s b =
      leido-Corre c (deserializar_paquete_get s) de_get get_size_mensaje_get cola_get id b
        (λ a. refl)
  manejo_operacion-Corre c localized_pokemon id s b =
      leido-Corre c (deserializar_paquete_localized sin_iniciar s) de_localized
        get_size_mensaje_localized cola_localized id b (λ a. refl)
  manejo_operacion-Corre c catch_pokemon id s b =
      leido-Corre c (deserializar_paquete_catch s) de_catch get_size_mensaje_catch cola_catch id b
        (λ a. refl)
  manejo_operacion-Corre c caught_pokemon id s b =
      leido-Corre c (deserializar_paquete_caught s) de_caught
        (get_size_mensaje_caught sizeof_size_t) cola_caught id b (λ a. refl)
  manejo_operacion-Corre c _ id s b = tt

  manejo_mensaje-Corre :
      (c : Configuracion) (id_proceso : ℕ) (operacion : OpCode) (id : ℕ) (s : List ℕ) (b : Broker)
      → Si
          (λ (r : Broker × List ℕ). Corrida c (en_reposo b) (en_reposo r.0))
          (manejo_mensaje malloc sizeof_size_t sin_iniciar c id_proceso operacion id s b)
  unfolding manejo_mensaje
  manejo_mensaje-Corre c id_proceso operacion id s b =
      let llega = λ (r : Broker × List ℕ). Corrida c (en_reposo b) (en_reposo r.0) in
      Si->>= (Corre c b) llega
        (manejo_operacion malloc sizeof_size_t sin_iniciar c operacion id s b) _
        (manejo_operacion-Corre c operacion id s b)
        (λ r ps. tras_paso llega (get_elem? r.1.list_mensajes r.0) _ (λ mensaje e.
          tras_paso llega (enviar_ack malloc mensaje.id_mensaje) _ (λ enviado g.
            avanza _ _ _ ps (escribe (en_reposo r.1) _ (proceso r.0 id_proceso r.1)))))

  -- When `manejoMensaje` answers, what it did to the shared state is a sequence of the
  -- steps.
  pub manejo_mensaje-Corrida :
      (c : Configuracion) (id_proceso : ℕ) (operacion : OpCode) (id : ℕ) (s : List ℕ)
      (b b' : Broker) (enviado : List ℕ)
      → manejo_mensaje malloc sizeof_size_t sin_iniciar c id_proceso operacion id s b
        ≡ some (b', enviado)
      → Corrida c (en_reposo b) (en_reposo b')
  manejo_mensaje-Corrida c id_proceso operacion id s b b' enviado e =
      subst (Si (λ (r : Broker × List ℕ). Corrida c (en_reposo b) (en_reposo r.0))) e
        (manejo_mensaje-Corre c id_proceso operacion id s b)
