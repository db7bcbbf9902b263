-- ===== src/Broker/Suscripcion.antt =====
-- Broker/src/Broker.c: the thread of a subscriber (`manejoSuscripcion*`), as it runs with no other
-- thread in between.
use sistemas_operativos_utn.Base.{
  ℕ, zero, suc, Bool, true, false, Option, none, some, List, [], ◌∷◌, ◌++◌, ◌==◌, get_elem?,
  if◌then◌else◌, ◌>>=◌,
}
use sistemas_operativos_utn.Sockets.Codigos.{OpCode, codigo, ack}
use sistemas_operativos_utn.Sockets.Bytes.{recv_entero}
use sistemas_operativos_utn.Sockets.Envio.{enviar_ack}
use sistemas_operativos_utn.Broker.Estado.{
  Cola, cola_new, cola_appeared, cola_get, cola_localized, cola_catch, cola_caught, suscripcion_de,
  mismo_codigo, Suscriptor, InfoMensaje, Configuracion, Broker, modificar,
}
use sistemas_operativos_utn.Broker.Consultas.{
  get_mensajes_a_enviar, proceso_suscripto_a_cola, obtener_suscriptor,
}
use sistemas_operativos_utn.Broker.Envio.{enviar_mensaje}

-- The entry of a new subscriber, unless the process is in the list for this queue.
unfoldable pub suscribir : OpCode → ℕ → Broker → Option (Suscriptor × Broker)
unfolding proceso_suscripto_a_cola obtener_suscriptor
suscribir suscripcion id_proceso b =
    if proceso_suscripto_a_cola suscripcion id_proceso b.list_suscriptores
    then (do s ← obtener_suscriptor id_proceso suscripcion b.list_suscriptores; some (s, b))
    else (let nuevo : Suscriptor = record { op_code = suscripcion; id = id_proceso } in
        some (nuevo, record b { list_suscriptores = b.list_suscriptores ++ (nuevo ∷ []) }))

abbrev pub con_envio : Suscriptor → InfoMensaje → InfoMensaje
con_envio s mensaje = record mensaje {
  suscriptores_a_los_que_se_envio = mensaje.suscriptores_a_los_que_se_envio ++ (s ∷ []);
}

abbrev pub con_recepcion : Suscriptor → InfoMensaje → InfoMensaje
con_recepcion s mensaje = record mensaje {
  suscriptores_que_recibieron = mensaje.suscriptores_que_recibieron ++ (s ∷ []);
}

-- A `recv` whose result is not looked at.
unfoldable pub tras_entero : List ℕ → List ℕ
unfolding recv_entero
tras_entero s = elim (recv_entero s) [ none ↦ [] | some (n, resto) ↦ resto ]

-- What a pass over the messages leaves: the state, the bytes sent, the answers that the connection
-- still has, and whether the subscriber went away.
pub record Entregado : Type 0 where
  pub broker : Broker
  pub enviado : List ℕ
  pub respuestas : List ℕ
  pub fin : Bool

-- How the thread of a subscriber is found: waiting at a semaphore, gone because its subscriber
-- went away, or at a read through NULL. `sin_combustible` is no outcome of the C code.
pub data Hilo : Type 0 where
  espera termina : Broker → List ℕ → Hilo
  falla sin_combustible : Hilo

-- More bytes sent before.
unfoldable pub anteponer : List ℕ → Hilo → Hilo
anteponer antes (espera b enviado) = espera b (antes ++ enviado)
anteponer antes (termina b enviado) = termina b (antes ++ enviado)
anteponer antes falla = falla
anteponer antes sin_combustible = sin_combustible

-- `sem_wait` on the semaphore of a queue; `none` is the wait.
unfoldable pub sem_wait : Cola → (Cola → ℕ) → Option (Cola → ℕ)
unfolding mismo_codigo suscripcion_de
sem_wait c sem = elim (sem c) [
  | zero ↦ none
  | suc n ↦ some (λ d. if mismo_codigo (suscripcion_de c) (suscripcion_de d) then n else sem d)
]

module _ (malloc : ℕ → List ℕ) (atoi : List ℕ → ℕ) (string_itoa : ℕ → List ℕ)
    (sin_iniciar : ℕ) where
  -- The loop over the messages to send, each followed by the wait for its ACK.
  unfoldable pub entregar :
      Configuracion → Cola → Suscriptor → List ℕ → List ℕ → Broker → Option Entregado
  unfolding enviar_mensaje modificar recv_entero tras_entero codigo
  entregar c cola s [] respuestas b =
      some (record { broker = b; enviado = []; respuestas = respuestas; fin = false })
  entregar c cola s (i ∷ is) respuestas b = do
    mensaje ← get_elem? b.list_mensajes i
    (enviado, m') ← enviar_mensaje malloc atoi string_itoa sin_iniciar c cola mensaje b.memoria
    (let b1 = record b {
      list_mensajes = modificar i (con_envio s) b.list_mensajes;
      memoria = m';
    } in
        elim (recv_entero respuestas) [
          | none ↦ some (record { broker = b1; enviado = enviado; respuestas = []; fin = true })
          | some (operacion, r1) ↦
              let es_ack = operacion == codigo ack in
              let b2 = record b1 {
                list_mensajes = modificar i (con_recepcion s) b1.list_mensajes;
              } in
              do
                e ←
                    entregar c cola s is (if es_ack then tras_entero (tras_entero r1) else r1)
                      (if es_ack then b2 else b1)
                some (record e { enviado = enviado ++ e.enviado })
        ])

  -- The `while` of the thread. The fuel counts the rounds.
  unfoldable pub rondas :
      OpCode → Configuracion → Cola → ℕ → Suscriptor → ℕ → List ℕ → Broker → Hilo
  unfolding sem_wait get_mensajes_a_enviar entregar suscripcion_de anteponer
  rondas sin_operacion c cola id_proceso s zero respuestas b = sin_combustible
  rondas sin_operacion c cola id_proceso s (suc f) respuestas b = elim (sem_wait cola b.primer) [
    | none ↦ espera b []
    | some primer' ↦ elim (sem_wait cola b.nuevo_mensaje) [
      | none ↦ espera (record b { primer = primer' }) []
      | some nuevo' ↦
          let b1 = record b { primer = primer'; nuevo_mensaje = nuevo' } in
          elim (get_mensajes_a_enviar sin_operacion (suscripcion_de cola) id_proceso
              b1.list_mensajes b1.memoria.tabla
            >>= λ is. entregar c cola s is respuestas b1) [
              | none ↦ falla
              | some e ↦ elim e.fin [
                | true ↦ termina e.broker e.enviado
                | false ↦
                    anteponer e.enviado
                      (rondas sin_operacion c cola id_proceso s f e.respuestas e.broker)
              ]
            ]
    ]
  ]

  -- The whole thread. Each round takes one from the count of `primer*`.
  unfoldable pub manejo_suscripcion : OpCode → Configuracion → Cola → ℕ → List ℕ → Broker → Hilo
  unfolding suscribir enviar_ack rondas suscripcion_de anteponer
  manejo_suscripcion sin_operacion c cola id_proceso respuestas b =
      elim (suscribir (suscripcion_de cola) id_proceso b) [
        | none ↦ falla
        | some (s, b1) ↦ elim (enviar_ack malloc 0) [
          | none ↦ falla
          | some enviado ↦
              anteponer enviado
                (rondas sin_operacion c cola id_proceso s (suc (b1.primer cola)) respuestas b1)
        ]
      ]

  unfoldable pub manejo_suscripcion_new : OpCode → Configuracion → ℕ → List ℕ → Broker → Hilo
  unfolding manejo_suscripcion
  manejo_suscripcion_new sin_operacion c = manejo_suscripcion sin_operacion c cola_new

  unfoldable pub manejo_suscripcion_appeared : OpCode → Configuracion → ℕ → List ℕ → Broker → Hilo
  unfolding manejo_suscripcion
  manejo_suscripcion_appeared sin_operacion c = manejo_suscripcion sin_operacion c cola_appeared

  unfoldable pub manejo_suscripcion_get : OpCode → Configuracion → ℕ → List ℕ → Broker → Hilo
  unfolding manejo_suscripcion
  manejo_suscripcion_get sin_operacion c = manejo_suscripcion sin_operacion c cola_get

  unfoldable pub manejo_suscripcion_localized : OpCode → Configuracion → ℕ → List ℕ → Broker → Hilo
  unfolding manejo_suscripcion
  manejo_suscripcion_localized sin_operacion c = manejo_suscripcion sin_operacion c cola_localized

  unfoldable pub manejo_suscripcion_catch : OpCode → Configuracion → ℕ → List ℕ → Broker → Hilo
  unfolding manejo_suscripcion
  manejo_suscripcion_catch sin_operacion c = manejo_suscripcion sin_operacion c cola_catch

  unfoldable pub manejo_suscripcion_caught : OpCode → Configuracion → ℕ → List ℕ → Broker → Hilo
  unfolding manejo_suscripcion
  manejo_suscripcion_caught sin_operacion c = manejo_suscripcion sin_operacion c cola_caught
