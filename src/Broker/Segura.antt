-- ===== src/Broker/Segura.antt =====
-- Broker/src/Broker.c: the whole thread of a subscriber, in a state that the Broker reaches.
use sistemas_operativos_utn.Base.{
  ℕ, zero, suc, ◌^◌, ◌<◌, ◌≡◌, refl, sym, ap, subst, some, List, [], ◌∷◌, ◌++◌, arith, length,
  Bool-cases, Option-cases, inl, inr, Todas, Todas-map,
}
use sistemas_operativos_utn.Sockets.Codigos.{OpCode}
use sistemas_operativos_utn.Sockets.Envio.Control.{enviar_control-LlegaCabecera}
use sistemas_operativos_utn.Broker.Estado.{
  Cola, suscripcion_de, Suscriptor, InfoMensaje, Configuracion, Broker,
}
use sistemas_operativos_utn.Broker.Consultas.{
  obtener_suscriptor, proceso_suscripto_a_cola, hay_suscriptor,
}
use sistemas_operativos_utn.Broker.Suscripcion.{
  suscribir, Hilo, espera, termina, falla, sin_combustible, anteponer, sem_wait, rondas,
  manejo_suscripcion,
}
use sistemas_operativos_utn.Broker.Coherencia.{ids, Distintas, get_mensajes_a_enviar-Respuesta}
use sistemas_operativos_utn.Broker.Pasos.{semaforos, suscribe, EsCoherente}
use sistemas_operativos_utn.Broker.Sistema.{Sistema, Alcanzable}
use sistemas_operativos_utn.Broker.Sostiene.{Paso-EsCoherente}
use sistemas_operativos_utn.Broker.Alcance.{pasos_coherentes}
use sistemas_operativos_utn.Broker.Mantiene.{Pasos-ids}
use sistemas_operativos_utn.Broker.Entrega.{LlevaEntregado, entregar-Sigue, sem_wait-menor}
use sistemas_operativos_utn.Broker.SinFallas.{EnCola, Enviable, entregar-Completa}
use sistemas_operativos_utn.Broker.Enviables.{CargaBien, carga-Enviable}

-- The thread did not stop at a fault.
abbrev pub NoFalla : Hilo → Type 0
NoFalla (espera b enviado) = Unit
NoFalla (termina b enviado) = Unit
NoFalla falla = ⊥
NoFalla sin_combustible = ⊥

anteponer-NoFalla : (antes : List ℕ) (h : Hilo) → NoFalla h → NoFalla (anteponer antes h)
unfolding anteponer
anteponer-NoFalla antes (espera e enviado) h = tt
anteponer-NoFalla antes (termina e enviado) h = tt
anteponer-NoFalla antes falla h = h
anteponer-NoFalla antes sin_combustible h = h

-- The subscription does not fault and leaves the messages.
record Suscripto (c : Configuracion) (cola : Cola) (p : ℕ) (b : Broker) : Type 0 where
  pub suscriptor : Suscriptor
  pub broker : Broker
  pub hecho : suscribir (suscripcion_de cola) p b ≡ some (suscriptor, broker)
  pub mismos : broker.list_mensajes ≡ b.list_mensajes

suscribir-Suscripto : (c : Configuracion) (cola : Cola) (p : ℕ) (b : Broker) → Suscripto c cola p b
unfolding suscribir proceso_suscripto_a_cola hay_suscriptor
suscribir-Suscripto c cola p b =
    elim (Option-cases (obtener_suscriptor p (suscripcion_de cola) b.list_suscriptores)) [
      | inl e ↦
          let nuevo : Suscriptor = record { op_code = suscripcion_de cola; id = p } in
          record {
            suscriptor = nuevo;
            broker = record b { list_suscriptores = b.list_suscriptores ++ (nuevo ∷ []) };
            hecho = rw e refl;
            mismos = refl;
          }
      | inr (s, e) ↦ record { suscriptor = s; broker = b; hecho = rw e refl; mismos = refl }
    ]

module _ (malloc : ℕ → List ℕ) (atoi : List ℕ → ℕ) (string_itoa : ℕ → List ℕ)
    (sin_iniciar : ℕ) where
  abbrev TodasEnviables : List InfoMensaje → Type 0
  TodasEnviables = Todas (Enviable malloc atoi string_itoa sin_iniciar)

  rondas-NoFalla :
      (c : Configuracion) (x : OpCode) (cola : Cola) (p : ℕ) (s : Suscriptor) (f : ℕ)
      (respuestas : List ℕ) (b : Broker)
      → b.primer cola < f
      → EsCoherente b
      → Distintas (ids b.list_mensajes)
      → TodasEnviables b.list_mensajes
      → NoFalla (rondas malloc atoi string_itoa sin_iniciar x c cola p s f respuestas b)
  unfolding rondas
  rondas-NoFalla c x cola p s zero respuestas b h co di en = omega arith
  rondas-NoFalla c x cola p s (suc f) respuestas b h co di en =
      let menor = sem_wait-menor malloc atoi string_itoa sin_iniciar c cola b.primer f h in
      elim (Option-cases (sem_wait cola b.primer)) [
        | inl k ↦ rw (NoFalla, k) tt
        | inr (primer', k) ↦ elim (Option-cases (sem_wait cola b.nuevo_mensaje)) [
          | inl n ↦ rw (NoFalla, k, n) tt
          | inr (nuevo', n) ↦
              let b1 = record b { primer = primer'; nuevo_mensaje = nuevo' } in
              let co1 = Paso-EsCoherente c b b1 (semaforos nuevo' primer' b) co in
              let r =
                get_mensajes_a_enviar-Respuesta x cola p b.list_mensajes b.memoria.tabla di
                  co.registrada in
              let en_cola =
                Todas-map _ (EnCola cola b.list_mensajes) r.indices
                  (λ i q. record { mensaje = q.mensaje; lugar = q.lugar; es_op = q.es_op })
                  r.todos in
              let z =
                entregar-Completa malloc atoi string_itoa sin_iniciar c cola s r.indices respuestas
                  b1 (record { coherente = co1; enviables = en; en_cola = en_cola }) in
              let sigue =
                entregar-Sigue malloc atoi string_itoa sin_iniciar c cola s r.indices respuestas
                  b1 in
              elim (Bool-cases z.entregado.fin) [
                | inl w ↦ rw (NoFalla, k, n, r.hecho, z.hecho, w) tt
                | inr w ↦
                    let (ps, q) : LlevaEntregado malloc atoi string_itoa sin_iniciar c b1
                        z.entregado =
                      rw z.hecho at sigue in
                    let baja : z.entregado.broker.primer cola < f =
                      rw (ap (λ y. y cola) q) (rw k at menor) in
                    rw (NoFalla, k, n, r.hecho, z.hecho, w)
                      (anteponer-NoFalla z.entregado.enviado _ (
                        rondas-NoFalla c x cola p s f z.entregado.respuestas z.entregado.broker baja
                          z.coherente
                          (subst Distintas (sym (Pasos-ids c b1 z.entregado.broker ps)) di)
                          z.enviables))
              ]
        ]
      ]

  module _ (m : (n : ℕ) → length (malloc n) ≡ n) (a : (t : List ℕ) → atoi t < 2 ^ 32) where
    -- In every state that the threads of the Broker reach and in which no two messages have the
    -- same id, the thread of a subscriber, with no other thread in between, waits at a semaphore or sees its subscriber go away: it reads
    -- through no NULL pointer and takes no payload for one of another type. The names of the
    -- messages must end in a 0 after a text that is short enough, `malloc` must return as many
    -- bytes as asked, and the numbers must fit in 32 bits.
    pub manejo_suscripcion-NoFalla :
        (c : Configuracion) (x : OpCode) (cola : Cola) (p : ℕ) (respuestas : List ℕ) (e : Sistema)
        → sin_iniciar < 2 ^ 32
        → Alcanzable c e
        → Distintas (ids e.broker.list_mensajes)
        → Todas (λ (i : InfoMensaje). CargaBien i.mensaje) e.broker.list_mensajes
        → NoFalla
            (manejo_suscripcion malloc atoi string_itoa sin_iniciar x c cola p respuestas e.broker)
    unfolding manejo_suscripcion
    manejo_suscripcion-NoFalla c x cola p respuestas e cabe alc di bien =
        let b = e.broker in
        let s = suscribir-Suscripto c cola p b in
        let acuse = enviar_control-LlegaCabecera malloc m x 0 (omega arith) in
        let co =
          Paso-EsCoherente c b s.broker (suscribe cola p s.suscriptor b s.broker s.hecho)
            (pasos_coherentes c e alc).broker in
        let en : TodasEnviables b.list_mensajes =
          Todas-map _ _ b.list_mensajes
            (λ i q id. carga-Enviable malloc m atoi string_itoa sin_iniciar a cabe i.mensaje id q)
            bien in
        rw (NoFalla, s.hecho, acuse.2.hecho)
          (anteponer-NoFalla acuse.2.enviado _ (
            rondas-NoFalla c x cola p s.suscriptor (suc (s.broker.primer cola)) respuestas s.broker
              (omega arith) co (rw s.mismos di) (rw s.mismos en)))
