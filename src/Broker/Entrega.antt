-- ===== src/Broker/Entrega.antt =====
-- Broker/src/Broker.c: the thread of a subscriber takes only the steps of `Pasos`, and its rounds
-- come to an end.
use sistemas_operativos_utn.Base.{
  ℕ, zero, suc, ◌≡◌, refl, ap, ◌∙◌, Bool, true, false, Option, none, some, List, [], ◌∷◌, arith,
  get_elem?, if◌then◌else◌, Bool-cases, Option-cases, inl, inr, Si, Si->>=, ◌>>=◌, ◌==◌, ◌<◌,
}
use sistemas_operativos_utn.Sockets.Codigos.{OpCode, codigo, ack}
use sistemas_operativos_utn.Sockets.Bytes.{recv_entero}
use sistemas_operativos_utn.Sockets.Envio.{enviar_ack}
use sistemas_operativos_utn.Particiones.Tabla.{Memoria}
use sistemas_operativos_utn.Broker.Estado.{
  Cola, suscripcion_de, Suscriptor, InfoMensaje, Configuracion, Broker, mismo_codigo,
}
use sistemas_operativos_utn.Broker.Consultas.{get_mensajes_a_enviar}
use sistemas_operativos_utn.Broker.Envio.{usar, enviar_carga, enviar_mensaje, id_a_enviar}
use sistemas_operativos_utn.Broker.Suscripcion.{
  suscribir, con_envio, con_recepcion, tras_entero, Entregado, Hilo, espera, termina, falla,
  sin_combustible, anteponer, sem_wait, entregar, rondas, manejo_suscripcion,
}
use sistemas_operativos_utn.Broker.Pasos.{
  en_mensajes, suscribe, renueva, anota_envio, anota_ack, semaforos, Pasos, quieto, luego,
}
use sistemas_operativos_utn.Broker.Mantiene.{usar-sin_ids}
use sistemas_operativos_utn.Broker.Refinamiento.{tras_paso, uno, encadenar}

module _ (malloc : ℕ → List ℕ) (atoi : List ℕ → ℕ) (string_itoa : ℕ → List ℕ) (sin_iniciar : ℕ)
    (c : Configuracion) where
  -- Steps that leave the counts of the semaphores `primer*`.
  abbrev pub Sigue : Broker → Broker → Type 0
  Sigue b d = Pasos c b d × (d.primer ≡ b.primer)

  abbrev pub LlevaEntregado : Broker → Entregado → Type 0
  LlevaEntregado b e = Sigue b e.broker

  enviar_mensaje-memoria :
      (cola : Cola) (mensaje : InfoMensaje) (m : Memoria)
      → Si
          (λ (r : List ℕ × Memoria). r.1 ≡ usar c mensaje m)
          (enviar_mensaje malloc atoi string_itoa sin_iniciar c cola mensaje m)
  unfolding enviar_mensaje
  enviar_mensaje-memoria cola mensaje m =
      tras_paso _
        (enviar_carga malloc atoi string_itoa sin_iniciar (suscripcion_de cola)
          (id_a_enviar mensaje) mensaje.mensaje)
        _ (λ enviado e. refl)

  -- The state after a message was sent, and after its ACK.
  abbrev tras_envio : ℕ → InfoMensaje → Suscriptor → Broker → Broker
  tras_envio i mensaje s b =
      en_mensajes i (con_envio s) (record b { memoria = usar c mensaje b.memoria })

  tras_envio-Pasos :
      (i : ℕ) (mensaje : InfoMensaje) (s : Suscriptor) (b : Broker)
      → Pasos c b (tras_envio i mensaje s b)
  tras_envio-Pasos i mensaje s b =
      luego b (record b { memoria = usar c mensaje b.memoria }) _
        (uno c b _ (renueva (usar c mensaje b.memoria) b (usar-sin_ids c mensaje b.memoria)))
        (anota_envio i s (record b { memoria = usar c mensaje b.memoria }))

  ack-Sigue :
      (x : Bool) (i : ℕ) (mensaje : InfoMensaje) (s : Suscriptor) (b : Broker)
      → Sigue b (
          if x
          then en_mensajes i (con_recepcion s) (tras_envio i mensaje s b)
          else tras_envio i mensaje s b)
  ack-Sigue true i mensaje s b = (
    luego b (tras_envio i mensaje s b) _ (tras_envio-Pasos i mensaje s b)
        (anota_ack i s (tras_envio i mensaje s b)),
    refl,
  )
  ack-Sigue false i mensaje s b = (tras_envio-Pasos i mensaje s b, refl)

  encadenar-Si :
      (b d : Broker) (m : Option Entregado)
      → Sigue b d
      → Si (LlevaEntregado d) m
      → Si (LlevaEntregado b) m
  encadenar-Si b d none ps h = tt
  encadenar-Si b d (some e) (ps, p) (qs, q) = (encadenar c b d e.broker ps qs, q ∙ p)

  pub entregar-Sigue :
      (cola : Cola) (s : Suscriptor) (is respuestas : List ℕ) (b : Broker)
      → Si
          (LlevaEntregado b)
          (entregar malloc atoi string_itoa sin_iniciar c cola s is respuestas b)
  unfolding entregar
  entregar-Sigue cola s [] respuestas b = (quieto b, refl)
  entregar-Sigue cola s (i ∷ is) respuestas b =
      tras_paso (LlevaEntregado b) (get_elem? b.list_mensajes i) _ (λ mensaje e.
        Si->>= (λ (r : List ℕ × Memoria). r.1 ≡ usar c mensaje b.memoria) (LlevaEntregado b)
          (enviar_mensaje malloc atoi string_itoa sin_iniciar c cola mensaje b.memoria) _
          (enviar_mensaje-memoria cola mensaje b.memoria)
          (λ r k.
            let b1 = tras_envio i mensaje s b in
            elim (Option-cases (recv_entero respuestas)) [
              | inl n ↦ rw (n, k) (tras_envio-Pasos i mensaje s b, refl)
              | inr (a, n) ↦
                  let x = a.0 == codigo ack in
                  let b2 = en_mensajes i (con_recepcion s) b1 in
                  let d = if x then b2 else b1 in
                  let sigue =
                    entregar malloc atoi string_itoa sin_iniciar c cola s is
                      (if x then tras_entero (tras_entero a.1) else a.1) d in
                  rw (n, k)
                    (tras_paso (LlevaEntregado b) sigue _ (λ e' g. rw g at (
                      encadenar-Si b d sigue (ack-Sigue x i mensaje s b) (
                        entregar-Sigue cola s is (if x then tras_entero (tras_entero a.1) else a.1)
                          d))))
            ]))

  -- How a thread that started in a state is found: at the end of steps, or at a fault.
  abbrev pub HiloTras : Broker → Hilo → Type 0
  HiloTras b (espera d enviado) = Pasos c b d
  HiloTras b (termina d enviado) = Pasos c b d
  HiloTras b falla = Unit
  HiloTras b sin_combustible = ⊥

  anteponer-HiloTras :
      (b d : Broker) (antes : List ℕ) (h : Hilo)
      → Pasos c b d
      → HiloTras d h
      → HiloTras b (anteponer antes h)
  unfolding anteponer
  anteponer-HiloTras b d antes (espera e enviado) ps h = encadenar c b d e ps h
  anteponer-HiloTras b d antes (termina e enviado) ps h = encadenar c b d e ps h
  anteponer-HiloTras b d antes falla ps h = tt
  anteponer-HiloTras b d antes sin_combustible ps h = elim h [ ]

  pub sem_wait-menor :
      (cola : Cola) (sem : Cola → ℕ) (f : ℕ)
      → sem cola < suc f
      → Si (λ (sem' : Cola → ℕ). sem' cola < f) (sem_wait cola sem)
  unfolding sem_wait mismo_codigo
  sem_wait-menor cola sem f h = segun (sem cola) refl
    where
      segun : (n : ℕ) → sem cola ≡ n → Si (λ (sem' : Cola → ℕ). sem' cola < f) (sem_wait cola sem)
      segun zero e = rw (Si, e) tt
      segun (suc n) e =
          let igual : (codigo (suscripcion_de cola) == codigo (suscripcion_de cola)) ≡ true =
            ground arith in
          rw (Si, e, igual) (omega arith)

  rondas-HiloTras :
      (x : OpCode) (cola : Cola) (p : ℕ) (s : Suscriptor) (f : ℕ) (respuestas : List ℕ) (b : Broker)
      → b.primer cola < f
      → HiloTras b (rondas malloc atoi string_itoa sin_iniciar x c cola p s f respuestas b)
  unfolding rondas
  rondas-HiloTras x cola p s zero respuestas b h = omega arith
  rondas-HiloTras x cola p s (suc f) respuestas b h =
      let menor = sem_wait-menor cola b.primer f h in
      elim (Option-cases (sem_wait cola b.primer)) [
        | inl k ↦ rw (HiloTras, k) (quieto b)
        | inr (primer', k) ↦ elim (Option-cases (sem_wait cola b.nuevo_mensaje)) [
          | inl n ↦
              rw (HiloTras, k, n)
                (uno c b (record b { primer = primer' }) (semaforos b.nuevo_mensaje primer' b))
          | inr (nuevo', n) ↦
              let b1 = record b { primer = primer'; nuevo_mensaje = nuevo' } in
              let pasa : Pasos c b b1 = uno c b b1 (semaforos nuevo' primer' b) in
              let r =
                get_mensajes_a_enviar x (suscripcion_de cola) p b1.list_mensajes b1.memoria.tabla
                >>= λ is. entregar malloc atoi string_itoa sin_iniciar c cola s is respuestas b1 in
              let hr : Si (LlevaEntregado b1) r =
                tras_paso (LlevaEntregado b1) _ _
                  (λ is e. entregar-Sigue cola s is respuestas b1) in
              elim (Option-cases r) [
                | inl e ↦ rw (HiloTras, k, n, e) tt
                | inr (e, g) ↦
                    let (ps, q) : LlevaEntregado b1 e = rw g at hr in
                    elim (Bool-cases e.fin) [
                      | inl w ↦ rw (HiloTras, k, n, g, w) (encadenar c b b1 e.broker pasa ps)
                      | inr w ↦
                          let sigue : e.broker.primer cola < f =
                            rw (ap (λ y. y cola) q) (rw k at menor) in
                          rw (HiloTras, k, n, g, w)
                            (anteponer-HiloTras b e.broker e.enviado _
                              (encadenar c b b1 e.broker pasa ps)
                              (rondas-HiloTras x cola p s f e.respuestas e.broker sigue))
                    ]
              ]
        ]
      ]

  -- The thread of a subscriber, with no other thread in between, ends: it waits at a semaphore, or
  -- its subscriber went away, or it is at a fault. The state that it leaves is reached by the steps
  -- of `Pasos`.
  pub manejo_suscripcion-HiloTras :
      (x : OpCode) (cola : Cola) (p : ℕ) (respuestas : List ℕ) (b : Broker)
      → HiloTras b (manejo_suscripcion malloc atoi string_itoa sin_iniciar x c cola p respuestas b)
  unfolding manejo_suscripcion
  manejo_suscripcion-HiloTras x cola p respuestas b =
      elim (Option-cases (suscribir (suscripcion_de cola) p b)) [
        | inl e ↦ rw (HiloTras, e) tt
        | inr ((s, b1), e) ↦ elim (Option-cases (enviar_ack malloc 0)) [
          | inl k ↦ rw (HiloTras, e, k) tt
          | inr (a, k) ↦
              rw (HiloTras, e, k)
                (anteponer-HiloTras b b1 a _ (uno c b b1 (suscribe cola p s b b1 e))
                  (rondas-HiloTras x cola p s (suc (b1.primer cola)) respuestas b1 (omega arith)))
        ]
      ]
