-- ===== src/Broker/SinFallas.antt =====
-- Broker/src/Broker.c: the thread of a subscriber reads through no NULL pointer and no pointer of
-- the wrong type.
use sistemas_operativos_utn.Base.{
  ℕ, zero, suc, ◌≡◌, refl, sym, ap, ◌∙◌, subst, Bool, true, false, Option, some, List, [], ◌∷◌,
  ◌++◌, arith, get_elem?, if◌then◌else◌, Option-cases, inl, inr, Si, Todas, Todas-get, Todas-map,
  ◌==◌,
}
use sistemas_operativos_utn.Sockets.Codigos.{codigo, ack}
use sistemas_operativos_utn.Sockets.Bytes.{recv_entero}
use sistemas_operativos_utn.Broker.Estado.{
  Cola, cola_new, cola_appeared, cola_get, cola_localized, cola_catch, cola_caught, suscripcion_de,
  mensaje_de, Carga, Suscriptor, InfoMensaje, Configuracion, Broker, modificar,
}
use sistemas_operativos_utn.Broker.Envio.{usar, enviar_carga, enviar_mensaje, id_a_enviar}
use sistemas_operativos_utn.Broker.Suscripcion.{
  con_envio, con_recepcion, tras_entero, Entregado, entregar,
}
use sistemas_operativos_utn.Broker.Servidor.{cola_de}
use sistemas_operativos_utn.Broker.Pasos.{
  cola_de_carga, en_mensajes, renueva, anota_envio, anota_ack, ConCarga, EsCoherente,
}
use sistemas_operativos_utn.Broker.Avance.{Conserva}
use sistemas_operativos_utn.Broker.Mantiene.{usar-sin_ids}
use sistemas_operativos_utn.Broker.Sostiene.{Paso-EsCoherente}

cola_de-mensaje_de : (cola : Cola) → cola_de (some (mensaje_de cola)) ≡ some cola
unfolding cola_de mensaje_de
cola_de-mensaje_de cola_new = refl
cola_de-mensaje_de cola_appeared = refl
cola_de-mensaje_de cola_get = refl
cola_de-mensaje_de cola_localized = refl
cola_de-mensaje_de cola_catch = refl
cola_de-mensaje_de cola_caught = refl

mensaje_de_inyectiva : (a b : Cola) → mensaje_de a ≡ mensaje_de b → a ≡ b
mensaje_de_inyectiva a b e =
    let igual : some a ≡ some b =
      sym (cola_de-mensaje_de a) ∙ ap (λ x. cola_de (some x)) e ∙ cola_de-mensaje_de b in
    ground arith

-- The entry with this index is a message of the queue.
pub record EnCola (cola : Cola) (ms : List InfoMensaje) (i : ℕ) : Type 0 where
  pub mensaje : InfoMensaje
  pub lugar : get_elem? ms i ≡ some mensaje
  pub es_op : mensaje.op_code ≡ mensaje_de cola

modificar-EnCola :
    (f : InfoMensaje → InfoMensaje) (h : Conserva f) (cola : Cola) (i j : ℕ) (ms : List InfoMensaje)
    (m : InfoMensaje)
    → get_elem? ms j ≡ some m
    → m.op_code ≡ mensaje_de cola
    → EnCola cola (modificar i f ms) j
unfolding modificar
modificar-EnCola f h cola i j [] m g o = ground arith
modificar-EnCola f h cola zero zero (n ∷ ms) m g o =
    let mismo : n ≡ m = ground arith in
    record { mensaje = f n; lugar = refl; es_op = h.op n ∙ ap (λ x. x.op_code) mismo ∙ o }
modificar-EnCola f h cola zero (suc j) (n ∷ ms) m g o = record { mensaje = m; lugar = g; es_op = o }
modificar-EnCola f h cola (suc i) zero (n ∷ ms) m g o = record { mensaje = m; lugar = g; es_op = o }
modificar-EnCola f h cola (suc i) (suc j) (n ∷ ms) m g o =
    let r = modificar-EnCola f h cola i j ms m g o in
    record { mensaje = r.mensaje; lugar = r.lugar; es_op = r.es_op }

module _ (malloc : ℕ → List ℕ) (atoi : List ℕ → ℕ) (string_itoa : ℕ → List ℕ)
    (sin_iniciar : ℕ) where
  -- `enviarMensaje` for the queue of the payload sends it, under any id.
  abbrev pub Enviable : InfoMensaje → Type 0
  Enviable m =
      (id : ℕ)
      → (enviado : List ℕ) × (enviar_carga malloc atoi string_itoa sin_iniciar
            (suscripcion_de (cola_de_carga m.mensaje)) id m.mensaje
          ≡ some enviado)

  modificar-Enviable :
      (f : InfoMensaje → InfoMensaje) (h : Conserva f) (i : ℕ) (ms : List InfoMensaje)
      → Todas Enviable ms
      → Todas Enviable (modificar i f ms)
  unfolding modificar
  modificar-Enviable f h i [] k = tt
  modificar-Enviable f h zero (m ∷ ms) (k, ks) = (
    λ id.
        subst
          (λ (x : Carga).
            (enviado : List ℕ) × (enviar_carga malloc atoi string_itoa sin_iniciar
                (suscripcion_de (cola_de_carga x)) id x
              ≡ some enviado))
          (sym (h.carga m)) (k id),
    ks,
  )
  modificar-Enviable f h (suc i) (m ∷ ms) (k, ks) = (k, modificar-Enviable f h i ms ks)

  -- A state whose messages can all be sent, and indices of messages of a queue.
  pub record Listo (cola : Cola) (is : List ℕ) (b : Broker) : Type 0 where
    pub coherente : EsCoherente b
    pub enviables : Todas Enviable b.list_mensajes
    pub en_cola : Todas (EnCola cola b.list_mensajes) is

  en_mensajes-Listo :
      (f : InfoMensaje → InfoMensaje) (h : Conserva f) (cola : Cola) (i : ℕ) (is : List ℕ)
      (b : Broker)
      → EsCoherente (en_mensajes i f b)
      → Listo cola is b
      → Listo cola is (en_mensajes i f b)
  en_mensajes-Listo f h cola i is b e l = record {
    coherente = e;
    enviables = modificar-Enviable f h i b.list_mensajes l.enviables;
    en_cola =
        Todas-map _ _ is
          (λ j q. modificar-EnCola f h cola i j b.list_mensajes q.mensaje q.lugar q.es_op)
          l.en_cola;
  }

  -- A message of the queue goes out.
  enviar_mensaje-Listo :
      (c : Configuracion) (cola : Cola) (i : ℕ) (is : List ℕ) (b : Broker)
      (q : EnCola cola b.list_mensajes i)
      → Listo cola is b
      → (enviado : List ℕ) × (enviar_mensaje malloc atoi string_itoa sin_iniciar c cola q.mensaje
            b.memoria
          ≡ some (enviado, usar c q.mensaje b.memoria))
  unfolding enviar_mensaje
  enviar_mensaje-Listo c cola i is b q l =
      let op : ConCarga q.mensaje =
        subst (Si ConCarga) q.lugar (Todas-get ConCarga b.list_mensajes i l.coherente.cargas) in
      let env : Enviable q.mensaje =
        subst (Si Enviable) q.lugar (Todas-get Enviable b.list_mensajes i l.enviables) in
      let igual : cola_de_carga q.mensaje.mensaje ≡ cola =
        mensaje_de_inyectiva (cola_de_carga q.mensaje.mensaje) cola (sym op ∙ q.es_op) in
      let (enviado, e) = env (id_a_enviar q.mensaje) in
      let sale : enviar_carga malloc atoi string_itoa sin_iniciar (suscripcion_de cola)
            (id_a_enviar q.mensaje) q.mensaje.mensaje
          ≡ some enviado =
        rw igual at e in
      (enviado, rw sale refl)

  envio-Listo :
      (c : Configuracion) (cola : Cola) (i : ℕ) (is : List ℕ) (m : InfoMensaje) (s : Suscriptor)
      (b : Broker)
      → Listo cola is b
      → Listo cola is (en_mensajes i (con_envio s) (record b { memoria = usar c m b.memoria }))
  envio-Listo c cola i is m s b l =
      let usada = record b { memoria = usar c m b.memoria } in
      let e =
        Paso-EsCoherente c b usada (renueva (usar c m b.memoria) b (usar-sin_ids c m b.memoria))
          l.coherente in
      en_mensajes-Listo (con_envio s) (record { op = λ x. refl; id = λ x. refl; carga = λ x. refl })
        cola i is usada (Paso-EsCoherente c usada _ (anota_envio i s usada) e)
        (record { coherente = e; enviables = l.enviables; en_cola = l.en_cola })

  ack-Listo :
      (x : Bool) (c : Configuracion) (cola : Cola) (i : ℕ) (is : List ℕ) (s : Suscriptor)
      (b : Broker)
      → Listo cola is b
      → Listo cola is (if x then en_mensajes i (con_recepcion s) b else b)
  ack-Listo true c cola i is s b l =
      en_mensajes-Listo (con_recepcion s)
        (record { op = λ y. refl; id = λ y. refl; carga = λ y. refl }) cola i is b
        (Paso-EsCoherente c b _ (anota_ack i s b) l.coherente) l
  ack-Listo false c cola i is s b l = l

  -- A pass over the messages that comes to its end.
  pub record Completa (r : Option Entregado) : Type 0 where
    pub entregado : Entregado
    pub hecho : r ≡ some entregado
    pub coherente : EsCoherente entregado.broker
    pub enviables : Todas Enviable entregado.broker.list_mensajes

  pub entregar-Completa :
      (c : Configuracion) (cola : Cola) (s : Suscriptor) (is respuestas : List ℕ) (b : Broker)
      → Listo cola is b
      → Completa (entregar malloc atoi string_itoa sin_iniciar c cola s is respuestas b)
  unfolding entregar
  entregar-Completa c cola s [] respuestas b l = record {
    entregado = record { broker = b; enviado = []; respuestas = respuestas; fin = false };
    hecho = refl;
    coherente = l.coherente;
    enviables = l.enviables;
  }
  entregar-Completa c cola s (i ∷ is) respuestas b l =
      let (q, qs) = l.en_cola in
      let (enviado, sale) = enviar_mensaje-Listo c cola i (i ∷ is) b q l in
      let b1 = en_mensajes i (con_envio s) (record b { memoria = usar c q.mensaje b.memoria }) in
      let l1 =
        envio-Listo c cola i is q.mensaje s b
          (record { coherente = l.coherente; enviables = l.enviables; en_cola = qs }) in
      elim (Option-cases (recv_entero respuestas)) [
        | inl n ↦ record {
          entregado = record { broker = b1; enviado = enviado; respuestas = []; fin = true };
          hecho = rw (q.lugar, sale, n) refl;
          coherente = l1.coherente;
          enviables = l1.enviables;
        }
        | inr (a, n) ↦
            let x = a.0 == codigo ack in
            let d = if x then en_mensajes i (con_recepcion s) b1 else b1 in
            let r =
              entregar-Completa c cola s is (if x then tras_entero (tras_entero a.1) else a.1) d
                (ack-Listo x c cola i is s b1 l1) in
            record {
              entregado = record r.entregado { enviado = enviado ++ r.entregado.enviado };
              hecho = rw (q.lugar, sale, n, r.hecho) refl;
              coherente = r.coherente;
              enviables = r.enviables;
            }
      ]
