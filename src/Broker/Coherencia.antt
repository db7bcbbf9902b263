-- ===== src/Broker/Coherencia.antt =====
-- Broker/src/Broker.c: what ties the list of messages and the memory together, and what the
-- look-ups answer then.
use sistemas_operativos_utn.Base.{
  ℕ, zero, suc, ◌+◌, ◌≡◌, ◌≢◌, ne→==, refl, sym, ap, ◌∙◌, false, Option, none, some, List, [], ◌∷◌,
  arith, get_elem?, Bool-cases, Option-cases, inl, inr, Todas, subst,
}
use sistemas_operativos_utn.Sockets.Codigos.{OpCode}
use sistemas_operativos_utn.Particiones.Tabla.{Particion}
use sistemas_operativos_utn.Particiones.Rastro.Desalojo.{TodasSanas}
use sistemas_operativos_utn.Broker.Estado.{
  Cola, suscripcion_de, mensaje_de, mismo_codigo, InfoMensaje,
}
use sistemas_operativos_utn.Broker.Consultas.{
  con_ese_id, unico, obtener_mensaje, esta_entre, recibio_mensaje, mensaje_cacheado_de_operacion,
  get_mensajes_cacheados_de_operacion, sin_recibir, get_mensajes_a_enviar,
}
use sistemas_operativos_utn.Broker.Codigos.{mismo_codigo_iguales, tipo_mensaje_lem}

-- The ids of the messages.
abbrev pub ids : List InfoMensaje → List ℕ
ids [] = []
ids (m ∷ ms) = m.id_mensaje ∷ ids ms

abbrev OtrosQue : ℕ → List ℕ → Type 0
OtrosQue x = Todas (λ y. y ≢ x)

-- No two of the numbers are equal.
abbrev pub Distintas : List ℕ → Type 0
Distintas [] = Unit
Distintas (x ∷ xs) = OtrosQue x xs × Distintas xs

-- A message of this kind with this id is in the list.
pub record Anotado (ms : List InfoMensaje) (op : OpCode) (id : ℕ) : Type 0 where
  pub i : ℕ
  pub mensaje : InfoMensaje
  pub lugar : get_elem? ms i ≡ some mensaje
  pub es_op : mensaje.op_code ≡ op
  pub es_id : mensaje.id_mensaje ≡ id

-- The code and the id of a partition: those of a message in the list, or of a free partition.
abbrev pub Registrado : List InfoMensaje → Option OpCode → ℕ → Type 0
Registrado ms none id = Unit
Registrado ms (some op) id = Anotado ms op id

con_ese_id-ninguno :
    (id j : ℕ) (ms : List InfoMensaje) → OtrosQue id (ids ms) → con_ese_id id j ms ≡ []
unfolding con_ese_id
con_ese_id-ninguno id j [] h = refl
con_ese_id-ninguno id j (m ∷ ms) (h, hs) =
    rw (ne→== m.id_mensaje id h) (con_ese_id-ninguno id (suc j) ms hs)

otro_id :
    (x i : ℕ) (m : InfoMensaje) (ms : List InfoMensaje)
    → OtrosQue x (ids ms)
    → get_elem? ms i ≡ some m
    → m.id_mensaje ≢ x
otro_id x i m [] h g = ground arith
otro_id x zero m (n ∷ ms) (h, hs) g =
    λ e. let mismo : n ≡ m = ground arith in h (ap (λ y. y.id_mensaje) mismo ∙ e)
otro_id x (suc i) m (n ∷ ms) (h, hs) g = otro_id x i m ms hs g

con_ese_id-uno :
    (id j i : ℕ) (m : InfoMensaje) (ms : List InfoMensaje)
    → Distintas (ids ms)
    → get_elem? ms i ≡ some m
    → m.id_mensaje ≡ id
    → con_ese_id id j ms ≡ (j + i) ∷ []
unfolding con_ese_id
con_ese_id-uno id j i m [] h g e = ground arith
con_ese_id-uno id j zero m (n ∷ ms) (h, hs) g e =
    let mismo : n ≡ m = ground arith in
    let en : n.id_mensaje ≡ id = ap (λ x. x.id_mensaje) mismo ∙ e in
    let resto = con_ese_id-ninguno id (suc j) ms (subst (λ x. OtrosQue x (ids ms)) en h) in
    ground (arith, resto)
con_ese_id-uno id j (suc i) m (n ∷ ms) (h, hs) g e =
    let otro : n.id_mensaje ≢ id = λ k. otro_id n.id_mensaje i m ms h g (e ∙ sym k) in
    rw (ne→== n.id_mensaje id otro)
      (con_ese_id-uno id (suc j) i m ms hs g e ∙ ap (λ x. x ∷ []) (omega arith))

-- Where the ids are different, a message is found by its id.
pub obtener_mensaje-Anotado :
    (ms : List InfoMensaje) (op : OpCode) (id : ℕ) (a : Anotado ms op id)
    → Distintas (ids ms)
    → obtener_mensaje id ms ≡ some a.i
unfolding obtener_mensaje unico
obtener_mensaje-Anotado ms op id a h =
    ap unico (con_ese_id-uno id 0 a.i a.mensaje ms h a.lugar a.es_id) ∙ ap some (omega arith)

pub recibio_mensaje-Anotado :
    (p : ℕ) (ms : List InfoMensaje) (op : OpCode) (id : ℕ) (a : Anotado ms op id)
    → Distintas (ids ms)
    → recibio_mensaje p id ms ≡ some (esta_entre p a.mensaje.suscriptores_que_recibieron)
unfolding recibio_mensaje
recibio_mensaje-Anotado p ms op id a h = rw (obtener_mensaje-Anotado ms op id a h, a.lugar)

-- The entry with this index is a message of this kind that the process did not acknowledge.
pub record PorEnviar (ms : List InfoMensaje) (op : OpCode) (p i : ℕ) : Type 0 where
  pub mensaje : InfoMensaje
  pub lugar : get_elem? ms i ≡ some mensaje
  pub es_op : mensaje.op_code ≡ op
  pub falta : esta_entre p mensaje.suscriptores_que_recibieron ≡ false

-- The answer of a search that does not fault.
pub record Respuesta (ms : List InfoMensaje) (op : OpCode) (p : ℕ) (r : Option (List ℕ))
    : Type 0 where
  pub indices : List ℕ
  pub hecho : r ≡ some indices
  pub todos : Todas (PorEnviar ms op p) indices

-- A cached partition of the operation.
abbrev pub DeOperacion : List InfoMensaje → OpCode → Particion → Type 0
DeOperacion ms op q = Anotado ms op q.id_mensaje

sin_recibir-Respuesta :
    (p : ℕ) (ms : List InfoMensaje) (op : OpCode) (qs : List Particion)
    → Distintas (ids ms)
    → Todas (DeOperacion ms op) qs
    → Respuesta ms op p (sin_recibir p ms qs)
unfolding sin_recibir
sin_recibir-Respuesta p ms op [] h t = record { indices = []; hecho = refl; todos = tt }
sin_recibir-Respuesta p ms op (q ∷ qs) h (a, t) =
    let r = sin_recibir-Respuesta p ms op qs h t in
    let recibio = recibio_mensaje-Anotado p ms op q.id_mensaje a h in
    elim (Bool-cases (esta_entre p a.mensaje.suscriptores_que_recibieron)) [
      | inl e ↦ record { indices = r.indices; hecho = rw (recibio, e, r.hecho); todos = r.todos }
      | inr e ↦ record {
        indices = a.i ∷ r.indices;
        hecho = rw (recibio, e, r.hecho, obtener_mensaje-Anotado ms op q.id_mensaje a h);
        todos =
            (record { mensaje = a.mensaje; lugar = a.lugar; es_op = a.es_op; falta = e }, r.todos);
      }
    ]

cacheados-DeOperacion :
    (ms : List InfoMensaje) (op : OpCode) (t : List Particion)
    → TodasSanas (Registrado ms) t
    → Todas (DeOperacion ms op) (get_mensajes_cacheados_de_operacion op t)
unfolding get_mensajes_cacheados_de_operacion mensaje_cacheado_de_operacion
cacheados-DeOperacion ms op [] h = tt
cacheados-DeOperacion ms op (q ∷ qs) (h, hs) = elim (Option-cases q.codigo_operacion) [
  | inl e ↦ rw e (cacheados-DeOperacion ms op qs hs)
  | inr (o, e) ↦ elim (Bool-cases (mismo_codigo o op)) [
    | inl k ↦
        let a : Anotado ms o q.id_mensaje = rw e at h in
        rw (e, k)
          (
            subst (λ x. Anotado ms x q.id_mensaje) (mismo_codigo_iguales o op k) a,
            cacheados-DeOperacion ms op qs hs,
          )
    | inr k ↦ rw (e, k) (cacheados-DeOperacion ms op qs hs)
  ]
]

-- Where the ids are different and the partitions lead to messages, `getMensajesAEnviar` reads through no NULL pointer, and every message that it
-- answers is of the queue and not acknowledged by the process.
pub get_mensajes_a_enviar-Respuesta :
    (x : OpCode) (c : Cola) (p : ℕ) (ms : List InfoMensaje) (t : List Particion)
    → Distintas (ids ms)
    → TodasSanas (Registrado ms) t
    → Respuesta ms (mensaje_de c) p (get_mensajes_a_enviar x (suscripcion_de c) p ms t)
unfolding get_mensajes_a_enviar
get_mensajes_a_enviar-Respuesta x c p ms t h s = rw (tipo_mensaje_lem x c) (
    sin_recibir-Respuesta p ms (mensaje_de c) (get_mensajes_cacheados_de_operacion (mensaje_de c) t)
      h (cacheados-DeOperacion ms (mensaje_de c) t s))
