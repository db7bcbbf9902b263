-- ===== src/Broker/Duplicados.antt =====
-- Broker/src/Broker.c: two messages with the same id, as two threads enter them when the second of
-- them increments `id_mensaje_global` before the first has read it (`get_id`).
use sistemas_operativos_utn.Base.{
  ℕ, zero, suc, ◌≡◌, ◌≤◌, ◌<◌, refl, ap, ◌∙◌, true, none, some, List, [], ◌∷◌, arith, length,
  get_elem?, ◌==◌, Bool-cases, Option-cases, inl, inr,
}
use sistemas_operativos_utn.Sockets.Codigos.{OpCode, codigo}
use sistemas_operativos_utn.Particiones.Tabla.{Particion}
use sistemas_operativos_utn.Broker.Estado.{
  Cola, suscripcion_de, mensaje_de, mismo_codigo, InfoMensaje,
}
use sistemas_operativos_utn.Broker.Consultas.{
  con_ese_id, es_el_mensaje, unico, obtener_mensaje, recibio_mensaje, sin_recibir,
  mensaje_cacheado_de_operacion, get_mensajes_cacheados_de_operacion, get_mensajes_a_enviar,
}
use sistemas_operativos_utn.Broker.Codigos.{tipo_mensaje_lem}

con_ese_id_alguno :
    (id k j : ℕ) (ms : List InfoMensaje) (n : InfoMensaje)
    → get_elem? ms j ≡ some n
    → n.id_mensaje ≡ id
    → 1 ≤ length (con_ese_id id k ms)
unfolding con_ese_id es_el_mensaje
con_ese_id_alguno id k j [] n g p = ground arith
con_ese_id_alguno id k zero (m ∷ ms) n g p =
    let mismo : m ≡ n = ground arith in
    let igual : m.id_mensaje ≡ id = ap (λ x. x.id_mensaje) mismo ∙ p in ground arith
con_ese_id_alguno id k (suc j) (m ∷ ms) n g p =
    let sigue = con_ese_id_alguno id (suc k) j ms n g p in ground arith

con_ese_id_dos :
    (id k i j : ℕ) (ms : List InfoMensaje) (m n : InfoMensaje)
    → i < j
    → get_elem? ms i ≡ some m
    → get_elem? ms j ≡ some n
    → m.id_mensaje ≡ id
    → n.id_mensaje ≡ id
    → 2 ≤ length (con_ese_id id k ms)
unfolding con_ese_id es_el_mensaje
con_ese_id_dos id k i j [] m n l e g o p = ground arith
con_ese_id_dos id k i zero (r ∷ ms) m n l e g o p = omega arith
con_ese_id_dos id k zero (suc j) (r ∷ ms) m n l e g o p =
    let mismo : r ≡ m = ground arith in
    let igual : r.id_mensaje ≡ id = ap (λ x. x.id_mensaje) mismo ∙ o in
    let sigue = con_ese_id_alguno id (suc k) j ms n g p in ground arith
con_ese_id_dos id k (suc i) (suc j) (r ∷ ms) m n l e g o p =
    let sigue = con_ese_id_dos id (suc k) i j ms m n (omega arith) e g o p in ground arith

unico_varios : (is : List ℕ) → 2 ≤ length is → unico is ≡ none
unfolding unico
unico_varios [] h = refl
unico_varios (i ∷ []) h = ground arith
unico_varios (i ∷ (j ∷ is)) h = refl

sin_recibir_fallo :
    (p : ℕ) (ms : List InfoMensaje) (op : OpCode) (t : List Particion) (k : ℕ) (q : Particion)
    → get_elem? t k ≡ some q
    → q.codigo_operacion ≡ some op
    → recibio_mensaje p q.id_mensaje ms ≡ none
    → sin_recibir p ms (get_mensajes_cacheados_de_operacion op t) ≡ none
unfolding sin_recibir get_mensajes_cacheados_de_operacion mensaje_cacheado_de_operacion mismo_codigo
sin_recibir_fallo p ms op [] k q g c r = ground arith
sin_recibir_fallo p ms op (s ∷ ss) zero q g c r =
    let mismo : s ≡ q = ground arith in
    let cs : s.codigo_operacion ≡ some op = ap (λ y. y.codigo_operacion) mismo ∙ c in
    let rs : recibio_mensaje p s.id_mensaje ms ≡ none =
      ap (λ y. recibio_mensaje p y.id_mensaje ms) mismo ∙ r in
    let igual : (codigo op == codigo op) ≡ true = ground arith in rw (cs, igual, rs) refl
sin_recibir_fallo p ms op (s ∷ ss) (suc k) q g c r =
    let sigue = sin_recibir_fallo p ms op ss k q g c r in
    elim (Bool-cases (mensaje_cacheado_de_operacion s op)) [
      | inr e ↦ rw e sigue
      | inl e ↦ elim (Option-cases (recibio_mensaje p s.id_mensaje ms)) [
        | inl n ↦ rw (e, n) refl
        | inr (x, n) ↦ rw (e, n, sigue) refl
      ]
    ]

-- If two messages of the list have the same id and a partition holds a message of a queue with
-- that id, then `getMensajesAEnviar` for the queue reads through the NULL that `obtenerMensaje`
-- answers, whatever the process is.
pub get_mensajes_a_enviar-duplicado :
    (x : OpCode) (cola : Cola) (p i j k : ℕ) (ms : List InfoMensaje) (m n : InfoMensaje)
    (t : List Particion) (q : Particion)
    → i < j
    → get_elem? ms i ≡ some m
    → get_elem? ms j ≡ some n
    → n.id_mensaje ≡ m.id_mensaje
    → get_elem? t k ≡ some q
    → q.codigo_operacion ≡ some (mensaje_de cola)
    → q.id_mensaje ≡ m.id_mensaje
    → get_mensajes_a_enviar x (suscripcion_de cola) p ms t ≡ none
unfolding get_mensajes_a_enviar recibio_mensaje obtener_mensaje
get_mensajes_a_enviar-duplicado x cola p i j k ms m n t q l e g d h c r =
    let dos = con_ese_id_dos m.id_mensaje 0 i j ms m n l e g refl d in
    let nadie : recibio_mensaje p q.id_mensaje ms ≡ none =
      rw (r, unico_varios (con_ese_id m.id_mensaje 0 ms) dos) refl in
    rw (tipo_mensaje_lem x cola) (sin_recibir_fallo p ms (mensaje_de cola) t k q h c nadie)
