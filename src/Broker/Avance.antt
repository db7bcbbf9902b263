-- ===== src/Broker/Avance.antt =====
-- Broker/src/Broker.c: writes to the messages, and a new message, keep the list and the memory
-- together.
use sistemas_operativos_utn.Base.{
  ℕ, zero, suc, ◌≡◌, refl, sym, ap, subst, ◌∙◌, Option, none, some, List, [], ◌∷◌, ◌++◌, arith,
  get_elem?, Todas, Todas-map, Todas-append,
}
use sistemas_operativos_utn.Sockets.Codigos.{OpCode}
use sistemas_operativos_utn.Particiones.Tabla.{Particion}
use sistemas_operativos_utn.Particiones.Rastro.Desalojo.{TodasSanas}
use sistemas_operativos_utn.Broker.Estado.{mensaje_de, InfoMensaje, Broker, modificar}
use sistemas_operativos_utn.Broker.Coherencia.{ids, Anotado, Registrado}
use sistemas_operativos_utn.Broker.Pasos.{
  cola_de_carga, en_mensajes, ConCarga, EnRango, EsCoherente,
}
use sistemas_operativos_utn.Broker.Sistema.{con_mensaje}

-- A write that leaves the code, the id and the payload of a message.
pub record Conserva (f : InfoMensaje → InfoMensaje) : Type 0 where
  pub op : (m : InfoMensaje) → (f m).op_code ≡ m.op_code
  pub id : (m : InfoMensaje) → (f m).id_mensaje ≡ m.id_mensaje
  pub carga : (m : InfoMensaje) → (f m).mensaje ≡ m.mensaje

-- What the list of messages promises to the rest of the state.
abbrev Avanza : List InfoMensaje → List InfoMensaje → Type 0
Avanza ms ms' = (op : Option OpCode) (id : ℕ) → Registrado ms op id → Registrado ms' op id

trasladar :
    (ms ms' : List InfoMensaje) (t : List Particion)
    → Avanza ms ms'
    → TodasSanas (Registrado ms) t
    → TodasSanas (Registrado ms') t
trasladar ms ms' t a = Todas-map _ _ t (λ p s. a p.codigo_operacion p.id_mensaje s)

module _ (f : InfoMensaje → InfoMensaje) (h : Conserva f) where
  pub modificar-ids : (i : ℕ) (ms : List InfoMensaje) → ids (modificar i f ms) ≡ ids ms
  unfolding modificar
  modificar-ids i [] = refl
  modificar-ids zero (m ∷ ms) = ap (λ x. x ∷ ids ms) (h.id m)
  modificar-ids (suc i) (m ∷ ms) = ap (λ xs. m.id_mensaje ∷ xs) (modificar-ids i ms)

  modificar-ConCarga :
      (i : ℕ) (ms : List InfoMensaje) → Todas ConCarga ms → Todas ConCarga (modificar i f ms)
  unfolding modificar
  modificar-ConCarga i [] n = tt
  modificar-ConCarga zero (m ∷ ms) (n, ns) =
      (h.op m ∙ n ∙ ap (λ x. mensaje_de (cola_de_carga x)) (sym (h.carga m)), ns)
  modificar-ConCarga (suc i) (m ∷ ms) (n, ns) = (n, modificar-ConCarga i ms ns)

  modificar-Anotado :
      (op : OpCode) (id i j : ℕ) (ms : List InfoMensaje) (m : InfoMensaje)
      → get_elem? ms j ≡ some m
      → m.op_code ≡ op
      → m.id_mensaje ≡ id
      → Anotado (modificar i f ms) op id
  unfolding modificar
  modificar-Anotado op id i j [] m g o d = ground arith
  modificar-Anotado op id zero zero (n ∷ ms) m g o d =
      let e : n ≡ m = ground arith in
      record {
        i = 0;
        mensaje = f n;
        lugar = refl;
        es_op = h.op n ∙ ap (λ x. x.op_code) e ∙ o;
        es_id = h.id n ∙ ap (λ x. x.id_mensaje) e ∙ d;
      }
  modificar-Anotado op id zero (suc j) (n ∷ ms) m g o d = record {
    i = suc j;
    mensaje = m;
    lugar = g;
    es_op = o;
    es_id = d;
  }
  modificar-Anotado op id (suc i) zero (n ∷ ms) m g o d = record {
    i = 0;
    mensaje = m;
    lugar = g;
    es_op = o;
    es_id = d;
  }
  modificar-Anotado op id (suc i) (suc j) (n ∷ ms) m g o d =
      let r = modificar-Anotado op id i j ms m g o d in
      record { i = suc r.i; mensaje = r.mensaje; lugar = r.lugar; es_op = r.es_op; es_id = r.es_id }

  modificar-Avanza : (i : ℕ) (ms : List InfoMensaje) → Avanza ms (modificar i f ms)
  modificar-Avanza i ms none id r = tt
  modificar-Avanza i ms (some op) id a =
      modificar-Anotado op id i a.i ms a.mensaje a.lugar a.es_op a.es_id

  pub en_mensajes-EsCoherente :
      (i : ℕ) (b : Broker) → EsCoherente b → EsCoherente (en_mensajes i f b)
  en_mensajes-EsCoherente i b c = record {
    en_rango =
        subst (Todas (EnRango b.id_mensaje_global)) (sym (modificar-ids i b.list_mensajes))
          c.en_rango;
    registrada =
        trasladar b.list_mensajes (modificar i f b.list_mensajes) b.memoria.tabla
          (modificar-Avanza i b.list_mensajes) c.registrada;
    cargas = modificar-ConCarga i b.list_mensajes c.cargas;
  }

-- A new message at the end.
pub ids-append : (ms ns : List InfoMensaje) → ids (ms ++ ns) ≡ (ids ms ++ ids ns)
ids-append [] ns = refl
ids-append (m ∷ ms) ns = ap (λ xs. m.id_mensaje ∷ xs) (ids-append ms ns)

pub append-get :
    (i : ℕ) (ms ns : List InfoMensaje) (m : InfoMensaje)
    → get_elem? ms i ≡ some m
    → get_elem? (ms ++ ns) i ≡ some m
append-get i [] ns m e = ground arith
append-get zero (n ∷ ms) ns m e = e
append-get (suc i) (n ∷ ms) ns m e = append-get i ms ns m e

append-Avanza : (ms ns : List InfoMensaje) → Avanza ms (ms ++ ns)
append-Avanza ms ns none id r = tt
append-Avanza ms ns (some op) id a = record {
  i = a.i;
  mensaje = a.mensaje;
  lugar = append-get a.i ms ns a.mensaje a.lugar;
  es_op = a.es_op;
  es_id = a.es_id;
}

pub con_mensaje-EsCoherente :
    (m : InfoMensaje) (b : Broker)
    → ConCarga m
    → EnRango b.id_mensaje_global m.id_mensaje
    → EsCoherente b
    → EsCoherente (con_mensaje m b)
con_mensaje-EsCoherente m b op id c = record {
  en_rango =
      subst (Todas (EnRango b.id_mensaje_global)) (sym (ids-append b.list_mensajes (m ∷ [])))
        (Todas-append (EnRango b.id_mensaje_global) (ids b.list_mensajes) _ c.en_rango (id, tt));
  registrada =
      trasladar b.list_mensajes (b.list_mensajes ++ (m ∷ [])) b.memoria.tabla
        (append-Avanza b.list_mensajes _) c.registrada;
  cargas = Todas-append ConCarga b.list_mensajes _ c.cargas (op, tt);
}
