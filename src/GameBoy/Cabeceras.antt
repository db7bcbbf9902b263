-- ===== src/GameBoy/Cabeceras.antt =====
-- The headers that the Game-Boy and the Broker read from each other, number by number.
use sistemas_operativos_utn.Base.{ℕ, ◌≡◌, refl, subst, Si, ap, ◌∙◌, Option, some, List, ◌++◌}
use sistemas_operativos_utn.Sockets.Codigos.{OpCode, codigo, handshake, ack}
use sistemas_operativos_utn.Sockets.Bytes.{recv_entero}
use sistemas_operativos_utn.Sockets.Deserializacion.{recibir_cabecera, recibir}
use sistemas_operativos_utn.Sockets.Envio.{enviar_ack}
use sistemas_operativos_utn.Broker.Suscripcion.{tras_entero}
use sistemas_operativos_utn.Broker.Servidor.{
  recv_en, operaciones, caso_de, lanzar, atender_operacion, atender,
}
use sistemas_operativos_utn.Broker.Refinamiento.{tras_paso}
use sistemas_operativos_utn.GameBoy.Cliente.{tras_handshake}

-- The three numbers of a header, one after the other.
record Cabecera (s : List ℕ) (operacion size id : ℕ) (resto : List ℕ) : Type 0 where
  pub s1 : List ℕ
  pub s2 : List ℕ
  pub uno : recv_entero s ≡ some (operacion, s1)
  pub dos : recv_entero s1 ≡ some (size, s2)
  pub tres : recv_entero s2 ≡ some (id, resto)

abbrev EsCabecera : List ℕ → (ℕ × ℕ × ℕ) × List ℕ → Type 0
EsCabecera s r = Cabecera s (r.0.0) (r.0.1) (r.0.2) (r.1)

recibir_cabecera-Cabecera : (s : List ℕ) → Si (EsCabecera s) (recibir_cabecera s)
unfolding recibir_cabecera
recibir_cabecera-Cabecera s = tras_paso (EsCabecera s) (recv_entero s) _ (λ a e.
    tras_paso (EsCabecera s) (recv_entero a.1) _ (λ b f.
      tras_paso (EsCabecera s) (recv_entero b.1) _
        (λ c g. record { s1 = a.1; s2 = b.1; uno = e; dos = f; tres = g })))

separar_numeros :
    (s : List ℕ) (operacion size id : ℕ) (resto : List ℕ)
    → recibir_cabecera s ≡ some ((operacion, size, id), resto)
    → Cabecera s operacion size id resto
separar_numeros s operacion size id resto h =
    subst (Si (EsCabecera s)) h (recibir_cabecera-Cabecera s)

-- A message that was received: its header, and its payload behind it.
pub record Recibido {A : Type 0} (deserializar : List ℕ → Option (A × List ℕ)) (s : List ℕ)
    (h : ℕ × ℕ × ℕ) (valor : A) (fin : List ℕ) : Type 0 where
  pub carga : List ℕ
  pub cabecera : recibir_cabecera s ≡ some (h, carga)
  pub leida : deserializar carga ≡ some (valor, fin)

abbrev pub EsRecibido :
    {A : Type 0} → (List ℕ → Option (A × List ℕ)) → List ℕ → ((ℕ × ℕ × ℕ) × A) × List ℕ → Type 0
EsRecibido deserializar s r = Recibido deserializar s (r.0.0) (r.0.1) (r.1)

pub recibir-Recibido :
    {A : Type 0} (deserializar : List ℕ → Option (A × List ℕ)) (s : List ℕ)
    → Si (EsRecibido deserializar s) (recibir deserializar s)
unfolding recibir
recibir-Recibido deserializar s =
    tras_paso (EsRecibido deserializar s) (recibir_cabecera s) _ (λ a e.
      tras_paso (EsRecibido deserializar s) (deserializar a.1) _
        (λ b f. record { carga = a.1; cabecera = e; leida = f }))

tras_entero_lem :
    (s : List ℕ) (n : ℕ) (r : List ℕ) → recv_entero s ≡ some (n, r) → tras_entero s ≡ r
unfolding tras_entero
tras_entero_lem s n r e = rw (tras_entero, e) refl

recv_en_lem :
    (v : ℕ) (s : List ℕ) (n : ℕ) (r : List ℕ) → recv_entero s ≡ some (n, r) → recv_en v s ≡ (n, r)
unfolding recv_en
recv_en_lem v s n r e = rw (recv_en, e) refl

-- The ACK that was waited for is read off the connection.
tras_handshake_ack :
    (resto : List ℕ → Option (List ℕ × List ℕ)) (saludo s s1 fin enviado sobra : List ℕ)
    → recv_entero s ≡ some (codigo ack, s1)
    → tras_entero (tras_entero s1) ≡ fin
    → resto fin ≡ some (enviado, sobra)
    → tras_handshake resto saludo s ≡ some (saludo ++ enviado, sobra)
unfolding tras_handshake codigo
tras_handshake_ack resto saludo s s1 fin enviado sobra e f g = rw (tras_handshake, e, f, g) refl

pub tras_handshake_lem :
    (resto : List ℕ → Option (List ℕ × List ℕ)) (saludo s fin enviado sobra : List ℕ) (size id : ℕ)
    → recibir_cabecera s ≡ some ((codigo ack, size, id), fin)
    → resto fin ≡ some (enviado, sobra)
    → tras_handshake resto saludo s ≡ some (saludo ++ enviado, sobra)
tras_handshake_lem resto saludo s fin enviado sobra size id h e =
    let c = separar_numeros s (codigo ack) size id fin h in
    tras_handshake_ack resto saludo s c.s1 fin enviado sobra c.uno
      (ap tras_entero (tras_entero_lem c.s1 size c.s2 c.dos) ∙ tras_entero_lem c.s2 id fin c.tres) e

atender_operacion_lem :
    (s fin : List ℕ) (op : OpCode) (p k id : ℕ)
    → Cabecera s (codigo op) k id fin
    → atender_operacion p s ≡ lanzar (caso_de (codigo op) operaciones) p id fin
unfolding atender_operacion
atender_operacion_lem s fin op p k id c =
    let dos = recv_en_lem 0 c.s1 k c.s2 c.dos in
    let tres = recv_en_lem 0 c.s2 id fin c.tres in rw (atender_operacion, c.uno, dos, tres) refl

atender_handshake :
    (malloc : ℕ → List ℕ) (s s' acuse : List ℕ) (n p : ℕ)
    → Cabecera s (codigo handshake) n p s'
    → enviar_ack malloc 0 ≡ some acuse
    → atender malloc s ≡ some (acuse, atender_operacion p s')
unfolding atender codigo
atender_handshake malloc s s' acuse n p c e =
    let dos = recv_en_lem 0 c.s1 n c.s2 c.dos in
    let tres = recv_en_lem 0 c.s2 p s' c.tres in rw (atender, c.uno, dos, tres, e) refl

-- The Broker reads a handshake and the header of a message behind it.
pub atender_mensaje :
    (malloc : ℕ → List ℕ) (s s' fin acuse : List ℕ) (op : OpCode) (n p k id : ℕ)
    → recibir_cabecera s ≡ some ((codigo handshake, n, p), s')
    → recibir_cabecera s' ≡ some ((codigo op, k, id), fin)
    → enviar_ack malloc 0 ≡ some acuse
    → atender malloc s ≡ some (acuse, lanzar (caso_de (codigo op) operaciones) p id fin)
atender_mensaje malloc s s' fin acuse op n p k id h h' e =
    atender_handshake malloc s s' acuse n p (separar_numeros s (codigo handshake) n p s' h) e
    ∙ ap (λ z. some (acuse, z))
        (atender_operacion_lem s' fin op p k id (separar_numeros s' (codigo op) k id fin h'))
