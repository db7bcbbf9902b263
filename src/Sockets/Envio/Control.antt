-- ===== src/Sockets/Envio/Control.antt =====
-- `enviar_localized_pokemon`, and the messages that are a header alone.
use sistemas_operativos_utn.Base.{
  ℕ, ◌+◌, ◌*◌, ◌^◌, ◌<◌, ◌≡◌, ◌≢◌, refl, ap, Option, some, List, [], ◌∷◌, ◌++◌, length, arith,
}
use sistemas_operativos_utn.Universo.{Posicion, Pokemon, Localized, tamanio_localized}
use sistemas_operativos_utn.Sockets.Codigos.{OpCode, codigo, localized_pokemon, ack, handshake}
use sistemas_operativos_utn.Sockets.Serializacion.{Paquete, serializar_campos}
use sistemas_operativos_utn.Sockets.Deserializacion.{
  recibir_cabecera, recibir, deserializar_paquete_localized,
}
use sistemas_operativos_utn.Sockets.Copia.{take_todo, serializar_campos_lem, imagen, length-imagen}
use sistemas_operativos_utn.Sockets.Viaje.{PaqueteBien, PokemonBien, cabecera_vuelve}
use sistemas_operativos_utn.Sockets.Localizada.{
  PosicionesBien, recibida, serializar_paquete_localized-Viaja,
}
use sistemas_operativos_utn.Sockets.Envio.{
  send, enviar_localized_pokemon, enviar_handshake, enviar_suscripcion, enviar_ack,
}
use sistemas_operativos_utn.Sockets.Localizada.{recibida-ne}
use sistemas_operativos_utn.Sockets.Envio.Llegada.{Llega, llega}

module _ (malloc : ℕ → List ℕ) (m : (n : ℕ) → length (malloc n) ≡ n) where
  -- LOCALIZED_POKEMON: the receiver reads the header and the pokemon as they were sent, and as
  -- many positions, all of them the last one sent; an empty list arrives empty.
  pub enviar_localized_pokemon-Llega :
      (sin_iniciar : Posicion) (pokemon : Pokemon) (posiciones : List Posicion) (id : ℕ)
      → PokemonBien pokemon
      → PosicionesBien posiciones
      → length posiciones < 2 ^ 32
      → pokemon.size_nombre + 8 + 8 * length posiciones < 2 ^ 32
      → id < 2 ^ 32
      → Llega
          (enviar_localized_pokemon malloc pokemon posiciones id)
          (deserializar_paquete_localized sin_iniciar)
          localized_pokemon
          (pokemon.size_nombre + 8 + 8 * length posiciones)
          id
          (recibida sin_iniciar (record { pokemon = pokemon; lista_posiciones = posiciones }))
  unfolding enviar_localized_pokemon
  enviar_localized_pokemon-Llega sin_iniciar pokemon posiciones id bk bs bc bt bi =
      let l : Localized = record { pokemon = pokemon; lista_posiciones = posiciones } in
      let tam : tamanio_localized l ≡ pokemon.size_nombre + 8 + 8 * length posiciones =
        ground arith in
      let p : Paquete = record {
        codigo_operacion = localized_pokemon;
        size = tamanio_localized l;
        id_mensaje = id;
      } in
      rw (← tam) (
        llega (
          serializar_paquete_localized-Viaja malloc m p sin_iniciar l refl
            (record { size_cabe = omega (arith, tam); id_cabe = bi }) bk bs bc))

-- The call sends twelve bytes, which the other side reads as this header.
pub record LlegaCabecera (envio : Option (List ℕ)) (operacion : OpCode) (size id_mensaje : ℕ)
    : Type 0 where
  pub enviado : List ℕ
  pub hecho : envio ≡ some enviado
  pub largo : length enviado ≡ 12
  pub vuelta :
      (resto : List ℕ)
      → recibir_cabecera (enviado ++ resto) ≡ some ((codigo operacion, size, id_mensaje), resto)

module _ (malloc : ℕ → List ℕ) (m : (n : ℕ) → length (malloc n) ≡ n) where
  llega_cabecera :
      (p : Paquete)
      → PaqueteBien p
      → LlegaCabecera
          (send (serializar_campos malloc p 12 []))
          p.codigo_operacion
          p.size
          p.id_mensaje
  unfolding send
  llega_cabecera p b =
      let l = length-imagen p [] in
      record {
        enviado = imagen p [];
        hecho =
            rw (serializar_campos_lem malloc p 12 [] (m 12) refl)
              (ap some (take_todo 12 (imagen p []) (omega (arith, l))));
        largo = l;
        vuelta = λ resto. cabecera_vuelve p [] resto b;
      }

  -- HANDSHAKE, the subscriptions and ACK: twelve bytes arrive as the operation, the size 8, which
  -- no payload follows, and the process id, 0, or the id of the message.
  pub enviar_control-LlegaCabecera :
      (operacion : OpCode) (id : ℕ)
      → id < 2 ^ 32
      → LlegaCabecera (enviar_handshake malloc id) handshake 8 id
        × LlegaCabecera (enviar_suscripcion malloc operacion) operacion 8 0
        × LlegaCabecera (enviar_ack malloc id) ack 8 id
  unfolding enviar_handshake enviar_suscripcion enviar_ack
  enviar_control-LlegaCabecera operacion id h = (
    llega_cabecera (record { codigo_operacion = handshake; size = 8; id_mensaje = id })
        (record { size_cabe = omega arith; id_cabe = h }),
    llega_cabecera (record { codigo_operacion = operacion; size = 8; id_mensaje = 0 })
        (record { size_cabe = omega arith; id_cabe = omega arith }),
    llega_cabecera (record { codigo_operacion = ack; size = 8; id_mensaje = id })
        (record { size_cabe = omega arith; id_cabe = h }),
  )

-- A list of positions whose first two differ does not arrive: what the receiver reads from the
-- bytes that `enviar_localized_pokemon` sent is another payload than the one sent.
pub enviar_localized_pokemon-ne :
    (malloc : ℕ → List ℕ) (m : (n : ℕ) → length (malloc n) ≡ n) (sin_iniciar : Posicion)
    (pokemon : Pokemon) (q r : Posicion) (rs : List Posicion) (id : ℕ) {enviado : List ℕ}
    {cabecera : ℕ × ℕ × ℕ} {leida : Localized} {resto : List ℕ}
    → PokemonBien pokemon
    → PosicionesBien (q ∷ (r ∷ rs))
    → pokemon.size_nombre + 24 + 8 * length rs < 2 ^ 32
    → id < 2 ^ 32
    → q ≢ r
    → enviar_localized_pokemon malloc pokemon (q ∷ (r ∷ rs)) id ≡ some enviado
    → recibir (deserializar_paquete_localized sin_iniciar) (enviado ++ resto)
      ≡ some ((cabecera, leida), resto)
    → leida ≢ record { pokemon = pokemon; lista_posiciones = q ∷ (r ∷ rs) }
enviar_localized_pokemon-ne malloc m sin_iniciar pokemon q r rs id {enviado} {cabecera} {leida}
      {resto} bk bs bt bi d h v e =
    let l =
      enviar_localized_pokemon-Llega malloc m sin_iniciar pokemon (q ∷ (r ∷ rs)) id bk bs
        (omega arith) (omega arith) bi in
    let mismo : l.enviado ≡ enviado = cc (l.hecho, h) in
    let llegada = rw mismo at (l.vuelta resto) in
    recibida-ne sin_iniciar (record { pokemon = pokemon; lista_posiciones = q ∷ (r ∷ rs) }) q r rs
      refl d (cc (llegada, v, e))
