-- ===== src/Sockets/Envio.antt =====
-- OurLibraries/Sockets/mensajes.c, and `enviar_handshake`, `enviar_suscripcion` and `enviar_ACK` of
-- sockets.c: each builds the packet of a message and sends it. The value is the bytes sent.
--
-- A C string is its bytes without the final 0; its block in memory has the 0. `atoi` and `malloc`
-- are the library's.
pub mod Llegada
pub mod ConNombre
pub mod Control
use sistemas_operativos_utn.Base.{
  ℕ, zero, suc, ◌+◌, Bool, true, false, ◌&&◌, ◌||◌, Option, none, some, List, [], ◌∷◌, ◌++◌, length,
  ◌==◌, if◌then◌else◌, ◌>>=◌,
}
use sistemas_operativos_utn.Universo.{
  Posicion, Pokemon, New, Localized, Get, Appeared, Catch, Caught, tamanio_new, tamanio_localized,
  tamanio_get, tamanio_appeared, tamanio_catch, tamanio_caught,
}
use sistemas_operativos_utn.Sockets.Codigos.{
  OpCode, new_pokemon, appeared_pokemon, catch_pokemon, caught_pokemon, get_pokemon,
  localized_pokemon, ack, handshake,
}
use sistemas_operativos_utn.Sockets.Bytes.{take}
use sistemas_operativos_utn.Sockets.Serializacion.{
  Paquete, serializar_paquete_new, serializar_paquete_appeared, serializar_paquete_catch,
  serializar_paquete_get, serializar_paquete_caught, serializar_paquete_localized,
  serializar_handshake, serializar_paquete_suscripcion, serializar_ack,
}

-- `strcmp(a, b) == 0`.
unfoldable pub iguales : List ℕ → List ℕ → Bool
iguales [] [] = true
iguales (a ∷ resto) (b ∷ bs) = a == b && iguales resto bs
iguales _ _ = false

-- `send(socket, stream, bytes, 0)`.
unfoldable pub send : Option (List ℕ × ℕ) → Option (List ℕ)
send serializado = do (stream, bytes) ← serializado; some (take bytes stream)

-- A `t_pokemon` from a C string.
unfoldable pub pokemon_de : List ℕ → Pokemon
pokemon_de nombre = record { size_nombre = length nombre + 1; nombre = nombre ++ (0 ∷ []) }

-- The answer as a number; another text leaves the variable as it was.
unfoldable pub fue_atrapado_de : ℕ → List ℕ → ℕ
unfolding iguales
fue_atrapado_de sin_iniciar texto =
    if iguales texto (b'O' ∷ (b'K' ∷ [])) || iguales texto (b'1' ∷ [])
    then 1
    else if iguales texto (b'F' ∷ (b'A' ∷ (b'I' ∷ (b'L' ∷ [])))) || iguales texto (b'0' ∷ [])
    then 0
    else sin_iniciar

module _ (malloc : ℕ → List ℕ) (atoi : List ℕ → ℕ) where
  unfoldable pub enviar_new_pokemon : List ℕ → List ℕ → List ℕ → List ℕ → List ℕ → Option (List ℕ)
  unfolding send pokemon_de serializar_paquete_new tamanio_new
  enviar_new_pokemon pokemon x y cantidad id_mensaje =
      let new : New = record {
        pokemon = pokemon_de pokemon;
        posicion = record { x = atoi x; y = atoi y };
        cant = atoi cantidad;
      } in
      send (
        serializar_paquete_new malloc
          (record {
            codigo_operacion = new_pokemon;
            size = tamanio_new new;
            id_mensaje = atoi id_mensaje;
          })
          new)

  unfoldable pub enviar_appeared_pokemon : List ℕ → List ℕ → List ℕ → List ℕ → Option (List ℕ)
  unfolding send pokemon_de serializar_paquete_appeared tamanio_appeared
  enviar_appeared_pokemon pokemon x y id_mensaje_correlativo =
      let app : Appeared = record {
        pokemon = pokemon_de pokemon;
        posicion = record { x = atoi x; y = atoi y };
      } in
      send (
        serializar_paquete_appeared malloc
          (record {
            codigo_operacion = appeared_pokemon;
            size = tamanio_appeared app;
            id_mensaje = atoi id_mensaje_correlativo;
          })
          app)

  unfoldable pub enviar_catch_pokemon : List ℕ → List ℕ → List ℕ → List ℕ → Option (List ℕ)
  unfolding send pokemon_de serializar_paquete_catch tamanio_catch
  enviar_catch_pokemon pokemon x y id_mensaje =
      let catch : Catch = record {
        pokemon = pokemon_de pokemon;
        posicion = record { x = atoi x; y = atoi y };
      } in
      send (
        serializar_paquete_catch malloc
          (record {
            codigo_operacion = catch_pokemon;
            size = tamanio_catch catch;
            id_mensaje = atoi id_mensaje;
          })
          catch)

  unfoldable pub enviar_caught_pokemon : ℕ → List ℕ → List ℕ → Option (List ℕ)
  unfolding send fue_atrapado_de serializar_paquete_caught tamanio_caught
  enviar_caught_pokemon sin_iniciar id_mensaje_correlativo fue_atrapado =
      let caught : Caught = record { fue_atrapado = fue_atrapado_de sin_iniciar fue_atrapado } in
      send (
        serializar_paquete_caught malloc
          (record {
            codigo_operacion = caught_pokemon;
            size = tamanio_caught caught;
            id_mensaje = atoi id_mensaje_correlativo;
          })
          caught)

  unfoldable pub enviar_get_pokemon : List ℕ → List ℕ → Option (List ℕ)
  unfolding send pokemon_de serializar_paquete_get tamanio_get
  enviar_get_pokemon pokemon id_mensaje =
      let get : Get = record { pokemon = pokemon_de pokemon } in
      send (
        serializar_paquete_get malloc
          (record {
            codigo_operacion = get_pokemon;
            size = tamanio_get get;
            id_mensaje = atoi id_mensaje;
          })
          get)

module _ (malloc : ℕ → List ℕ) where
  unfoldable pub enviar_localized_pokemon : Pokemon → List Posicion → ℕ → Option (List ℕ)
  unfolding send serializar_paquete_localized tamanio_localized
  enviar_localized_pokemon pokemon lista_de_posiciones id_mensaje =
      let localized : Localized = record {
        pokemon = pokemon;
        lista_posiciones = lista_de_posiciones;
      } in
      send (
        serializar_paquete_localized malloc
          (record {
            codigo_operacion = localized_pokemon;
            size = tamanio_localized localized;
            id_mensaje = id_mensaje;
          })
          localized)

  -- The size that the next three put in the header is `sizeof(NULL)`, and no payload follows.
  unfoldable pub enviar_handshake : ℕ → Option (List ℕ)
  unfolding send serializar_handshake
  enviar_handshake id_proceso = send (
      serializar_handshake malloc
        (record { codigo_operacion = handshake; size = 8; id_mensaje = id_proceso }))

  unfoldable pub enviar_suscripcion : OpCode → Option (List ℕ)
  unfolding send serializar_paquete_suscripcion
  enviar_suscripcion operacion = send (
      serializar_paquete_suscripcion malloc
        (record { codigo_operacion = operacion; size = 8; id_mensaje = 0 }))

  unfoldable pub enviar_ack : ℕ → Option (List ℕ)
  unfolding send serializar_ack
  enviar_ack id_mensaje =
      send (
        serializar_ack malloc
          (record { codigo_operacion = ack; size = 8; id_mensaje = id_mensaje }))
