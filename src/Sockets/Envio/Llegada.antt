-- ===== src/Sockets/Envio/Llegada.antt =====
-- What `enviar_*` sends arrives: the other side reads the header and the payload back.
use sistemas_operativos_utn.Base.{
  ℕ, ◌+◌, ◌^◌, ◌<◌, ◌≡◌, refl, ap, Option, some, List, [], ◌∷◌, ◌++◌, length, arith, length-append,
  Bool, Bool-cases, ◌||◌, inl, inr,
}
use sistemas_operativos_utn.Universo.{
  New, Get, Appeared, Catch, Caught, tamanio_new, tamanio_get, tamanio_appeared, tamanio_catch,
}
use sistemas_operativos_utn.Sockets.Codigos.{
  OpCode, codigo, new_pokemon, appeared_pokemon, catch_pokemon, caught_pokemon, get_pokemon,
}
use sistemas_operativos_utn.Sockets.Serializacion.{Paquete}
use sistemas_operativos_utn.Sockets.Deserializacion.{
  recibir, deserializar_paquete_new, deserializar_paquete_appeared, deserializar_paquete_catch,
  deserializar_paquete_get, deserializar_paquete_caught,
}
use sistemas_operativos_utn.Sockets.Copia.{take_todo}
use sistemas_operativos_utn.Sockets.Viaje.{PokemonBien, Viaja}
use sistemas_operativos_utn.Sockets.IdaYVuelta.{
  serializar_paquete_new-Viaja, serializar_paquete_appeared-Viaja, serializar_paquete_catch-Viaja,
  serializar_paquete_get-Viaja, serializar_paquete_caught-Viaja,
}
use sistemas_operativos_utn.Sockets.Envio.{
  iguales, send, pokemon_de, fue_atrapado_de, enviar_new_pokemon, enviar_appeared_pokemon,
  enviar_catch_pokemon, enviar_caught_pokemon, enviar_get_pokemon,
}

-- The call sends some bytes, and whatever follows them on the connection, the receiver reads this
-- header and this value and leaves what follows.
pub record Llega {A : Type 0} (envio : Option (List ℕ))
    (deserializar : List ℕ → Option (A × List ℕ)) (operacion : OpCode) (size id_mensaje : ℕ)
    (valor : A) : Type 0 where
  pub enviado : List ℕ
  pub hecho : envio ≡ some enviado
  pub vuelta :
      (resto : List ℕ)
      → recibir deserializar (enviado ++ resto)
        ≡ some (((codigo operacion, size, id_mensaje), valor), resto)

pub llega :
    {A : Type 0} {serializado : Option (List ℕ × ℕ)} {deserializar : List ℕ → Option (A × List ℕ)}
    {p : Paquete} {valor : A}
    → Viaja serializado deserializar p valor
    → Llega (send serializado) deserializar p.codigo_operacion p.size p.id_mensaje valor
unfolding send
llega v = record {
  enviado = v.stream;
  hecho = rw v.hecho (ap some (take_todo (length v.stream) v.stream refl));
  vuelta = v.vuelta;
}

-- A text short enough that its message still has a size in an `int32_t`.
abbrev pub Corto : List ℕ → Type 0
Corto nombre = length nombre + 64 < 2 ^ 32

pokemon_de-PokemonBien : (nombre : List ℕ) → Corto nombre → PokemonBien (pokemon_de nombre)
unfolding pokemon_de
pokemon_de-PokemonBien nombre c = record {
  largo = omega (arith, length-append nombre (0 ∷ []));
  cabe = omega arith;
}

fue_atrapado_cabe :
    (sin_iniciar : ℕ) (texto : List ℕ)
    → sin_iniciar < 2 ^ 32
    → fue_atrapado_de sin_iniciar texto < 2 ^ 32
unfolding fue_atrapado_de
fue_atrapado_cabe sin_iniciar texto h = elim (Bool-cases ok) [
  | inl e ↦ rw e (omega arith)
  | inr e ↦ rw e (elim (Bool-cases fail) [ inl f ↦ rw f (omega arith) | inr f ↦ rw f h ])
]
  where
    ok : Bool
    ok = iguales texto (b'O' ∷ (b'K' ∷ [])) || iguales texto (b'1' ∷ [])

    fail : Bool
    fail = iguales texto (b'F' ∷ (b'A' ∷ (b'I' ∷ (b'L' ∷ [])))) || iguales texto (b'0' ∷ [])

module _ (malloc : ℕ → List ℕ) (atoi : List ℕ → ℕ) (m : (n : ℕ) → length (malloc n) ≡ n)
    (a : (s : List ℕ) → atoi s < 2 ^ 32) where
  -- NEW_POKEMON: if `malloc n` returns n bytes, `atoi` an `int32_t`, and the name is short enough,
  -- the receiver reads the name with its final 0, the position, the amount and the id that the
  -- texts stand for, and the size that `tamanio_new` gives for them.
  pub enviar_new_pokemon-Llega :
      (pokemon x y cantidad id : List ℕ)
      → Corto pokemon
      → let new : New = record {
        pokemon = pokemon_de pokemon;
        posicion = record { x = atoi x; y = atoi y };
        cant = atoi cantidad;
      } in
        Llega
          (enviar_new_pokemon malloc atoi pokemon x y cantidad id)
          deserializar_paquete_new
          new_pokemon
          (length pokemon + 17)
          (atoi id)
          new
  unfolding enviar_new_pokemon
  enviar_new_pokemon-Llega pokemon x y cantidad id c =
      let new : New = record {
        pokemon = pokemon_de pokemon;
        posicion = record { x = atoi x; y = atoi y };
        cant = atoi cantidad;
      } in
      let tam : tamanio_new new ≡ length pokemon + 17 = omega arith in
      let p : Paquete = record {
        codigo_operacion = new_pokemon;
        size = tamanio_new new;
        id_mensaje = atoi id;
      } in
      rw (← tam) (
        llega (
          serializar_paquete_new-Viaja malloc m p new refl
            (record { size_cabe = omega (arith, tam); id_cabe = a id })
            (pokemon_de-PokemonBien pokemon c) (record { x_cabe = a x; y_cabe = a y })
            (a cantidad)))

  -- APPEARED_POKEMON: likewise, with the name, the position and the correlative id.
  pub enviar_appeared_pokemon-Llega :
      (pokemon x y id : List ℕ)
      → Corto pokemon
      → let app : Appeared = record {
        pokemon = pokemon_de pokemon;
        posicion = record { x = atoi x; y = atoi y };
      } in
        Llega
          (enviar_appeared_pokemon malloc atoi pokemon x y id)
          deserializar_paquete_appeared
          appeared_pokemon
          (length pokemon + 13)
          (atoi id)
          app
  unfolding enviar_appeared_pokemon
  enviar_appeared_pokemon-Llega pokemon x y id c =
      let app : Appeared = record {
        pokemon = pokemon_de pokemon;
        posicion = record { x = atoi x; y = atoi y };
      } in
      let tam : tamanio_appeared app ≡ length pokemon + 13 = omega arith in
      let p : Paquete = record {
        codigo_operacion = appeared_pokemon;
        size = tamanio_appeared app;
        id_mensaje = atoi id;
      } in
      rw (← tam) (
        llega (
          serializar_paquete_appeared-Viaja malloc m p app refl
            (record { size_cabe = omega (arith, tam); id_cabe = a id })
            (pokemon_de-PokemonBien pokemon c) (record { x_cabe = a x; y_cabe = a y })))

  -- CATCH_POKEMON: likewise, with the name, the position and the id.
  pub enviar_catch_pokemon-Llega :
      (pokemon x y id : List ℕ)
      → Corto pokemon
      → let catch : Catch = record {
        pokemon = pokemon_de pokemon;
        posicion = record { x = atoi x; y = atoi y };
      } in
        Llega
          (enviar_catch_pokemon malloc atoi pokemon x y id)
          deserializar_paquete_catch
          catch_pokemon
          (length pokemon + 13)
          (atoi id)
          catch
  unfolding enviar_catch_pokemon
  enviar_catch_pokemon-Llega pokemon x y id c =
      let catch : Catch = record {
        pokemon = pokemon_de pokemon;
        posicion = record { x = atoi x; y = atoi y };
      } in
      let tam : tamanio_catch catch ≡ length pokemon + 13 = omega arith in
      let p : Paquete = record {
        codigo_operacion = catch_pokemon;
        size = tamanio_catch catch;
        id_mensaje = atoi id;
      } in
      rw (← tam) (
        llega (
          serializar_paquete_catch-Viaja malloc m p catch refl
            (record { size_cabe = omega (arith, tam); id_cabe = a id })
            (pokemon_de-PokemonBien pokemon c) (record { x_cabe = a x; y_cabe = a y })))

  -- GET_POKEMON: likewise, with the name and the id.
  pub enviar_get_pokemon-Llega :
      (pokemon id : List ℕ)
      → Corto pokemon
      → Llega
          (enviar_get_pokemon malloc atoi pokemon id)
          deserializar_paquete_get
          get_pokemon
          (length pokemon + 5)
          (atoi id)
          (record { pokemon = pokemon_de pokemon })
  unfolding enviar_get_pokemon
  enviar_get_pokemon-Llega pokemon id c =
      let get : Get = record { pokemon = pokemon_de pokemon } in
      let tam : tamanio_get get ≡ length pokemon + 5 = omega arith in
      let p : Paquete = record {
        codigo_operacion = get_pokemon;
        size = tamanio_get get;
        id_mensaje = atoi id;
      } in
      rw (← tam) (
        llega (
          serializar_paquete_get-Viaja malloc m p get refl
            (record { size_cabe = omega (arith, tam); id_cabe = a id })
            (pokemon_de-PokemonBien pokemon c)))

  -- CAUGHT_POKEMON: the correlative id arrives, and as the result 1 for "OK" and "1", 0 for "FAIL"
  -- and "0", and for any other text what the variable held before it was set.
  pub enviar_caught_pokemon-Llega :
      (sin_iniciar : ℕ) (id texto : List ℕ)
      → sin_iniciar < 2 ^ 32
      → Llega
          (enviar_caught_pokemon malloc atoi sin_iniciar id texto)
          deserializar_paquete_caught
          caught_pokemon
          4
          (atoi id)
          (record { fue_atrapado = fue_atrapado_de sin_iniciar texto })
  unfolding enviar_caught_pokemon
  enviar_caught_pokemon-Llega sin_iniciar id texto h =
      let caught : Caught = record { fue_atrapado = fue_atrapado_de sin_iniciar texto } in
      llega (
        serializar_paquete_caught-Viaja malloc m
          (record { codigo_operacion = caught_pokemon; size = 4; id_mensaje = atoi id }) caught refl
          (record { size_cabe = omega arith; id_cabe = a id })
          (fue_atrapado_cabe sin_iniciar texto h))
