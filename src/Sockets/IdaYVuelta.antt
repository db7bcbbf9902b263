-- ===== src/Sockets/IdaYVuelta.antt =====
-- What one process serializes and sends, the other one reads back: one theorem for each kind of
-- message.
use sistemas_operativos_utn.Base.{ℕ, ◌+◌, ◌^◌, ◌<◌, ◌≡◌, List, [], ◌∷◌, length, arith}
use sistemas_operativos_utn.Universo.{
  New, Get, Appeared, Catch, Caught, tamanio_new, tamanio_get, tamanio_appeared, tamanio_catch,
  tamanio_caught,
}
use sistemas_operativos_utn.Sockets.Bytes.{bytes_de}
use sistemas_operativos_utn.Sockets.Serializacion.{
  Paquete, campos_posicion, serializar_paquete_new, serializar_paquete_appeared,
  serializar_paquete_catch, serializar_paquete_get, serializar_paquete_caught,
}
use sistemas_operativos_utn.Sockets.Deserializacion.{
  deserializar_paquete_new, deserializar_paquete_appeared, deserializar_paquete_catch,
  deserializar_paquete_get, deserializar_paquete_caught,
}
use sistemas_operativos_utn.Sockets.Viaje.{
  PaqueteBien, PosicionBien, PokemonBien, Viaja, viaja, leer_nombre_lem,
}
use sistemas_operativos_utn.Sockets.Campos.{
  campos_pokemon, largo_pokemon, pokemon_antes, posicion_antes, entero_antes, largo_posicion,
  largo_entero,
}

module _ (malloc : ℕ → List ℕ) (m : (n : ℕ) → length (malloc n) ≡ n) (p : Paquete) where
  -- NEW_POKEMON: with a packet whose size is `tamanio_new`, the block is reserved and filled
  -- without a write outside it, and the receiver reads the header and the same payload.
  pub serializar_paquete_new-Viaja :
      (new : New)
      → p.size ≡ tamanio_new new
      → PaqueteBien p
      → PokemonBien new.pokemon
      → PosicionBien new.posicion
      → new.cant < 2 ^ 32
      → Viaja (serializar_paquete_new malloc p new) deserializar_paquete_new p new
  unfolding serializar_paquete_new tamanio_new deserializar_paquete_new
  serializar_paquete_new-Viaja new t bp bk bs bc =
      let fin = bytes_de new.cant ∷ [] in
      let tras = bytes_de new.posicion.x ∷ (bytes_de new.posicion.y ∷ fin) in
      rw (leer_nombre_lem new.pokemon bk) (
        viaja deserializar_paquete_new malloc p new (campos_pokemon new.pokemon tras)
          (4 + 4 + 4 + p.size) bp (m _)
          (omega (
            arith,
            t,
            largo_pokemon new.pokemon tras bk,
            largo_posicion new.posicion fin,
            largo_entero new.cant [],
          ))
          (λ resto. rw (
            pokemon_antes new.pokemon tras resto bk,
            posicion_antes new.posicion fin resto bs,
            entero_antes new.cant [] resto bc,
          )))

  -- APPEARED_POKEMON, likewise.
  pub serializar_paquete_appeared-Viaja :
      (app : Appeared)
      → p.size ≡ tamanio_appeared app
      → PaqueteBien p
      → PokemonBien app.pokemon
      → PosicionBien app.posicion
      → Viaja (serializar_paquete_appeared malloc p app) deserializar_paquete_appeared p app
  unfolding serializar_paquete_appeared tamanio_appeared deserializar_paquete_appeared
  serializar_paquete_appeared-Viaja app t bp bk bs =
      let tras = campos_posicion app.posicion in
      rw (leer_nombre_lem app.pokemon bk) (
        viaja deserializar_paquete_appeared malloc p app (campos_pokemon app.pokemon tras)
          (4 + 4 + 4 + p.size) bp (m _)
          (omega (arith, t, largo_pokemon app.pokemon tras bk, largo_posicion app.posicion []))
          (λ resto.
            rw (pokemon_antes app.pokemon tras resto bk, posicion_antes app.posicion [] resto bs)))

  -- CATCH_POKEMON, likewise.
  pub serializar_paquete_catch-Viaja :
      (catch : Catch)
      → p.size ≡ tamanio_catch catch
      → PaqueteBien p
      → PokemonBien catch.pokemon
      → PosicionBien catch.posicion
      → Viaja (serializar_paquete_catch malloc p catch) deserializar_paquete_catch p catch
  unfolding serializar_paquete_catch tamanio_catch deserializar_paquete_catch
  serializar_paquete_catch-Viaja catch t bp bk bs =
      let tras = campos_posicion catch.posicion in
      rw (leer_nombre_lem catch.pokemon bk) (
        viaja deserializar_paquete_catch malloc p catch (campos_pokemon catch.pokemon tras)
          (4 + 4 + 4 + p.size) bp (m _)
          (omega (arith, t, largo_pokemon catch.pokemon tras bk, largo_posicion catch.posicion []))
          (λ resto.
            rw (
              pokemon_antes catch.pokemon tras resto bk,
              posicion_antes catch.posicion [] resto bs,
            )))

  -- GET_POKEMON, likewise.
  pub serializar_paquete_get-Viaja :
      (get : Get)
      → p.size ≡ tamanio_get get
      → PaqueteBien p
      → PokemonBien get.pokemon
      → Viaja (serializar_paquete_get malloc p get) deserializar_paquete_get p get
  unfolding serializar_paquete_get tamanio_get deserializar_paquete_get
  serializar_paquete_get-Viaja get t bp bk = rw (leer_nombre_lem get.pokemon bk) (
      viaja deserializar_paquete_get malloc p get (campos_pokemon get.pokemon [])
        (4 + 4 + 4 + p.size) bp (m _) (omega (arith, t, largo_pokemon get.pokemon [] bk))
        (λ resto. rw (pokemon_antes get.pokemon [] resto bk)))

  -- CAUGHT_POKEMON, likewise.
  pub serializar_paquete_caught-Viaja :
      (caught : Caught)
      → p.size ≡ tamanio_caught caught
      → PaqueteBien p
      → caught.fue_atrapado < 2 ^ 32
      → Viaja (serializar_paquete_caught malloc p caught) deserializar_paquete_caught p caught
  unfolding serializar_paquete_caught tamanio_caught deserializar_paquete_caught
  serializar_paquete_caught-Viaja caught t bp bc =
      viaja deserializar_paquete_caught malloc p caught (bytes_de caught.fue_atrapado ∷ [])
        (4 + 4 + 4 + p.size) bp (m _) (omega (arith, t, largo_entero caught.fue_atrapado []))
        (λ resto. rw (entero_antes caught.fue_atrapado [] resto bc))
