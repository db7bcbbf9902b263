-- ===== src/Sockets/Envio/ConNombre.antt =====
-- The messages that are a name, with or without a position.
use sistemas_operativos_utn.Base.{ℕ, ◌+◌, ◌^◌, ◌<◌, ◌≡◌, List, length}
use sistemas_operativos_utn.Sockets.Codigos.{appeared_pokemon, catch_pokemon, get_pokemon}
use sistemas_operativos_utn.Sockets.Deserializacion.{
  deserializar_paquete_appeared, deserializar_paquete_catch, deserializar_paquete_get,
}
use sistemas_operativos_utn.Sockets.Envio.{
  pokemon_de, enviar_appeared_pokemon, enviar_catch_pokemon, enviar_get_pokemon,
}
use sistemas_operativos_utn.Sockets.Envio.Llegada.{
  Llega, Corto, enviar_appeared_pokemon-Llega, enviar_catch_pokemon-Llega, enviar_get_pokemon-Llega,
}

module _ (malloc : ℕ → List ℕ) (atoi : List ℕ → ℕ) (m : (n : ℕ) → length (malloc n) ≡ n)
    (a : (s : List ℕ) → atoi s < 2 ^ 32) where
  -- APPEARED_POKEMON, CATCH_POKEMON and GET_POKEMON: if `malloc n` returns n bytes, `atoi` an
  -- `int32_t`, and the name is short enough, the receiver reads the name with its final 0, the id
  -- that the text stands for, and but for GET_POKEMON the position.
  pub enviar_con_nombre-Llega :
      (pokemon x y id : List ℕ)
      → Corto pokemon
      → Llega
          (enviar_appeared_pokemon malloc atoi pokemon x y id)
          deserializar_paquete_appeared
          appeared_pokemon
          (length pokemon + 13)
          (atoi id)
          (record { pokemon = pokemon_de pokemon; posicion = record { x = atoi x; y = atoi y } })
        × Llega
            (enviar_catch_pokemon malloc atoi pokemon x y id)
            deserializar_paquete_catch
            catch_pokemon
            (length pokemon + 13)
            (atoi id)
            (record { pokemon = pokemon_de pokemon; posicion = record { x = atoi x; y = atoi y } })
        × Llega
            (enviar_get_pokemon malloc atoi pokemon id)
            deserializar_paquete_get
            get_pokemon
            (length pokemon + 5)
            (atoi id)
            (record { pokemon = pokemon_de pokemon })
  enviar_con_nombre-Llega pokemon x y id c = (
    enviar_appeared_pokemon-Llega malloc atoi m a pokemon x y id c,
    enviar_catch_pokemon-Llega malloc atoi m a pokemon x y id c,
    enviar_get_pokemon-Llega malloc atoi m a pokemon id c,
  )
