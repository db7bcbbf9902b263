-- ===== src/Pruebas/Mensajes.antt =====
-- The messages of the protocol, with the pokemon "Mew" and a library whose `malloc` returns zeros
-- and whose `atoi` reads one digit.
use sistemas_operativos_utn.Base.{
  ℕ, zero, suc, ◌-◌, ◌%◌, ◌^◌, ◌<◌, ◌≡◌, ◌≢◌, refl, ap, some, List, [], ◌∷◌, ◌++◌, length, arith,
}
use sistemas_operativos_utn.Universo.{Posicion, Pokemon, Localized}
use sistemas_operativos_utn.Sockets.Codigos.{
  new_pokemon, appeared_pokemon, catch_pokemon, caught_pokemon, get_pokemon, localized_pokemon, ack,
  handshake, suscripcion_get,
}
use sistemas_operativos_utn.Sockets.Deserializacion.{
  replicate, recibir, deserializar_paquete_new, deserializar_paquete_appeared,
  deserializar_paquete_catch, deserializar_paquete_get, deserializar_paquete_caught,
  deserializar_paquete_localized,
}
use sistemas_operativos_utn.Sockets.Viaje.{PokemonBien}
use sistemas_operativos_utn.Sockets.Envio.{
  pokemon_de, fue_atrapado_de, enviar_new_pokemon, enviar_appeared_pokemon, enviar_catch_pokemon,
  enviar_caught_pokemon, enviar_get_pokemon, enviar_localized_pokemon, enviar_handshake,
  enviar_suscripcion, enviar_ack,
}
use sistemas_operativos_utn.Sockets.Envio.ConNombre.{enviar_con_nombre-Llega}
use sistemas_operativos_utn.Sockets.Envio.Llegada.{
  Llega, enviar_new_pokemon-Llega, enviar_caught_pokemon-Llega,
}
use sistemas_operativos_utn.Sockets.Envio.Control.{
  LlegaCabecera, enviar_localized_pokemon-Llega, enviar_localized_pokemon-ne,
  enviar_control-LlegaCabecera,
}

abbrev ceros : ℕ → List ℕ
ceros n = replicate n 0

length-ceros : (n : ℕ) → length (ceros n) ≡ n
length-ceros zero = refl
length-ceros (suc n) = ap suc (length-ceros n)

abbrev digito : List ℕ → ℕ
digito [] = 0
digito (c ∷ cs) = (c - 48) % 10

digito-lt : (s : List ℕ) → digito s < 2 ^ 32
digito-lt [] = omega arith
digito-lt (c ∷ cs) = omega arith

abbrev mew : List ℕ
mew = b'M' ∷ (b'e' ∷ (b'w' ∷ []))

abbrev uno : List ℕ
uno = b'1' ∷ []

abbrev dos : List ℕ
dos = b'2' ∷ []

abbrev mew_pokemon : Pokemon
mew_pokemon = record { size_nombre = 4; nombre = b'M' ∷ (b'e' ∷ (b'w' ∷ (0 ∷ []))) }

mew-PokemonBien : PokemonBien mew_pokemon
mew-PokemonBien = omega arith

abbrev origen : Posicion
origen = record { x = 0; y = 0 }

abbrev lejos : Posicion
lejos = record { x = 3; y = 4 }

bytes_get :
    enviar_get_pokemon ceros digito mew uno
    ≡ some (
        10
        ∷ (0
            ∷ (0
                ∷ (0
                    ∷ (8
                        ∷ (0
                            ∷ (0
                                ∷ (0
                                    ∷ (1
                                        ∷ (0
                                            ∷ (0
                                                ∷ (0
                                                    ∷ (4
                                                        ∷ (0
                                                            ∷ (0
                                                            ∷ (0
                                                            ∷ (b'M'
                                                            ∷ (b'e'
                                                            ∷ (b'w' ∷ (0 ∷ []))))))))))))))))))))
unfolding enviar_get_pokemon
bytes_get = refl

-- What goes over the wire for two positions, and what the receiver makes of it.
abbrev dos_posiciones : List ℕ
dos_posiciones =
    (11 ∷ (0 ∷ (0 ∷ (0 ∷ (28 ∷ (0 ∷ (0 ∷ (0 ∷ (6 ∷ (0 ∷ (0 ∷ (0 ∷ []))))))))))))
    ++ ((4 ∷ (0 ∷ (0 ∷ (0 ∷ (b'M' ∷ (b'e' ∷ (b'w' ∷ (0 ∷ (2 ∷ (0 ∷ (0 ∷ (0 ∷ []))))))))))))
        ++ ((0 ∷ (0 ∷ (0 ∷ (0 ∷ (0 ∷ (0 ∷ (0 ∷ (0 ∷ []))))))))
            ++ (3 ∷ (0 ∷ (0 ∷ (0 ∷ (4 ∷ (0 ∷ (0 ∷ (0 ∷ []))))))))))

dos_posiciones_salen :
    enviar_localized_pokemon ceros mew_pokemon (origen ∷ (lejos ∷ [])) 6 ≡ some dos_posiciones
unfolding enviar_localized_pokemon
dos_posiciones_salen = refl

dos_posiciones_llegan :
    recibir (deserializar_paquete_localized origen) (dos_posiciones ++ [])
    ≡ some (
      ((11, 28, 6), record { pokemon = mew_pokemon; lista_posiciones = lejos ∷ (lejos ∷ []) }),
      [],
    )
unfolding recibir deserializar_paquete_localized
dos_posiciones_llegan = refl

enviar_new_pokemon-Llega_example :
    Llega
      (enviar_new_pokemon ceros digito mew uno dos uno dos)
      deserializar_paquete_new
      new_pokemon
      20
      2
      (record { pokemon = pokemon_de mew; posicion = record { x = 1; y = 2 }; cant = 1 })
enviar_new_pokemon-Llega_example =
    enviar_new_pokemon-Llega ceros digito length-ceros digito-lt mew uno dos uno dos (omega arith)

enviar_con_nombre-Llega_example :
    Llega
      (enviar_appeared_pokemon ceros digito mew uno dos uno)
      deserializar_paquete_appeared
      appeared_pokemon
      16
      1
      (record { pokemon = pokemon_de mew; posicion = record { x = 1; y = 2 } })
    × Llega
        (enviar_catch_pokemon ceros digito mew uno dos uno)
        deserializar_paquete_catch
        catch_pokemon
        16
        1
        (record { pokemon = pokemon_de mew; posicion = record { x = 1; y = 2 } })
    × Llega
        (enviar_get_pokemon ceros digito mew uno)
        deserializar_paquete_get
        get_pokemon
        8
        1
        (record { pokemon = pokemon_de mew })
enviar_con_nombre-Llega_example =
    enviar_con_nombre-Llega ceros digito length-ceros digito-lt mew uno dos uno (omega arith)

enviar_caught_pokemon-Llega_example :
    Llega
      (enviar_caught_pokemon ceros digito 77 uno (b'O' ∷ (b'K' ∷ [])))
      deserializar_paquete_caught
      caught_pokemon
      4
      1
      (record { fue_atrapado = fue_atrapado_de 77 (b'O' ∷ (b'K' ∷ [])) })
enviar_caught_pokemon-Llega_example =
    enviar_caught_pokemon-Llega ceros digito length-ceros digito-lt 77 uno (b'O' ∷ (b'K' ∷ []))
      (omega arith)

enviar_localized_pokemon-Llega_example :
    Llega
      (enviar_localized_pokemon ceros mew_pokemon (origen ∷ (lejos ∷ [])) 6)
      (deserializar_paquete_localized origen)
      localized_pokemon
      28
      6
      (record { pokemon = mew_pokemon; lista_posiciones = lejos ∷ (lejos ∷ []) })
enviar_localized_pokemon-Llega_example =
    enviar_localized_pokemon-Llega ceros length-ceros origen mew_pokemon (origen ∷ (lejos ∷ [])) 6
      mew-PokemonBien (omega arith) (omega arith) (omega arith) (omega arith)

origen-ne-lejos : origen ≢ lejos
origen-ne-lejos e = absurd (omega (arith, ap (λ (p : Posicion). p.x) e))

enviar_localized_pokemon-ne_example :
    ◌≢◌ {A = Localized}
      (record { pokemon = mew_pokemon; lista_posiciones = lejos ∷ (lejos ∷ []) })
      (record { pokemon = mew_pokemon; lista_posiciones = origen ∷ (lejos ∷ []) })
enviar_localized_pokemon-ne_example =
    enviar_localized_pokemon-ne ceros length-ceros origen mew_pokemon origen lejos [] 6
      mew-PokemonBien (omega arith) (omega arith) (omega arith) origen-ne-lejos dos_posiciones_salen
      dos_posiciones_llegan

enviar_control-LlegaCabecera_example :
    LlegaCabecera (enviar_handshake ceros 5) handshake 8 5
    × LlegaCabecera (enviar_suscripcion ceros suscripcion_get) suscripcion_get 8 0
    × LlegaCabecera (enviar_ack ceros 5) ack 8 5
enviar_control-LlegaCabecera_example =
    enviar_control-LlegaCabecera ceros length-ceros suscripcion_get 5 (omega arith)
