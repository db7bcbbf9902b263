-- ===== src/Pruebas/Juego.antt =====
-- The Game-Boy sends "Mew" to the Broker.
use sistemas_operativos_utn.Base.{
  ℕ, refl, Bool, true, false, ◌&&◌, ◌||◌, List, [], ◌∷◌, arith, ◌==◌,
}
use sistemas_operativos_utn.Sockets.Codigos.{new_pokemon}
use sistemas_operativos_utn.Sockets.Deserializacion.{deserializar_paquete_new}
use sistemas_operativos_utn.Sockets.Envio.{pokemon_de}
use sistemas_operativos_utn.GameBoy.Cliente.{bytes_texto}
use sistemas_operativos_utn.GameBoy.Principal.{game_boy}
use sistemas_operativos_utn.GameBoy.Conversa.{Conversacion, game_boy-Conversacion}
use sistemas_operativos_utn.Pruebas.Difusion.{ceros, digito, texto, mew, length-ceros, digito-lt}

-- `strstr` is not NULL.
abbrev empieza : List ℕ → List ℕ → Bool
empieza s [] = true
empieza [] (p ∷ ps) = false
empieza (b ∷ bs) (p ∷ ps) = b == p && empieza bs ps

abbrev contiene : List ℕ → List ℕ → Bool
contiene [] p = empieza [] p
contiene (b ∷ bs) p = empieza (b ∷ bs) p || contiene bs p

abbrev argv : List (List ℕ)
argv =
    []
    ∷ (bytes_texto "BROKER"
        ∷ (bytes_texto "NEW_POKEMON" ∷ (mew ∷ (texto 1 ∷ (texto 2 ∷ (texto 3 ∷ []))))))

game_boy-Conversacion_example :
    Conversacion ceros
      (game_boy ceros contiene digito 0 true [] argv)
      []
      deserializar_paquete_new
      new_pokemon
      1
      0
      (record { pokemon = pokemon_de mew; posicion = record { x = 1; y = 2 }; cant = 3 })
game_boy-Conversacion_example =
    game_boy-Conversacion ceros digito contiene length-ceros digito-lt 0 [] []
      (bytes_texto "BROKER") (bytes_texto "NEW_POKEMON") mew (texto 1) (texto 2) (texto 3) []
      (omega arith) refl refl refl refl refl refl
