-- ===== src/GameBoy/Principal.antt =====
-- Game-Boy/src/Game-Boy.c: the mode of a subscriber, and `main`.
use sistemas_operativos_utn.Base.{
  ℕ, Bool, not, Option, none, some, List, [], ◌∷◌, ◌++◌, length, get_elem?, ◌==◌, if◌then◌else◌,
  ◌>>=◌,
}
use sistemas_operativos_utn.Sockets.Codigos.{
  codigo, suscripcion_new, suscripcion_appeared, suscripcion_catch, suscripcion_caught,
  suscripcion_get, suscripcion_localized, new_pokemon, appeared_pokemon, catch_pokemon,
  caught_pokemon, get_pokemon, ack,
}
use sistemas_operativos_utn.Sockets.Bytes.{recv_entero}
use sistemas_operativos_utn.Broker.Suscripcion.{tras_entero}
use Prim.Native.String.{String}
use sistemas_operativos_utn.Sockets.Deserializacion.{
  deserializar_paquete_new, deserializar_paquete_appeared, deserializar_paquete_catch,
  deserializar_paquete_get, deserializar_paquete_caught,
}
use sistemas_operativos_utn.Sockets.Envio.{enviar_handshake, enviar_suscripcion, enviar_ack}
use sistemas_operativos_utn.GameBoy.Cliente.{
  bytes_texto, validar_argc, tras_handshake, Salida, sin_argumentos, terminado, con_conexion,
  elegir, modo_broker, modo_gamecard, modo_team,
}

-- `recibir_mensaje`: the payload is read, and an ACK with the id 0 goes out.
module _ (malloc : ℕ → List ℕ) where
  unfoldable pub leer_carga : ℕ → List ℕ → Option (List ℕ)
  unfolding codigo deserializar_paquete_new deserializar_paquete_appeared deserializar_paquete_get
      deserializar_paquete_catch deserializar_paquete_caught
  leer_carga operacion s =
      if operacion == codigo new_pokemon
      then (do (new, resto) ← deserializar_paquete_new s; some resto)
      else if operacion == codigo appeared_pokemon
      then (do (app, resto) ← deserializar_paquete_appeared s; some resto)
      else if operacion == codigo get_pokemon
      then (do (get, resto) ← deserializar_paquete_get s; some resto)
      else if operacion == codigo catch_pokemon
      then (do (catch, resto) ← deserializar_paquete_catch s; some resto)
      else if operacion == codigo caught_pokemon
      then (do (caught, resto) ← deserializar_paquete_caught s; some resto)
      else some s

  unfoldable pub recibir_mensaje : ℕ → List ℕ → Option (List ℕ × List ℕ)
  unfolding leer_carga enviar_ack
  recibir_mensaje operacion s = do
    resto ← leer_carga operacion s
    enviado ← enviar_ack malloc 0
    some (enviado, resto)

  -- The `while(1)` of a subscriber: each entry of the list is what a test of `sigue_corriendo`
  -- finds, which another thread sets to 0. At the end of the list the loop still runs.
  unfoldable pub escuchar : List Bool → List ℕ → Option (List ℕ × List ℕ)
  unfolding recv_entero tras_entero recibir_mensaje
  escuchar [] s = some ([], s)
  escuchar (sigue ∷ pruebas) s = do
    (e1, s1) ← elim (recv_entero s) [
      | none ↦ some ([], [])
      | some (operacion, r) ↦ recibir_mensaje operacion (tras_entero (tras_entero r))
    ]
    (e2, s2) ← (if sigue then escuchar pruebas s1 else some ([], s1))
    some (e1 ++ e2, s2)

  module _ (contiene : List ℕ → List ℕ → Bool) where
    -- SUSCRIPTOR: the handshake, the subscription, and then what arrives. The variable that holds
    -- the queue holds the ACK of the handshake before. The seconds to wait are the argument 3.
    unfoldable pub modo_suscriptor :
        List Bool → List (List ℕ) → List ℕ → List ℕ → Option (List ℕ × List ℕ)
    unfolding enviar_handshake enviar_suscripcion tras_handshake elegir escuchar
    modo_suscriptor pruebas argv tipo s =
        let nombra : String → Bool = λ nombre. contiene tipo (bytes_texto nombre) in
        let operacion =
          elegir
            ((nombra "NEW_POKEMON", suscripcion_new)
              ∷ ((nombra "APPEARED_POKEMON", suscripcion_appeared)
                  ∷ ((nombra "GET_POKEMON", suscripcion_get)
                      ∷ ((nombra "LOCALIZED_POKEMON", suscripcion_localized)
                          ∷ ((nombra "CATCH_POKEMON", suscripcion_catch)
                              ∷ ((nombra "CAUGHT_POKEMON", suscripcion_caught) ∷ []))))))
            ack in
        do
          saludo ← enviar_handshake malloc 1
          tras_handshake
              (λ s1. do
                suscripcion ← enviar_suscripcion malloc operacion
                tras_handshake (λ s2. do tiempo ← get_elem? argv 3; escuchar pruebas s2) suscripcion
                    s1)
              saludo s

    -- `main`: the mode is the first that the first argument names.
    unfoldable pub game_boy :
        (List ℕ → ℕ) → ℕ → Bool → List Bool → List (List ℕ) → List ℕ → Option Salida
    unfolding validar_argc con_conexion modo_broker modo_gamecard modo_team modo_suscriptor
    game_boy atoi sin_iniciar conectado pruebas argv s =
        if not (validar_argc (length argv)) then some sin_argumentos else do
          proceso ← get_elem? argv 1
          tipo ← get_elem? argv 2
          (if contiene proceso (bytes_texto "BROKER")
              then con_conexion conectado (modo_broker malloc atoi contiene sin_iniciar argv tipo s)
              else if contiene proceso (bytes_texto "GAMECARD")
              then con_conexion conectado
                  (modo_gamecard malloc atoi contiene sin_iniciar argv tipo s)
              else if contiene proceso (bytes_texto "TEAM")
              then con_conexion conectado (modo_team malloc atoi contiene sin_iniciar argv tipo s)
              else if contiene proceso (bytes_texto "SUSCRIPTOR")
              then con_conexion conectado (modo_suscriptor pruebas argv tipo s)
              else some (terminado [] s))
