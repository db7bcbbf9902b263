-- ===== src/GameBoy/Cliente.antt =====
-- Game-Boy/src/Game-Boy.c: what `main` sends for its arguments, against what arrives.
--
-- `string_contains` of the commons library is a parameter, like `atoi` and `malloc`. An argument
-- that is not there is a read through NULL, the `none` of a step. The connections to the other
-- processes are one flag that says whether the one that `main` asks for was made.
use sistemas_operativos_utn.Base.{
  ℕ, Bool, not, Option, none, some, List, [], ◌∷◌, ◌++◌, ltb, get_elem?, ◌==◌, if◌then◌else◌, ◌>>=◌,
}
use sistemas_operativos_utn.Sockets.Codigos.{OpCode, codigo, ack}
use sistemas_operativos_utn.Sockets.Bytes.{recv_entero}
use sistemas_operativos_utn.Broker.Suscripcion.{tras_entero}
use Prim.Native.Char.{code}
use Prim.Native.String.{String}
use sistemas_operativos_utn.Sockets.Envio.{
  enviar_new_pokemon, enviar_appeared_pokemon, enviar_catch_pokemon, enviar_caught_pokemon,
  enviar_get_pokemon, enviar_handshake,
}

-- The bytes of a text in the source.
abbrev pub bytes_texto : String → List ℕ
bytes_texto String.[] = []
bytes_texto (String.◌∷◌ c s) = code c ∷ bytes_texto s

-- `validar_Argc`: with fewer than two arguments behind the name the process exits.
unfoldable pub validar_argc : ℕ → Bool
validar_argc argc = not (ltb argc 3)

-- The wait for an ACK: what of it is read off the connection.
unfoldable pub esperar_ack : List ℕ → List ℕ
unfolding recv_entero tras_entero codigo
esperar_ack s = elim (recv_entero s) [
  | none ↦ []
  | some (operacion, r) ↦ if operacion == codigo ack then tras_entero (tras_entero r) else r
]

-- One `if` of the program: the message that it sends and the wait for its ACK.
unfoldable pub enviar_si : Bool → Option (List ℕ) → List ℕ → Option (List ℕ × List ℕ)
unfolding esperar_ack
enviar_si condicion mensaje s =
    if condicion then (do enviado ← mensaje; some (enviado, esperar_ack s)) else some ([], s)

-- The `if`s one after the other.
unfoldable pub enviar_todos : List (Bool × Option (List ℕ)) → List ℕ → Option (List ℕ × List ℕ)
unfolding enviar_si
enviar_todos [] s = some ([], s)
enviar_todos ((condicion, mensaje) ∷ ms) s = do
  (e1, s1) ← enviar_si condicion mensaje s
  (e2, s2) ← enviar_todos ms s1
  some (e1 ++ e2, s2)

-- What follows the handshake, once its ACK has arrived.
unfoldable pub tras_handshake :
    (List ℕ → Option (List ℕ × List ℕ)) → List ℕ → List ℕ → Option (List ℕ × List ℕ)
unfolding recv_entero tras_entero codigo
tras_handshake resto saludo s = elim (recv_entero s) [
  | none ↦ some (saludo, [])
  | some (operacion, r) ↦
      if operacion == codigo ack
      then (do (enviado, s1) ← resto (tras_entero (tras_entero r)); some (saludo ++ enviado, s1))
      else some (saludo, r)
]

-- How the process ends: `exit(1)`, no connection, or the bytes that it sent and what it left
-- unread.
pub data Salida : Type 0 where
  sin_argumentos sin_conexion : Salida
  terminado : List ℕ → List ℕ → Salida

unfoldable pub con_conexion : Bool → Option (List ℕ × List ℕ) → Option Salida
con_conexion conectado modo =
    if conectado then (do (enviado, s) ← modo; some (terminado enviado s)) else some sin_conexion

-- The queue of the subscription; the variable keeps what it held if no name fits.
unfoldable pub elegir : List (Bool × OpCode) → OpCode → OpCode
elegir [] operacion = operacion
elegir ((condicion, suscripcion) ∷ resto) operacion =
    elegir resto (if condicion then suscripcion else operacion)

module _ (malloc : ℕ → List ℕ) (atoi : List ℕ → ℕ) (contiene : List ℕ → List ℕ → Bool)
    (sin_iniciar : ℕ) (argv : List (List ℕ)) where
  abbrev es_cola : List ℕ → String → Bool
  es_cola tipo nombre = contiene tipo (bytes_texto nombre)

  abbrev cero : List ℕ
  cero = bytes_texto "0"

  unfoldable pub arg_new : Option (List ℕ) → Option (List ℕ)
  unfolding enviar_new_pokemon
  arg_new id = do
    nombre ← get_elem? argv 3
    x ← get_elem? argv 4
    y ← get_elem? argv 5
    cant ← get_elem? argv 6
    i ← id
    enviar_new_pokemon malloc atoi nombre x y cant i

  unfoldable pub arg_appeared : Option (List ℕ)
  unfolding enviar_appeared_pokemon
  arg_appeared = do
    nombre ← get_elem? argv 3
    x ← get_elem? argv 4
    y ← get_elem? argv 5
    enviar_appeared_pokemon malloc atoi nombre x y cero

  unfoldable pub arg_catch : Option (List ℕ) → Option (List ℕ)
  unfolding enviar_catch_pokemon
  arg_catch id = do
    nombre ← get_elem? argv 3
    x ← get_elem? argv 4
    y ← get_elem? argv 5
    i ← id
    enviar_catch_pokemon malloc atoi nombre x y i

  unfoldable pub arg_caught : Option (List ℕ)
  unfolding enviar_caught_pokemon
  arg_caught = do
    id ← get_elem? argv 3
    atrapado ← get_elem? argv 4
    enviar_caught_pokemon malloc atoi sin_iniciar id atrapado

  unfoldable pub arg_get : Option (List ℕ) → Option (List ℕ)
  unfolding enviar_get_pokemon
  arg_get id = do nombre ← get_elem? argv 3; i ← id; enviar_get_pokemon malloc atoi nombre i

  -- BROKER: the handshake, then the message of the kind named.
  unfoldable pub mensajes_broker : List ℕ → List (Bool × Option (List ℕ))
  unfolding arg_new arg_appeared arg_catch arg_caught arg_get
  mensajes_broker tipo =
      (es_cola tipo "NEW_POKEMON", arg_new (some cero))
      ∷ ((es_cola tipo "APPEARED_POKEMON", arg_appeared)
          ∷ ((es_cola tipo "CATCH_POKEMON", arg_catch (some cero))
              ∷ ((es_cola tipo "CAUGHT_POKEMON", arg_caught)
                  ∷ ((es_cola tipo "GET_POKEMON", arg_get (some cero)) ∷ []))))

  unfoldable pub modo_broker : List ℕ → List ℕ → Option (List ℕ × List ℕ)
  unfolding enviar_handshake tras_handshake enviar_todos mensajes_broker
  modo_broker tipo s = do
    saludo ← enviar_handshake malloc 1
    tras_handshake (enviar_todos (mensajes_broker tipo)) saludo s

  -- GAMECARD: the message, without a handshake.
  unfoldable pub modo_gamecard : List ℕ → List ℕ → Option (List ℕ × List ℕ)
  unfolding enviar_todos arg_new arg_catch arg_get
  modo_gamecard tipo s =
      enviar_todos
        ((es_cola tipo "NEW_POKEMON", arg_new (get_elem? argv 7))
          ∷ ((es_cola tipo "CATCH_POKEMON", arg_catch (get_elem? argv 6))
              ∷ ((es_cola tipo "GET_POKEMON", arg_get (get_elem? argv 4)) ∷ [])))
        s

  -- TEAM: one message and no wait.
  unfoldable pub modo_team : List ℕ → List ℕ → Option (List ℕ × List ℕ)
  unfolding arg_appeared
  modo_team tipo s =
      if es_cola tipo "APPEARED_POKEMON"
      then (do enviado ← arg_appeared; some (enviado, s))
      else some ([], s)
