-- ===== src/Sockets/Serializacion.antt =====
-- OurLibraries/Sockets/sockets.c: `serializar_paquete_*`. Each reserves a block of `*bytes` bytes
-- and copies the fields into it in order; the value is the block with `*bytes`.
use sistemas_operativos_utn.Base.{
  ℕ, ◌+◌, Option, none, some, List, [], ◌∷◌, ◌++◌, length, leb, if◌then◌else◌, ◌>>=◌,
}
use sistemas_operativos_utn.Universo.{
  Posicion, Pokemon, New, Localized, Get, Appeared, Catch, Caught,
}
use sistemas_operativos_utn.Sockets.Codigos.{OpCode, codigo}
use sistemas_operativos_utn.Sockets.Bytes.{take, bytes_de, copiar}

-- `t_paquete` with its `t_buffer`; the stream of the buffer is the payload, which goes beside it.
pub record Paquete : Type 0 where
  pub codigo_operacion : OpCode
  pub size : ℕ
  pub id_mensaje : ℕ

abbrev pub campos_paquete : Paquete → List (List ℕ)
campos_paquete p =
    bytes_de (codigo p.codigo_operacion) ∷ (bytes_de p.size ∷ (bytes_de p.id_mensaje ∷ []))

-- The `size_Nombre` bytes from the pointer on.
unfoldable pub leer_nombre : Pokemon → Option (List ℕ)
leer_nombre p =
    if leb p.size_nombre (length p.nombre) then some (take p.size_nombre p.nombre) else none

abbrev pub campos_posicion : Posicion → List (List ℕ)
campos_posicion p = bytes_de p.x ∷ (bytes_de p.y ∷ [])

-- The loop over the positions of a `t_Localized`.
abbrev pub campos_posiciones : List Posicion → List (List ℕ)
campos_posiciones [] = []
campos_posiciones (p ∷ ps) = bytes_de p.x ∷ (bytes_de p.y ∷ campos_posiciones ps)

-- `malloc` is the library's: the content of the block that it returns.
module _ (malloc : ℕ → List ℕ) where
  unfoldable pub serializar_campos : Paquete → ℕ → List (List ℕ) → Option (List ℕ × ℕ)
  unfolding copiar bytes_de codigo
  serializar_campos paquete bytes campos = do
    stream ← copiar (campos_paquete paquete ++ campos) 0 (malloc bytes)
    some (stream, bytes)

  unfoldable pub serializar_paquete_new : Paquete → New → Option (List ℕ × ℕ)
  unfolding serializar_campos leer_nombre
  serializar_paquete_new paquete new = do
    nombre ← leer_nombre new.pokemon
    serializar_campos paquete (4 + 4 + 4 + paquete.size) (
        bytes_de new.pokemon.size_nombre
        ∷ (nombre ∷ (campos_posicion new.posicion ++ (bytes_de new.cant ∷ []))))

  unfoldable pub serializar_paquete_appeared : Paquete → Appeared → Option (List ℕ × ℕ)
  unfolding serializar_campos leer_nombre
  serializar_paquete_appeared paquete app = do
    nombre ← leer_nombre app.pokemon
    serializar_campos paquete (4 + 4 + 4 + paquete.size)
        (bytes_de app.pokemon.size_nombre ∷ (nombre ∷ campos_posicion app.posicion))

  unfoldable pub serializar_paquete_catch : Paquete → Catch → Option (List ℕ × ℕ)
  unfolding serializar_campos leer_nombre
  serializar_paquete_catch paquete catch = do
    nombre ← leer_nombre catch.pokemon
    serializar_campos paquete (4 + 4 + 4 + paquete.size)
        (bytes_de catch.pokemon.size_nombre ∷ (nombre ∷ campos_posicion catch.posicion))

  unfoldable pub serializar_paquete_get : Paquete → Get → Option (List ℕ × ℕ)
  unfolding serializar_campos leer_nombre
  serializar_paquete_get paquete get = do
    nombre ← leer_nombre get.pokemon
    serializar_campos paquete (4 + 4 + 4 + paquete.size)
        (bytes_de get.pokemon.size_nombre ∷ (nombre ∷ []))

  unfoldable pub serializar_paquete_caught : Paquete → Caught → Option (List ℕ × ℕ)
  unfolding serializar_campos
  serializar_paquete_caught paquete caught =
      serializar_campos paquete (4 + 4 + 4 + paquete.size) (bytes_de caught.fue_atrapado ∷ [])

  unfoldable pub serializar_paquete_localized : Paquete → Localized → Option (List ℕ × ℕ)
  unfolding serializar_campos leer_nombre
  serializar_paquete_localized paquete localized = do
    nombre ← leer_nombre localized.pokemon
    serializar_campos paquete (4 + 4 + 4 + paquete.size) (
        bytes_de localized.pokemon.size_nombre
        ∷ (nombre
            ∷ (bytes_de (length localized.lista_posiciones)
                ∷ campos_posiciones localized.lista_posiciones)))

  -- `serializar_handshake`, `serializar_paquete_suscripcion` and `serializar_ACK` are one text.
  unfoldable pub serializar_handshake : Paquete → Option (List ℕ × ℕ)
  unfolding serializar_campos
  serializar_handshake paquete = serializar_campos paquete (4 + 4 + 4) []

  unfoldable pub serializar_paquete_suscripcion : Paquete → Option (List ℕ × ℕ)
  unfolding serializar_campos
  serializar_paquete_suscripcion paquete = serializar_campos paquete (4 + 4 + 4) []

  unfoldable pub serializar_ack : Paquete → Option (List ℕ × ℕ)
  unfolding serializar_campos
  serializar_ack paquete = serializar_campos paquete (4 + 4 + 4) []
