-- ===== src/Sockets/Viaje.antt =====
-- What it means that a message arrives, and the parts that all the messages share.
use sistemas_operativos_utn.Base.{
  ℕ, ◌+◌, ◌^◌, ◌<◌, ◌≡◌, ap, ◌∙◌, Option, some, List, ◌++◌, length, arith, append_assoc, le→leb,
}
use sistemas_operativos_utn.Universo.{Posicion, Pokemon}
use sistemas_operativos_utn.Sockets.Codigos.{OpCode, codigo}
use sistemas_operativos_utn.Sockets.Bytes.{bytes_de}
use sistemas_operativos_utn.Sockets.Serializacion.{Paquete, leer_nombre, serializar_campos}
use sistemas_operativos_utn.Sockets.Deserializacion.{
  recibir_cabecera, recibir_pokemon, recibir_posicion, recibir,
}
use sistemas_operativos_utn.Sockets.Copia.{
  juntar, imagen, length-imagen, serializar_campos_lem, take_todo, recv-append,
  recv_entero-bytes_de,
}

-- The values fit in an `int32_t`, and the length of a name is the one noted beside it.
pub record PaqueteBien (p : Paquete) : Type 0 where
  pub size_cabe : p.size < 2 ^ 32
  pub id_cabe : p.id_mensaje < 2 ^ 32

pub record PosicionBien (p : Posicion) : Type 0 where
  pub x_cabe : p.x < 2 ^ 32
  pub y_cabe : p.y < 2 ^ 32

pub record PokemonBien (p : Pokemon) : Type 0 where
  pub largo : p.size_nombre ≡ length p.nombre
  pub cabe : p.size_nombre < 2 ^ 32

abbrev pub cabecera : Paquete → ℕ × ℕ × ℕ
cabecera p = (codigo p.codigo_operacion, p.size, p.id_mensaje)

-- The serialization does not fault and gives a block of `*bytes` bytes; whatever follows it on the
-- connection, the other side reads the header and the value, and leaves what follows.
pub record Viaja {A : Type 0} (serializado : Option (List ℕ × ℕ))
    (deserializar : List ℕ → Option (A × List ℕ)) (p : Paquete) (valor : A) : Type 0 where
  pub stream : List ℕ
  pub hecho : serializado ≡ some (stream, length stream)
  pub vuelta :
      (resto : List ℕ) → recibir deserializar (stream ++ resto) ≡ some ((cabecera p, valor), resto)

codigo-lt : (o : OpCode) → codigo o < 2 ^ 32
unfolding codigo
codigo-lt OpCode.suscripcion_new = omega arith
codigo-lt o = omega arith

pub cabecera_vuelve :
    (p : Paquete) (campos : List (List ℕ)) (resto : List ℕ)
    → PaqueteBien p
    → recibir_cabecera (imagen p campos ++ resto) ≡ some (cabecera p, juntar campos ++ resto)
unfolding recibir_cabecera
cabecera_vuelve p campos resto b =
    let a = bytes_de (codigo p.codigo_operacion) in
    let c = bytes_de p.size in
    let d = bytes_de p.id_mensaje in
    simp (append_assoc) (
      rw (
        recv_entero-bytes_de (codigo p.codigo_operacion) _ (codigo-lt p.codigo_operacion),
        recv_entero-bytes_de p.size _ b.size_cabe,
        recv_entero-bytes_de p.id_mensaje _ b.id_cabe,
      ))

pub pokemon_vuelve :
    (p : Pokemon) (ys : List ℕ)
    → PokemonBien p
    → recibir_pokemon (bytes_de p.size_nombre ++ (p.nombre ++ ys)) ≡ some (p, ys)
unfolding recibir_pokemon
pokemon_vuelve p ys b = rw (
  recv_entero-bytes_de p.size_nombre (p.nombre ++ ys) b.cabe,
  recv-append p.size_nombre p.nombre ys b.largo,
)

pub posicion_vuelve :
    (p : Posicion) (ys : List ℕ)
    → PosicionBien p
    → recibir_posicion (bytes_de p.x ++ (bytes_de p.y ++ ys)) ≡ some (p, ys)
unfolding recibir_posicion
posicion_vuelve p ys b =
    rw
      (recv_entero-bytes_de p.x (bytes_de p.y ++ ys) b.x_cabe, recv_entero-bytes_de p.y ys b.y_cabe)

pub leer_nombre_lem : (p : Pokemon) → PokemonBien p → leer_nombre p ≡ some p.nombre
unfolding leer_nombre
leer_nombre_lem p b = rw (
  le→leb p.size_nombre (length p.nombre) (omega (arith, b.largo)),
  take_todo p.size_nombre p.nombre b.largo,
)

-- From the two halves to the whole way.
pub viaja :
    {A : Type 0} (deserializar : List ℕ → Option (A × List ℕ)) (malloc : ℕ → List ℕ) (p : Paquete)
    (valor : A) (campos : List (List ℕ)) (bytes : ℕ)
    → PaqueteBien p
    → length (malloc bytes) ≡ bytes
    → bytes ≡ 12 + length (juntar campos)
    → ((resto : List ℕ) → deserializar (juntar campos ++ resto) ≡ some (valor, resto))
    → Viaja (serializar_campos malloc p bytes campos) deserializar p valor
unfolding recibir
viaja deserializar malloc p valor campos bytes b h e d = record {
  stream = imagen p campos;
  hecho =
      serializar_campos_lem malloc p bytes campos h e
      ∙ ap (λ n. some (imagen p campos, n)) (omega (arith, length-imagen p campos));
  vuelta = λ resto. rw (cabecera_vuelve p campos resto b, d resto);
}
