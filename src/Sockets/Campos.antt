-- ===== src/Sockets/Campos.antt =====
-- Each kind of field, read back from in front of the fields that follow it.
use sistemas_operativos_utn.Base.{
  ℕ, ◌+◌, ◌^◌, ◌<◌, ◌≡◌, some, List, ◌∷◌, ◌++◌, length, arith, length-append, append_assoc,
}
use sistemas_operativos_utn.Universo.{Posicion, Pokemon}
use sistemas_operativos_utn.Sockets.Bytes.{bytes_de, recv_entero}
use sistemas_operativos_utn.Sockets.Deserializacion.{recibir_pokemon, recibir_posicion}
use sistemas_operativos_utn.Sockets.Copia.{juntar, recv_entero-bytes_de}
use sistemas_operativos_utn.Sockets.Viaje.{
  PosicionBien, PokemonBien, pokemon_vuelve, posicion_vuelve,
}

abbrev pub campos_pokemon : Pokemon → List (List ℕ) → List (List ℕ)
campos_pokemon p campos = bytes_de p.size_nombre ∷ (p.nombre ∷ campos)

pub largo_pokemon :
    (p : Pokemon) (campos : List (List ℕ))
    → PokemonBien p
    → length (juntar (campos_pokemon p campos)) ≡ 4 + p.size_nombre + length (juntar campos)
unfolding bytes_de
largo_pokemon p campos b = omega (arith, length-append p.nombre (juntar campos), b.largo)

pub pokemon_antes :
    (p : Pokemon) (campos : List (List ℕ)) (resto : List ℕ)
    → PokemonBien p
    → recibir_pokemon (juntar (campos_pokemon p campos) ++ resto) ≡ some (p, juntar campos ++ resto)
pokemon_antes p campos resto b = simp append_assoc (rw (pokemon_vuelve p _ b))

pub posicion_antes :
    (p : Posicion) (campos : List (List ℕ)) (resto : List ℕ)
    → PosicionBien p
    → recibir_posicion (juntar (bytes_de p.x ∷ (bytes_de p.y ∷ campos)) ++ resto)
      ≡ some (p, juntar campos ++ resto)
posicion_antes p campos resto b = simp append_assoc (rw (posicion_vuelve p _ b))

pub entero_antes :
    (n : ℕ) (campos : List (List ℕ)) (resto : List ℕ)
    → n < 2 ^ 32
    → recv_entero (juntar (bytes_de n ∷ campos) ++ resto) ≡ some (n, juntar campos ++ resto)
entero_antes n campos resto h = simp append_assoc (rw (recv_entero-bytes_de n _ h))

pub largo_posicion :
    (p : Posicion) (campos : List (List ℕ))
    → length (juntar (bytes_de p.x ∷ (bytes_de p.y ∷ campos))) ≡ 8 + length (juntar campos)
unfolding bytes_de
largo_posicion p campos = omega arith

pub largo_entero :
    (n : ℕ) (campos : List (List ℕ))
    → length (juntar (bytes_de n ∷ campos)) ≡ 4 + length (juntar campos)
unfolding bytes_de
largo_entero n campos = omega arith
