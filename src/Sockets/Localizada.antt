-- ===== src/Sockets/Localizada.antt =====
-- LOCALIZED_POKEMON: the positions do not arrive. The receiver keeps one position for them all.
use sistemas_operativos_utn.Base.{
  ℕ, suc, ◌+◌, ◌*◌, ◌^◌, ◌<◌, ◌≡◌, ◌≢◌, refl, ap, some, List, [], ◌∷◌, ◌++◌, length, arith,
}
use sistemas_operativos_utn.Universo.{Posicion, Localized, tamanio_localized}
use sistemas_operativos_utn.Sockets.Bytes.{bytes_de}
use sistemas_operativos_utn.Sockets.Serializacion.{
  Paquete, campos_posiciones, serializar_paquete_localized,
}
use sistemas_operativos_utn.Sockets.Deserializacion.{
  recibir_posiciones, replicate, deserializar_paquete_localized,
}
use sistemas_operativos_utn.Sockets.Copia.{juntar}
use sistemas_operativos_utn.Sockets.Viaje.{
  PaqueteBien, PosicionBien, PokemonBien, Viaja, viaja, leer_nombre_lem,
}
use sistemas_operativos_utn.Sockets.Campos.{
  campos_pokemon, largo_pokemon, pokemon_antes, posicion_antes, entero_antes, largo_posicion,
  largo_entero,
}
use sistemas_operativos_utn.Sockets.Campos.{campos_pokemon}

abbrev pub PosicionesBien : List Posicion → Type 0
PosicionesBien [] = Unit {0}
PosicionesBien (q ∷ qs) = PosicionBien q × PosicionesBien qs

-- The last position of a list, or the one given.
abbrev pub ultima : Posicion → List Posicion → Posicion
ultima q [] = q
ultima q (r ∷ rs) = ultima r rs

posiciones_antes :
    (qs : List Posicion) (q : Posicion) (k j : ℕ) (resto : List ℕ)
    → PosicionesBien qs
    → j ≡ k + length qs
    → recibir_posiciones (length qs) q k (juntar (campos_posiciones qs) ++ resto)
      ≡ some ((ultima q qs, j), resto)
unfolding recibir_posiciones
posiciones_antes [] q k j resto b e = ap (λ n. some ((q, n), resto)) (omega arith)
posiciones_antes (r ∷ qs) q k j resto b e =
    rw (posicion_antes r (campos_posiciones qs) resto b.0)
      (posiciones_antes qs r (suc k) j resto b.1 (omega arith))

pub largo_posiciones : (qs : List Posicion) → length (juntar (campos_posiciones qs)) ≡ 8 * length qs
largo_posiciones [] = refl
largo_posiciones (q ∷ qs) =
    omega (arith, largo_posicion q (campos_posiciones qs), largo_posiciones qs)

-- What the receiver's list shows for the list sent.
abbrev pub recibida : Posicion → Localized → Localized
recibida sin_iniciar l = record l {
  lista_posiciones = replicate (length l.lista_posiciones) (ultima sin_iniciar l.lista_posiciones);
}

-- LOCALIZED_POKEMON: the serialization fills its block without a write outside it, and the
-- receiver reads the header, the pokemon and as many positions as were sent, but all of them are
-- the last one sent.
pub serializar_paquete_localized-Viaja :
    (malloc : ℕ → List ℕ) (m : (n : ℕ) → length (malloc n) ≡ n) (p : Paquete)
    (sin_iniciar : Posicion) (l : Localized)
    → p.size ≡ tamanio_localized l
    → PaqueteBien p
    → PokemonBien l.pokemon
    → PosicionesBien l.lista_posiciones
    → length l.lista_posiciones < 2 ^ 32
    → Viaja
        (serializar_paquete_localized malloc p l)
        (deserializar_paquete_localized sin_iniciar)
        p
        (recibida sin_iniciar l)
unfolding serializar_paquete_localized tamanio_localized deserializar_paquete_localized
serializar_paquete_localized-Viaja malloc m p sin_iniciar l t bp bk bs bc =
    let qs = l.lista_posiciones in
    let fin = campos_posiciones qs in
    let tras = bytes_de (length qs) ∷ fin in
    rw (leer_nombre_lem l.pokemon bk) (
      viaja (deserializar_paquete_localized sin_iniciar) malloc p (recibida sin_iniciar l)
        (campos_pokemon l.pokemon tras) (4 + 4 + 4 + p.size) bp (m _)
        (ground (
          arith,
          t,
          largo_pokemon l.pokemon tras bk,
          largo_entero (length qs) fin,
          largo_posiciones qs,
        ))
        (λ resto. rw (
          pokemon_antes l.pokemon tras resto bk,
          entero_antes (length qs) fin resto bc,
          posiciones_antes qs sin_iniciar 0 (length qs) resto bs (omega arith),
        )))

-- So a list of two positions or more arrives as it was sent only if its first two are the same.
pub recibida-ne :
    (sin_iniciar : Posicion) (l : Localized) (q r : Posicion) (rs : List Posicion)
    → l.lista_posiciones ≡ q ∷ (r ∷ rs)
    → q ≢ r
    → recibida sin_iniciar l ≢ l
recibida-ne sin_iniciar l q r rs e d i =
    let j : replicate (length l.lista_posiciones) (ultima sin_iniciar l.lista_posiciones)
        ≡ l.lista_posiciones =
      ap (λ (k : Localized). k.lista_posiciones) i in
    let j' : replicate (length (q ∷ (r ∷ rs))) (ultima r rs) ≡ q ∷ (r ∷ rs) = rw e at j in d (cc j')
