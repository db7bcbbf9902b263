-- ===== src/Pruebas/Equipo.antt =====
-- The Team with two trainers and names that are compared letter by letter.
use sistemas_operativos_utn.Base.{
  length, ℕ, ◌≡◌, ◌+◌, ◌-◌, refl, Bool, true, false, ◌&&◌, none, some, List, [], ◌∷◌, ◌==◌, arith,
  leb, if◌then◌else◌,
}
use sistemas_operativos_utn.Universo.{Posicion}
use sistemas_operativos_utn.Team.Entrenador.{EsIgualdad, PokemonTeam, Entrenador, blocked}
use sistemas_operativos_utn.Team.Nombres.{uno}
use sistemas_operativos_utn.Team.Pokemones.{
  get_cantidad_by_nombre_pokemon, sumarizar_pokemones, remove_pokemon_by_nombre,
}
use sistemas_operativos_utn.Team.Pokemones.Sumarizar.{primera_y_veces, sumarizar_pokemones-cantidad}
use sistemas_operativos_utn.Team.Pokemones.Quitar.{
  Sumarizada, remove_pokemon_by_nombre-cantidad, sumarizar_pokemones-Sumarizada,
}
use sistemas_operativos_utn.Team.Objetivos.{
  get_objetivo_global, cumplio_objetivo, objetivos_pendientes, pokemon_que_sirve_intercambio,
}
use sistemas_operativos_utn.Team.Objetivos.Pendientes.{
  cumplio_objetivo-objetivos_pendientes, pokemon_que_sirve_intercambio-Intercambio, Intercambio,
  sin_de_mas,
}
use sistemas_operativos_utn.Team.Cercania.{
  es_planificable, se_busca, get_distancia_entre_puntos, get_entrenador_planificable_mas_cercano,
  get_pokemon_necesario_mas_cercano,
}
use sistemas_operativos_utn.Team.Cercania.Minimo.{
  MasCercano, get_entrenador_planificable_mas_cercano-MasCercano,
  get_pokemon_necesario_mas_cercano-MasCercano,
}
use sistemas_operativos_utn.Team.Enteros.{int_in_list, list_eliminar_int_repetidos}
use sistemas_operativos_utn.Team.Enteros.SinRepetidos.{
  apariciones, list_eliminar_int_repetidos-una_vez,
}

-- The small letter of a capital one of ASCII.
unfoldable minuscula : ℕ → ℕ
minuscula b = if leb 65 b && leb b 90 then b + 32 else b

unfoldable mismas_letras : List ℕ → List ℕ → Bool
unfolding minuscula
mismas_letras [] [] = true
mismas_letras [] (b ∷ bs) = false
mismas_letras (a ∷ xs) [] = false
mismas_letras (a ∷ xs) (b ∷ bs) = minuscula a == minuscula b && mismas_letras xs bs

reflexiva : (a : List ℕ) → mismas_letras a a ≡ true
unfolding mismas_letras
reflexiva [] = refl
reflexiva (a ∷ xs) = ground (arith, reflexiva xs)

simetrica : (a b : List ℕ) → mismas_letras a b ≡ true → mismas_letras b a ≡ true
unfolding mismas_letras
simetrica [] [] h = refl
simetrica [] (b ∷ bs) h = ground arith
simetrica (a ∷ xs) [] h = ground arith
simetrica (a ∷ xs) (b ∷ bs) h = ground (arith, simetrica xs bs)

transitiva :
    (a b c : List ℕ)
    → mismas_letras a b ≡ true
    → mismas_letras b c ≡ true
    → mismas_letras a c ≡ true
unfolding mismas_letras
transitiva [] [] c h k = k
transitiva [] (b ∷ bs) c h k = ground arith
transitiva (a ∷ xs) [] c h k = ground arith
transitiva (a ∷ xs) (b ∷ bs) [] h k = ground arith
transitiva (a ∷ xs) (b ∷ bs) (c ∷ cs) h k = ground (arith, transitiva xs bs cs)

mismas_letras-EsIgualdad : EsIgualdad mismas_letras
mismas_letras-EsIgualdad = record {
  reflexiva = reflexiva;
  simetrica = simetrica;
  transitiva = transitiva;
}

abbrev en : ℕ → ℕ → Posicion
en x y = record { x = x; y = y }

-- `Abra`, `ABRA` and `Onix`.
abbrev abra : List ℕ
abra = 65 ∷ (98 ∷ (114 ∷ (97 ∷ [])))

abbrev abra_mayuscula : List ℕ
abra_mayuscula = 65 ∷ (66 ∷ (82 ∷ (65 ∷ [])))

abbrev onix : List ℕ
onix = 79 ∷ (110 ∷ (105 ∷ (120 ∷ [])))

abbrev unos : List ℕ → ℕ → PokemonTeam
unos nombre cantidad = record {
  nombre = record { direccion = 0; texto = nombre };
  cantidad = cantidad;
  posicion = en 4 4;
  planificable = true;
}

abbrev entrenador_de : ℕ → Posicion → List PokemonTeam → List PokemonTeam → Entrenador
entrenador_de id posicion pokemones objetivo = record {
  posicion = posicion;
  pokemon_destino = none;
  pokemones = pokemones;
  objetivo = objetivo;
  estado = blocked;
  id = id;
  ocupado = false;
  estimacion_anterior = 0;
  cantidad_ejecutada = 0;
  estimacion = 1;
  ciclos = 0;
}

abbrev primero : Entrenador
primero = entrenador_de 0 (en 0 0) (unos onix 1 ∷ []) (unos abra 1 ∷ [])

abbrev segundo : Entrenador
segundo = entrenador_de 1 (en 3 4) (unos abra 1 ∷ []) (unos abra_mayuscula 2 ∷ (unos onix 1 ∷ []))

abbrev tercero : Entrenador
tercero = entrenador_de 2 (en 9 9) (unos abra 1 ∷ []) (unos abra_mayuscula 1 ∷ [])

-- Two trainers want three of a name, and the global goal has two.
objetivo_corto :
    get_cantidad_by_nombre_pokemon mismas_letras abra
      (get_objetivo_global mismas_letras (unos onix 0) (primero ∷ (segundo ∷ [])))
    ≡ 2
unfolding get_cantidad_by_nombre_pokemon get_objetivo_global mismas_letras
objetivo_corto = refl

sumarizar_pokemones-cantidad_example :
    get_cantidad_by_nombre_pokemon mismas_letras abra (
      sumarizar_pokemones mismas_letras
        (unos onix 0)
        (unos abra 1 ∷ (unos onix 5 ∷ (unos abra_mayuscula 2 ∷ []))))
    ≡ primera_y_veces mismas_letras abra
        (unos abra 1 ∷ (unos onix 5 ∷ (unos abra_mayuscula 2 ∷ [])))
sumarizar_pokemones-cantidad_example =
    sumarizar_pokemones-cantidad mismas_letras mismas_letras-EsIgualdad (unos onix 0) abra
      (unos abra 1 ∷ (unos onix 5 ∷ (unos abra_mayuscula 2 ∷ [])))

sumarizar_pokemones-Sumarizada_example :
    Sumarizada mismas_letras
      (sumarizar_pokemones mismas_letras (unos onix 0) (unos abra 1 ∷ (unos abra_mayuscula 2 ∷ [])))
sumarizar_pokemones-Sumarizada_example =
    sumarizar_pokemones-Sumarizada mismas_letras (unos onix 0)
      (unos abra 1 ∷ (unos abra_mayuscula 2 ∷ [])) (omega arith)

dos_nombres-Sumarizada : Sumarizada mismas_letras (unos abra 2 ∷ (unos onix 1 ∷ []))
unfolding mismas_letras
dos_nombres-Sumarizada = (omega arith, (refl, tt), (omega arith, tt, tt))

remove_pokemon_by_nombre-cantidad_example :
    get_cantidad_by_nombre_pokemon mismas_letras abra
      (remove_pokemon_by_nombre mismas_letras abra_mayuscula (unos abra 2 ∷ (unos onix 1 ∷ []))).0
    ≡ get_cantidad_by_nombre_pokemon mismas_letras abra (unos abra 2 ∷ (unos onix 1 ∷ []))
      - uno (mismas_letras abra abra_mayuscula)
remove_pokemon_by_nombre-cantidad_example =
    remove_pokemon_by_nombre-cantidad mismas_letras mismas_letras-EsIgualdad abra abra_mayuscula
      (unos abra 2 ∷ (unos onix 1 ∷ [])) dos_nombres-Sumarizada

cumplio_objetivo-objetivos_pendientes_example :
    (cumplio_objetivo mismas_letras (unos onix 0) tercero).0 ≡ (
      length (
          objetivos_pendientes mismas_letras
            (cumplio_objetivo mismas_letras (unos onix 0) tercero).1)
        == 0
      && sin_de_mas mismas_letras
          (cumplio_objetivo mismas_letras (unos onix 0) tercero).1.pokemones
          tercero.objetivo)
cumplio_objetivo-objetivos_pendientes_example =
    cumplio_objetivo-objetivos_pendientes mismas_letras (unos onix 0) tercero

sirve : pokemon_que_sirve_intercambio mismas_letras segundo primero ≡ some (unos onix 1)
unfolding pokemon_que_sirve_intercambio mismas_letras
sirve = refl

pokemon_que_sirve_intercambio-Intercambio_example :
    Intercambio mismas_letras segundo.objetivo primero.objetivo primero.pokemones
      (pokemon_que_sirve_intercambio mismas_letras segundo primero)
pokemon_que_sirve_intercambio-Intercambio_example =
    pokemon_que_sirve_intercambio-Intercambio mismas_letras segundo primero

get_entrenador_planificable_mas_cercano-MasCercano_example :
    MasCercano es_planificable
      (λ e. get_distancia_entre_puntos e.posicion (en 4 4))
      (get_entrenador_planificable_mas_cercano (primero ∷ (segundo ∷ [])) (en 4 4))
      (primero ∷ (segundo ∷ []))
get_entrenador_planificable_mas_cercano-MasCercano_example =
    get_entrenador_planificable_mas_cercano-MasCercano (primero ∷ (segundo ∷ [])) (en 4 4)

get_pokemon_necesario_mas_cercano-MasCercano_example :
    MasCercano
      (se_busca mismas_letras (unos onix 0) (segundo ∷ []) (unos abra 2 ∷ []))
      (λ p. get_distancia_entre_puntos (en 0 0) p.posicion)
      (get_pokemon_necesario_mas_cercano mismas_letras
        (unos onix 0)
        (segundo ∷ [])
        (unos abra 2 ∷ [])
        (unos onix 1 ∷ (unos abra 1 ∷ []))
        (en 0 0))
      (unos onix 1 ∷ (unos abra 1 ∷ []))
get_pokemon_necesario_mas_cercano-MasCercano_example =
    get_pokemon_necesario_mas_cercano-MasCercano mismas_letras (unos onix 0) (segundo ∷ [])
      (unos abra 2 ∷ []) (unos onix 1 ∷ (unos abra 1 ∷ [])) (en 0 0)

list_eliminar_int_repetidos-una_vez_example :
    apariciones 2 (list_eliminar_int_repetidos (2 ∷ (1 ∷ (2 ∷ []))))
    ≡ (if int_in_list 2 (2 ∷ (1 ∷ (2 ∷ []))) then 1 else 0)
list_eliminar_int_repetidos-una_vez_example =
    list_eliminar_int_repetidos-una_vez 2 (2 ∷ (1 ∷ (2 ∷ [])))
