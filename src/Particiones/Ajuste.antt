-- ===== src/Particiones/Ajuste.antt =====
-- Broker/src/Particiones.c: the choice of a free partition (`hayParticionesCandidatas`,
-- `getParticionFirstFit`, `getParticionBestFit`) and of a victim (`algoritmoFIFO`,
-- `algoritmoLRU`). A choice is the index of the entry with the entry; `none` is NULL.
pub mod Eleccion
pub mod Primero
pub mod Mejor
pub mod Optimo
use sistemas_operativos_utn.Base.{
  ℕ, Bool, not, Option, none, some, List, [], ◌∷◌, ltb, ◌==◌, if◌then◌else◌, length,
}
use sistemas_operativos_utn.Particiones.Tabla.{
  Particion, filtrar, particion_candidata, particion_candidata_victima,
}

unfoldable pub hay_particiones_candidatas : ℕ → List Particion → Bool
unfolding filtrar particion_candidata
hay_particiones_candidatas size_msg tabla =
    not (length (filtrar (particion_candidata size_msg) 0 tabla) == 0)

-- `list_get(candidatas, 0)`.
unfoldable pub primera : List (ℕ × Particion) → Option (ℕ × Particion)
primera [] = none
primera (c ∷ cs) = some c

unfoldable pub get_particion_first_fit : ℕ → List Particion → Option (ℕ × Particion)
unfolding primera filtrar particion_candidata
get_particion_first_fit size_mensaje tabla =
    primera (filtrar (particion_candidata size_mensaje) 0 tabla)

-- The loop of `getParticionBestFit`, from the second candidate on: an exact fit ends it.
unfoldable pub mejor_ajuste : ℕ → ℕ × Particion → List (ℕ × Particion) → ℕ × Particion
mejor_ajuste size_mensaje mejor [] = mejor
mejor_ajuste size_mensaje mejor (actual ∷ resto) =
    if actual.1.size == size_mensaje
    then actual
    else mejor_ajuste size_mensaje (if ltb actual.1.size mejor.1.size then actual else mejor) resto

unfoldable pub mejor_de : ℕ → List (ℕ × Particion) → Option (ℕ × Particion)
unfolding mejor_ajuste
mejor_de size_mensaje [] = none
mejor_de size_mensaje (c ∷ cs) =
    some (if c.1.size == size_mensaje then c else mejor_ajuste size_mensaje c cs)

unfoldable pub get_particion_best_fit : ℕ → List Particion → Option (ℕ × Particion)
unfolding mejor_de filtrar particion_candidata
get_particion_best_fit size_mensaje tabla =
    mejor_de size_mensaje (filtrar (particion_candidata size_mensaje) 0 tabla)

-- The loop that both replacement algorithms share: the least id, the first of equals.
unfoldable pub menor_id : ℕ × Particion → List (ℕ × Particion) → ℕ × Particion
menor_id victima [] = victima
menor_id victima (actual ∷ resto) =
    menor_id (if ltb actual.1.id victima.1.id then actual else victima) resto

unfoldable pub menor_de : List (ℕ × Particion) → Option (ℕ × Particion)
unfolding menor_id
menor_de [] = none
menor_de (c ∷ cs) = some (menor_id c cs)

unfoldable pub algoritmo_fifo : List Particion → Option (ℕ × Particion)
unfolding menor_de filtrar particion_candidata_victima
algoritmo_fifo tabla = menor_de (filtrar particion_candidata_victima 0 tabla)

unfoldable pub algoritmo_lru : List Particion → Option (ℕ × Particion)
unfolding menor_de filtrar particion_candidata_victima
algoritmo_lru tabla = menor_de (filtrar particion_candidata_victima 0 tabla)
