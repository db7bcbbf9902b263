-- ===== src/Particiones/Liberacion.antt =====
-- Broker/src/Particiones.c: `algoritmoLiberacion`, which frees the partition of a victim, and
-- `algoritmoCompactacion`.
pub mod Victima
pub mod Desalojo
pub mod Recolocacion
pub mod Compactacion
use sistemas_operativos_utn.Base.{
  ℕ, zero, suc, ◌+◌, ◌-◌, Bool, true, false, Option, none, some, List, [], ◌∷◌, ◌++◌, if◌then◌else◌,
  length, set, remove_at, insert_at, ◌>>=◌,
}
use sistemas_operativos_utn.Particiones.Tabla.{
  Particion, Memoria, get_id_particion, obtener_posicion,
}
use sistemas_operativos_utn.Particiones.Ajuste.{algoritmo_fifo, algoritmo_lru}
use sistemas_operativos_utn.Particiones.Consolidacion.{consolidar_particion}

-- `algoritmoReemplazo`; the last is any other number.
pub data Reemplazo : Type 0 where
  fifo lru otro_reemplazo : Reemplazo

-- The fields that a freed partition is given.
unfoldable pub vaciar : ℕ → Particion → Particion
vaciar nuevo p = record p { codigo_operacion = none; ocupada = false; id_mensaje = 0; id = nuevo }

-- The writes through the pointer to the victim, its removal and insertion at the index found.
unfoldable pub soltar : ℕ → ℕ × Particion → List Particion → Option (List Particion × ℕ)
unfolding vaciar obtener_posicion
soltar nuevo (i, p) tabla = do
  posicion ← obtener_posicion p tabla
  some (
    insert_at (remove_at (set tabla i (vaciar nuevo p)) posicion) posicion (vaciar nuevo p),
    posicion,
  )

-- One case of the switch: FIFO gives the freed partition the id 0, LRU one from the counter.
unfoldable pub liberar_victima :
    (List Particion → ℕ → Option (List Particion))
    → ℕ
    → Option (ℕ × Particion)
    → Memoria
    → Option Memoria
unfolding soltar
liberar_victima consolidar nuevo victima m = do
  v ← victima
  (tabla', posicion) ← soltar nuevo v m.tabla
  tabla'' ← consolidar tabla' posicion
  some (record m { tabla = tabla'' })

-- The switch, over the way to consolidate. Another algorithm prints and returns.
unfoldable pub liberar_con :
    (List Particion → ℕ → Option (List Particion)) → Reemplazo → Memoria → Option Memoria
unfolding liberar_victima algoritmo_fifo algoritmo_lru get_id_particion
liberar_con consolidar fifo m = liberar_victima consolidar 0 (algoritmo_fifo m.tabla) m
liberar_con consolidar lru m =
    let (nuevo, m') = get_id_particion m in
    liberar_victima consolidar nuevo (algoritmo_lru m.tabla) m'
liberar_con consolidar otro_reemplazo m = some m

unfoldable pub algoritmo_liberacion : Reemplazo → Memoria → Option Memoria
unfolding liberar_con consolidar_particion
algoritmo_liberacion = liberar_con consolidar_particion

-- The first loop of `algoritmoCompactacion`: the entries of which `ocupada` is the given flag.
unfoldable pub separar : Bool → List Particion → List Particion
separar ocupadas [] = []
separar true (p ∷ ps) = let resto = separar true ps in if p.ocupada then p ∷ resto else resto
separar false (p ∷ ps) = let resto = separar false ps in if p.ocupada then resto else p ∷ resto

-- The second and the third: the entries one behind the other from a position on.
unfoldable pub recolocar : ℕ → List Particion → List Particion
recolocar posicion [] = []
recolocar posicion (p ∷ ps) =
    record p { posicion_inicial = posicion; posicion_final = posicion + p.size - 1 }
    ∷ recolocar (posicion + p.size) ps

-- The last: so many consolidations at one index.
unfoldable pub consolidar_veces : ℕ → ℕ → List Particion → Option (List Particion)
unfolding consolidar_particion
consolidar_veces zero posicion tabla = some tabla
consolidar_veces (suc n) posicion tabla = do
  tabla' ← consolidar_particion tabla posicion
  consolidar_veces n posicion tabla'

unfoldable pub algoritmo_compactacion : Memoria → Option Memoria
unfolding separar recolocar consolidar_veces
algoritmo_compactacion m =
    let ocupadas = separar true m.tabla in
    let libres = separar false m.tabla in
    do
      tabla' ←
          consolidar_veces (length libres - 1) (length ocupadas) (recolocar 0 (ocupadas ++ libres))
      some (record m { tabla = tabla' })
