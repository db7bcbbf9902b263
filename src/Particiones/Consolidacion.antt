-- ===== src/Particiones/Consolidacion.antt =====
-- Broker/src/Particiones.c: `consolidarParticion`, which joins the free partition at an index with
-- the free partitions beside it.
pub mod Union
pub mod Validez
use sistemas_operativos_utn.Base.{
  ℕ, zero, suc, ◌+◌, Option, some, List, ◌==◌, if◌then◌else◌, length, get_elem?, set, remove_at,
  ◌>>=◌,
}
use sistemas_operativos_utn.Particiones.Tabla.{Particion}

-- The first half of the function: the partition before, and the index after it.
unfoldable pub consolidar_anterior : List Particion → ℕ → Option (List Particion × ℕ)
consolidar_anterior tabla zero = some (tabla, zero)
consolidar_anterior tabla (suc anterior) = do
  p ← get_elem? tabla (suc anterior)
  a ← get_elem? tabla anterior
  if a.ocupada
      then some (tabla, suc anterior)
      else some (
        remove_at
            (set tabla (suc anterior)
              (record p { posicion_inicial = a.posicion_inicial; size = p.size + a.size }))
            anterior,
        anterior,
      )

-- The second half: the partition after.
unfoldable pub consolidar_siguiente : List Particion → ℕ → Option (List Particion)
consolidar_siguiente tabla posicion = if suc posicion == length tabla then some tabla else (do
  p ← get_elem? tabla posicion
  s ← get_elem? tabla (suc posicion)
  if s.ocupada
      then some tabla
      else some (
          remove_at
            (set tabla posicion
              (record p { posicion_final = s.posicion_final; size = p.size + s.size }))
            (suc posicion)))

unfoldable pub consolidar_particion : List Particion → ℕ → Option (List Particion)
unfolding consolidar_anterior consolidar_siguiente
consolidar_particion tabla posicion = do
  (tabla', posicion') ← consolidar_anterior tabla posicion
  consolidar_siguiente tabla' posicion'
