-- ===== src/Particiones/Ajuste/Eleccion.antt =====
-- What `algoritmoParticionDinamica` needs of a way to choose a free partition. First Fit and Best
-- Fit each fill this interface.
use sistemas_operativos_utn.Base.{
  ℕ, ◌≤◌, ◌≡◌, ◌≢◌, true, false, List, [], ◌∷◌, ◌++◌, arith, some, Option,
}
use sistemas_operativos_utn.Particiones.Tabla.{Particion, particion_candidata, filtrar}
use sistemas_operativos_utn.Particiones.Forma.{Lugar}
use sistemas_operativos_utn.Particiones.Ajuste.{hay_particiones_candidatas}

-- The entry chosen: a candidate at an index of the table. If it is larger than asked, and is split
-- with the asked size first, the same choice then takes the first part.
pub record Elegida (elegir : ℕ → List Particion → Option (ℕ × Particion)) (s : ℕ)
    (tabla : List Particion) : Type 0 where
  pub i : ℕ
  pub p : Particion
  pub lugar : Lugar tabla i p
  pub hecho : elegir s tabla ≡ some (i, p)
  pub candidata : particion_candidata s p ≡ true
  pub al_partir :
      (a b : Particion)
      → a.ocupada ≡ false
      → a.size ≡ s
      → p.size ≢ s
      → elegir s (lugar.antes ++ (a ∷ (b ∷ lugar.despues))) ≡ some (i, a)

pub record EsEleccion (elegir : ℕ → List Particion → Option (ℕ × Particion)) : Type 0 where
  pub elige :
      (s : ℕ) (tabla : List Particion)
      → hay_particiones_candidatas s tabla ≡ true
      → Elegida elegir s tabla

pub hay-ne-nil :
    (s : ℕ) (tabla : List Particion)
    → hay_particiones_candidatas s tabla ≡ true
    → filtrar (particion_candidata s) 0 tabla ≢ []
unfolding hay_particiones_candidatas
hay-ne-nil s tabla h e = ground arith

pub candidata_justa :
    (s : ℕ) (a : Particion) → a.ocupada ≡ false → a.size ≡ s → particion_candidata s a ≡ true
unfolding particion_candidata
candidata_justa s a h e = ground arith

pub candidata_cabe :
    (s : ℕ) (a : Particion) → particion_candidata s a ≡ true → (a.ocupada ≡ false) × (s ≤ a.size)
unfolding particion_candidata
candidata_cabe s a h = ground arith
