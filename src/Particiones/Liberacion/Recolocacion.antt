-- ===== src/Particiones/Liberacion/Recolocacion.antt =====
-- The first loops of `algoritmoCompactacion`: the occupied and the free entries apart, and each
-- entry placed behind the one before.
use sistemas_operativos_utn.Base.{
  ℕ, ◌+◌, ◌<◌, ◌≡◌, refl, ap, true, false, List, [], ◌∷◌, ◌++◌, length, arith,
}
use sistemas_operativos_utn.Particiones.Tabla.{Particion}
use sistemas_operativos_utn.Particiones.Forma.{mensajes, Contigua, total}
use sistemas_operativos_utn.Base.{Todas}
use sistemas_operativos_utn.Particiones.Liberacion.{separar, recolocar}

abbrev pub Ocupadas : List Particion → Type 0
Ocupadas = Todas (λ (p : Particion). p.ocupada ≡ true)

abbrev pub Libres : List Particion → Type 0
Libres = Todas (λ (p : Particion). p.ocupada ≡ false)

abbrev pub NoVacias : List Particion → Type 0
NoVacias = Todas (λ (p : Particion). 0 < p.size)

pub NoVacias-Contigua : (i : ℕ) (ps : List Particion) → Contigua i ps → NoVacias ps
NoVacias-Contigua i [] c = tt
NoVacias-Contigua i (p ∷ ps) c = (c.2, NoVacias-Contigua (i + p.size) ps c.3)

-- The first loop.
pub separar-Ocupadas : (ps : List Particion) → Ocupadas (separar true ps)
unfolding separar
separar-Ocupadas [] = tt
separar-Ocupadas (p ∷ ps) = ground (arith, separar-Ocupadas ps)

pub separar-Libres : (ps : List Particion) → Libres (separar false ps)
unfolding separar
separar-Libres [] = tt
separar-Libres (p ∷ ps) = ground (arith, separar-Libres ps)

pub separar-NoVacias :
    (ps : List Particion) → NoVacias ps → NoVacias (separar true ps) × NoVacias (separar false ps)
unfolding separar
separar-NoVacias [] h = (tt, tt)
separar-NoVacias (p ∷ ps) h = ground (arith, separar-NoVacias ps h.1)

pub mensajes-separar : (ps : List Particion) → mensajes (separar true ps) ≡ mensajes ps
unfolding separar
mensajes-separar [] = refl
mensajes-separar (p ∷ ps) = ground (arith, mensajes-separar ps)

pub mensajes-Libres : (ps : List Particion) → Libres ps → mensajes ps ≡ []
mensajes-Libres [] h = refl
mensajes-Libres (p ∷ ps) h = ground (arith, mensajes-Libres ps h.1)

pub total-separar :
    (ps : List Particion) → total (separar true ps) + total (separar false ps) ≡ total ps
unfolding separar
total-separar [] = refl
total-separar (p ∷ ps) = ground (arith, total-separar ps)

-- The second and the third.
pub recolocar-append :
    (i j : ℕ) (xs ys : List Particion)
    → j ≡ i + total xs
    → recolocar i (xs ++ ys) ≡ recolocar i xs ++ recolocar j ys
unfolding recolocar
recolocar-append i j [] ys e = ap (λ k. recolocar k ys) (omega arith)
recolocar-append i j (x ∷ xs) ys e = cc (recolocar-append (i + x.size) j xs ys (omega arith))

pub recolocar-Contigua : (i : ℕ) (ps : List Particion) → NoVacias ps → Contigua i (recolocar i ps)
unfolding recolocar
recolocar-Contigua i [] h = tt
recolocar-Contigua i (p ∷ ps) h = (refl, omega arith, h.0, recolocar-Contigua (i + p.size) ps h.1)

pub total-recolocar : (i : ℕ) (ps : List Particion) → total (recolocar i ps) ≡ total ps
unfolding recolocar
total-recolocar i [] = refl
total-recolocar i (p ∷ ps) = omega (arith, total-recolocar (i + p.size) ps)

pub length-recolocar : (i : ℕ) (ps : List Particion) → length (recolocar i ps) ≡ length ps
unfolding recolocar
length-recolocar i [] = refl
length-recolocar i (p ∷ ps) = omega (arith, length-recolocar (i + p.size) ps)

pub mensajes-recolocar : (i : ℕ) (ps : List Particion) → mensajes (recolocar i ps) ≡ mensajes ps
unfolding recolocar
mensajes-recolocar i [] = refl
mensajes-recolocar i (p ∷ ps) = ground (arith, mensajes-recolocar (i + p.size) ps)

pub recolocar-Ocupadas : (i : ℕ) (ps : List Particion) → Ocupadas ps → Ocupadas (recolocar i ps)
unfolding recolocar
recolocar-Ocupadas i [] h = tt
recolocar-Ocupadas i (p ∷ ps) h = (h.0, recolocar-Ocupadas (i + p.size) ps h.1)

pub recolocar-Libres : (i : ℕ) (ps : List Particion) → Libres ps → Libres (recolocar i ps)
unfolding recolocar
recolocar-Libres i [] h = tt
recolocar-Libres i (p ∷ ps) h = (h.0, recolocar-Libres (i + p.size) ps h.1)
