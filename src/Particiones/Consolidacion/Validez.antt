-- ===== src/Particiones/Consolidacion/Validez.antt =====
-- `consolidarParticion` restores the invariant of dynamic partitions round the entry that it is
-- given.
use sistemas_operativos_utn.Base.{
  ℕ, ◌+◌, ◌≡◌, sym, ap₂, ◌∙◌, false, List, ◌∷◌, ◌++◌, length, arith, some,
}
use sistemas_operativos_utn.Particiones.Tabla.{Particion}
use sistemas_operativos_utn.Particiones.Forma.{
  total, mensajes, Separadas, libre_al_inicio, libre_al_final, EsContigua, EsValida, Lugar,
}
use sistemas_operativos_utn.Particiones.Forma.Partes.{total-append, mensajes-append, Separadas-join}
use sistemas_operativos_utn.Particiones.Consolidacion.{consolidar_particion}
use sistemas_operativos_utn.Particiones.Consolidacion.Union.{anterior_lem, siguiente_lem}

-- The messages round a free entry.
pub mensajes_libre :
    (xs : List Particion) (p : Particion) (ys : List Particion)
    → p.ocupada ≡ false
    → mensajes (xs ++ (p ∷ ys)) ≡ mensajes xs ++ mensajes ys
mensajes_libre xs p ys h = ground (arith, mensajes-append xs (p ∷ ys))

pub total_partes :
    (xs : List Particion) (p : Particion) (ys : List Particion)
    → total (xs ++ (p ∷ ys)) ≡ total xs + (p.size + total ys)
total_partes xs p ys = total-append xs (p ∷ ys)

Separadas-libre :
    (xs : List Particion) (u : Particion) (ys : List Particion)
    → Separadas xs
    → Separadas ys
    → libre_al_final xs ≡ false
    → libre_al_inicio ys ≡ false
    → Separadas (xs ++ (u ∷ ys))
Separadas-libre xs u ys sx sy ex ey =
    Separadas-join xs (u ∷ ys) sx (ground arith, sy) (ground arith)

-- What `consolidarParticion` leaves of a table: a valid one of the same capacity, with the same
-- messages in the same order.
pub record Consolidada (capacidad : ℕ) (tabla : List Particion) (i : ℕ) : Type 0 where
  pub tabla' : List Particion
  pub hecho : consolidar_particion tabla i ≡ some tabla'
  pub valida : EsValida capacidad tabla'
  pub iguales : mensajes tabla' ≡ mensajes tabla

consolidar_partes :
    (capacidad : ℕ) (xs : List Particion) (p : Particion) (ys : List Particion)
    → EsContigua capacidad (xs ++ (p ∷ ys))
    → p.ocupada ≡ false
    → Separadas xs
    → Separadas ys
    → Consolidada capacidad (xs ++ (p ∷ ys)) (length xs)
unfolding consolidar_particion
consolidar_partes capacidad xs p ys v h sx sy =
    let a = anterior_lem xs p ys v.seguidas sx h in
    let s = siguiente_lem a.izq a.q ys a.seguidas sy a.libre in
    record {
      tabla' = a.izq ++ (s.u ∷ s.der);
      hecho = rw a.hecho s.hecho;
      valida = record {
        seguidas = s.seguidas;
        completa =
            omega (
              arith,
              total_partes a.izq s.u s.der,
              total_partes xs p ys,
              v.completa,
              a.suma,
              s.suma,
            );
        separadas = Separadas-libre a.izq s.u s.der a.separadas s.separadas a.final s.inicio;
      };
      iguales =
          mensajes_libre a.izq s.u s.der s.libre
          ∙ ap₂ ◌++◌ a.iguales s.iguales
          ∙ sym (mensajes_libre xs p ys h);
    }

-- On a free entry of a contiguous table that covers the memory, with no two free neighbours on
-- either side of the entry, `consolidarParticion` does not fault, and leaves a contiguous table
-- that covers the memory, has no two free neighbours at all and holds the same messages in the
-- same order.
pub consolidar_particion-EsValida :
    (capacidad : ℕ) {tabla : List Particion} {i : ℕ} {p : Particion} (l : Lugar tabla i p)
    → EsContigua capacidad tabla
    → p.ocupada ≡ false
    → Separadas l.antes
    → Separadas l.despues
    → Consolidada capacidad tabla i
consolidar_particion-EsValida capacidad {tabla} {i} {p} l v h sx sy =
    rw (l.partes, l.indice)
      (consolidar_partes capacidad l.antes p l.despues (rw l.partes at v) h sx sy)
