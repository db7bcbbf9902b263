-- ===== src/Particiones/Liberacion/Compactacion.antt =====
-- `algoritmoCompactacion` packs the occupied partitions at the start of the memory and leaves one
-- free partition behind them.
use sistemas_operativos_utn.Base.{
  ℕ, suc, ◌+◌, ◌-◌, ◌≤◌, ◌≡◌, refl, sym, ◌∙◌, true, false, List, [], ◌∷◌, ◌++◌, length, arith, some,
  Option, inl, inr, length-append, append-nil, append_assoc,
}
use sistemas_operativos_utn.Particiones.Tabla.{Particion, Memoria}
use sistemas_operativos_utn.Particiones.Forma.{
  mensajes, Contigua, EsContigua, EsValida, total, Separadas,
}
use sistemas_operativos_utn.Particiones.Forma.Partes.{
  total-append, Contigua-join, mensajes-snoc_libre, Contigua-at, snoc_cases,
}
use sistemas_operativos_utn.Particiones.Consolidacion.{consolidar_particion, consolidar_anterior}
use sistemas_operativos_utn.Particiones.Consolidacion.Union.{
  anterior_ocupada, unida_adelante, siguiente_libre,
}
use sistemas_operativos_utn.Particiones.Liberacion.{
  separar, recolocar, consolidar_veces, algoritmo_compactacion,
}
use sistemas_operativos_utn.Particiones.Liberacion.Recolocacion.{
  Ocupadas, Libres, NoVacias, NoVacias-Contigua, separar-Ocupadas, separar-Libres, separar-NoVacias,
  mensajes-separar, total-separar, recolocar-append, recolocar-Contigua, total-recolocar,
  length-recolocar, mensajes-recolocar, recolocar-Ocupadas, recolocar-Libres,
}

-- The last loop.
Ocupadas-final :
    (zs : List Particion) (a : Particion) → Ocupadas (zs ++ (a ∷ [])) → a.ocupada ≡ true
Ocupadas-final [] a h = h.0
Ocupadas-final (z ∷ zs) a h = Ocupadas-final zs a h.1

anterior_de-Ocupadas :
    (os : List Particion) (q : Particion) (ls : List Particion)
    → Ocupadas os
    → consolidar_anterior (os ++ (q ∷ ls)) (length os) ≡ some (os ++ (q ∷ ls), length os)
anterior_de-Ocupadas os q ls h = elim (snoc_cases os) [
  | inl e ↦ rw e (unfold consolidar_anterior in refl)
  | inr (zs, a, e) ↦ rw e (
      rw (length-append zs (a ∷ []), append_assoc zs (a ∷ []) (q ∷ ls), uno (length zs))
        (anterior_ocupada zs a q ls (Ocupadas-final zs a (rw e at h))))
]
  where
    uno : (n : ℕ) → n + 1 ≡ suc n
    uno n = omega arith

-- A free partition behind the occupied ones takes in all the free ones that follow it.
record Unida (os : List Particion) (q : Particion) (ls : List Particion) : Type 0 where
  u : Particion
  hecho : consolidar_veces (length ls) (length os) (os ++ (q ∷ ls)) ≡ some (os ++ (u ∷ []))
  seguidas : Contigua (total os) (u ∷ [])
  suma : u.size ≡ q.size + total ls
  libre : u.ocupada ≡ false

consolidar-Libres :
    (os : List Particion) (q : Particion) (ls : List Particion)
    → Ocupadas os
    → q.ocupada ≡ false
    → Libres ls
    → Contigua (total os) (q ∷ ls)
    → Unida os q ls
unfolding consolidar_veces consolidar_particion
consolidar-Libres os q [] ho hq hl c = record {
  u = q;
  hecho = refl;
  seguidas = c;
  suma = omega arith;
  libre = hq;
}
consolidar-Libres os q (s ∷ ls) ho hq hl c =
    let r =
      consolidar-Libres os (unida_adelante q s) ls ho hq hl.1
        (c.0, omega arith, omega arith, Contigua-at ls (omega arith) c.3.3) in
    record {
      u = r.u;
      hecho = rw (anterior_de-Ocupadas os q (s ∷ ls) ho, siguiente_libre os q s ls hl.0) r.hecho;
      seguidas = r.seguidas;
      suma = omega (arith, r.suma);
      libre = r.libre;
    }

-- What a compaction leaves: the occupied partitions packed from position 0 on, then at most one
-- free partition.
pub record Compactada (capacidad : ℕ) (m : Memoria) (r : Option Memoria) : Type 0 where
  pub m' : Memoria
  pub hecho : r ≡ some m'
  pub ocupadas : List Particion
  pub libres : List Particion
  pub partes : m'.tabla ≡ ocupadas ++ libres
  pub todas_ocupadas : Ocupadas ocupadas
  pub todas_libres : Libres libres
  pub una : length libres ≤ 1
  pub contigua : EsContigua capacidad m'.tabla
  pub iguales : mensajes m'.tabla ≡ mensajes m.tabla

-- Any contiguous table that covers the memory is compacted without a fault.
compactar_partes :
    (capacidad : ℕ) (m : Memoria) (os ls : List Particion)
    → separar true m.tabla ≡ os
    → separar false m.tabla ≡ ls
    → Ocupadas os
    → Libres ls
    → NoVacias os
    → NoVacias ls
    → total os + total ls ≡ capacidad
    → mensajes os ≡ mensajes m.tabla
    → Compactada capacidad m (algoritmo_compactacion m)
unfolding algoritmo_compactacion
compactar_partes capacidad m os [] eo el ho hl vo vl t e = record {
  m' = record m { tabla = recolocar 0 os };
  hecho = rw (eo, el, append-nil os, consolidar_veces);
  ocupadas = recolocar 0 os;
  libres = [];
  partes = sym (append-nil (recolocar 0 os));
  todas_ocupadas = recolocar-Ocupadas 0 os ho;
  todas_libres = tt;
  una = omega arith;
  contigua = record {
    seguidas = recolocar-Contigua 0 os vo;
    completa = omega (arith, total-recolocar 0 os);
  };
  iguales = mensajes-recolocar 0 os ∙ e;
}
compactar_partes capacidad m os (l ∷ ls) eo el ho hl vo vl t e =
    let os' = recolocar 0 os in
    let k = total os in
    let q : Particion = record l { posicion_inicial = k; posicion_final = k + l.size - 1 } in
    let ls' = recolocar (k + l.size) ls in
    let ho' = recolocar-Ocupadas 0 os ho in
    let parte : recolocar 0 (os ++ (l ∷ ls)) ≡ os' ++ (q ∷ ls') =
      recolocar-append 0 k os (l ∷ ls) (omega arith) ∙ unfold recolocar in refl in
    let tos = total-recolocar 0 os in
    let cuantas : length (l ∷ ls) - 1 ≡ length ls' =
      omega (arith, length-recolocar (k + l.size) ls) in
    let u = consolidar-Libres os' q ls' ho' hl.0 (recolocar-Libres (k + l.size) ls hl.1) (
      sym tos,
      omega arith,
      vl.0,
      Contigua-at ls' (omega arith) (recolocar-Contigua (k + l.size) ls vl.1),
    ) in
    record {
      m' = record m { tabla = os' ++ (u.u ∷ []) };
      hecho = rw (eo, el, parte, cuantas, ← length-recolocar 0 os) (rw u.hecho);
      ocupadas = os';
      libres = u.u ∷ [];
      partes = refl;
      todas_ocupadas = ho';
      todas_libres = (u.libre, tt);
      una = omega arith;
      contigua = record {
        seguidas =
            Contigua-join 0 (total os') os' (u.u ∷ []) (omega arith) (recolocar-Contigua 0 os vo)
              u.seguidas;
        completa =
            omega
              (arith, total-append os' (u.u ∷ []), tos, u.suma, total-recolocar (k + l.size) ls, t);
      };
      iguales = mensajes-snoc_libre os' u.u u.libre ∙ mensajes-recolocar 0 os ∙ e;
    }

-- On a contiguous table that covers the memory `algoritmoCompactacion` does not fault: it leaves
-- the occupied partitions packed from position 0 on, then one free partition at most, in a
-- contiguous table that covers the memory, and the same messages in the same order.
pub algoritmo_compactacion-Compactada :
    (capacidad : ℕ) (m : Memoria)
    → EsContigua capacidad m.tabla
    → Compactada capacidad m (algoritmo_compactacion m)
algoritmo_compactacion-Compactada capacidad m v =
    let (vo, vl) = separar-NoVacias m.tabla (NoVacias-Contigua 0 m.tabla v.seguidas) in
    compactar_partes capacidad m (separar true m.tabla) (separar false m.tabla) refl refl
      (separar-Ocupadas m.tabla) (separar-Libres m.tabla) vo vl
      (omega (arith, total-separar m.tabla, v.completa)) (mensajes-separar m.tabla)

Separadas-empaquetadas :
    (os ls : List Particion) → Ocupadas os → length ls ≤ 1 → Separadas (os ++ ls)
Separadas-empaquetadas [] [] ho h = tt
Separadas-empaquetadas [] (l ∷ []) ho h = ground arith
Separadas-empaquetadas [] (l ∷ (k ∷ ls)) ho h = absurd (omega arith)
Separadas-empaquetadas (o ∷ os) ls ho h = (ground arith, Separadas-empaquetadas os ls ho.1 h)

pub Compactada-EsValida :
    {capacidad : ℕ} {m : Memoria} {r : Option Memoria} (c : Compactada capacidad m r)
    → EsValida capacidad c.m'.tabla
Compactada-EsValida c = record {
  seguidas = c.contigua.seguidas;
  completa = c.contigua.completa;
  separadas = rw c.partes (Separadas-empaquetadas c.ocupadas c.libres c.todas_ocupadas c.una);
}
