-- ===== src/Particiones/Dinamica/Pasos.antt =====
-- The loop of `algoritmoParticionDinamica`: each way that a round can go, and that it ends.
use sistemas_operativos_utn.Base.{
  ℕ, zero, suc, ◌+◌, ◌<◌, ◌≤◌, ◌≡◌, ◌≢◌, true, false, length, arith, some, none, Option, Bool-cases,
  Option-cases, inl, inr, ℤ, leb, ◌>>=◌,
}
use sistemas_operativos_utn.Particiones.Tabla.{Memoria, Mensaje}
use sistemas_operativos_utn.Particiones.Ajuste.{hay_particiones_candidatas}
use sistemas_operativos_utn.Particiones.Liberacion.{Reemplazo, algoritmo_liberacion}
use sistemas_operativos_utn.Particiones.Dinamica.{
  Ajuste, ff, bf, otro_ajuste, sin_lugar, fallo, sin_combustible, Pedido, buscar, guardar_segun,
  compactar_si_toca, algoritmo_particion_dinamica, o_fallo,
}

pub buscar_guarda :
    (c : Pedido) (f liberadas : ℕ) (m : Memoria)
    → leb liberadas c.cant_elementos ≡ true
    → hay_particiones_candidatas c.tamanio m.tabla ≡ true
    → buscar c (suc f) liberadas m ≡ guardar_segun c.ajuste c.mensaje c.tamanio m
unfolding buscar
buscar_guarda c f liberadas m e h = ground arith

pub buscar_libera :
    (c : Pedido) (f liberadas : ℕ) (m m' : Memoria)
    → leb liberadas c.cant_elementos ≡ true
    → hay_particiones_candidatas c.tamanio m.tabla ≡ false
    → (algoritmo_liberacion c.reemplazo m >>= compactar_si_toca c.frecuencia (suc liberadas))
      ≡ some m'
    → buscar c (suc f) liberadas m ≡ buscar c f (suc liberadas) m'
unfolding buscar
buscar_libera c f liberadas m m' e h r = ground arith

buscar_nulo :
    (c : Pedido) (f liberadas : ℕ) (m : Memoria)
    → leb liberadas c.cant_elementos ≡ true
    → hay_particiones_candidatas c.tamanio m.tabla ≡ false
    → (algoritmo_liberacion c.reemplazo m >>= compactar_si_toca c.frecuencia (suc liberadas)) ≡ none
    → buscar c (suc f) liberadas m ≡ fallo
unfolding buscar
buscar_nulo c f liberadas m e h r = ground arith

pub buscar_falla :
    (c : Pedido) (f liberadas : ℕ) (m : Memoria)
    → leb liberadas c.cant_elementos ≡ true
    → hay_particiones_candidatas c.tamanio m.tabla ≡ false
    → algoritmo_liberacion c.reemplazo m ≡ none
    → buscar c (suc f) liberadas m ≡ fallo
unfolding buscar
buscar_falla c f liberadas m e h r = ground arith

pub buscar_sin_lugar :
    (c : Pedido) (f liberadas : ℕ) (m : Memoria)
    → leb liberadas c.cant_elementos ≡ false
    → buscar c (suc f) liberadas m ≡ sin_lugar m
unfolding buscar
buscar_sin_lugar c f liberadas m e = ground arith

o_fallo_lem : (o : Option Memoria) → o_fallo o ≢ sin_combustible
unfolding o_fallo
o_fallo_lem none = λ e. cc
o_fallo_lem (some m) = λ e. cc

guardar_segun-ne-sin_combustible :
    (ajuste : Ajuste) (mensaje : Mensaje) (tamanio : ℕ) (m : Memoria)
    → guardar_segun ajuste mensaje tamanio m ≢ sin_combustible
unfolding guardar_segun
guardar_segun-ne-sin_combustible ff mensaje tamanio m = o_fallo_lem _
guardar_segun-ne-sin_combustible bf mensaje tamanio m = o_fallo_lem _
guardar_segun-ne-sin_combustible otro_ajuste mensaje tamanio m = λ e. cc

buscar-ne-sin_combustible :
    (c : Pedido) (f liberadas : ℕ) (m : Memoria)
    → liberadas ≤ suc c.cant_elementos
    → suc c.cant_elementos < f + liberadas
    → buscar c f liberadas m ≢ sin_combustible
buscar-ne-sin_combustible c zero liberadas m k h = absurd (omega arith)
buscar-ne-sin_combustible c (suc f) liberadas m k h =
    elim (Bool-cases (leb liberadas c.cant_elementos)) [
      | inr e ↦ rw (buscar_sin_lugar c f liberadas m e) (λ z. cc)
      | inl e ↦ elim (Bool-cases (hay_particiones_candidatas c.tamanio m.tabla)) [
        | inl hay ↦
            rw (buscar_guarda c f liberadas m e hay)
              (guardar_segun-ne-sin_combustible c.ajuste c.mensaje c.tamanio m)
        | inr falta ↦
            elim (Option-cases (
              algoritmo_liberacion c.reemplazo m
              >>= compactar_si_toca c.frecuencia (suc liberadas))) [
                | inl r ↦ rw (buscar_nulo c f liberadas m e falta r) (λ z. cc)
                | inr (m', r) ↦
                    rw (buscar_libera c f liberadas m m' e falta r) (
                      buscar-ne-sin_combustible c f (suc liberadas) m' (ground arith) (omega arith))
              ]
      ]
    ]

-- On any memory and any settings the loop ends within the fuel that the model gives it, two
-- rounds more than the table has partitions: the fuel is never what ends it.
pub algoritmo_particion_dinamica-ne-sin_combustible :
    (size_min_particion : ℕ) (mensaje : Mensaje) (frecuencia : ℤ) (reemplazo : Reemplazo)
    (ajuste : Ajuste) (m : Memoria)
    → algoritmo_particion_dinamica size_min_particion mensaje frecuencia reemplazo ajuste m
      ≢ sin_combustible
unfolding algoritmo_particion_dinamica
algoritmo_particion_dinamica-ne-sin_combustible size_min_particion mensaje frecuencia reemplazo
      ajuste m =
    buscar-ne-sin_combustible _ (length m.tabla + 2) 0 m (omega arith) (omega arith)
