-- ===== src/Particiones/Dinamica/Guardar.antt =====
-- The branch of `algoritmoParticionDinamica` that stores the message: the choice of a partition,
-- its split, and `guardarMensaje`.
use sistemas_operativos_utn.Base.{
  ℕ, suc, ◌+◌, ◌-◌, ◌<◌, ◌≡◌, refl, ap, ◌∙◌, sym, true, false, List, [], ◌∷◌, ◌++◌, length, arith,
  some, Option, ◌==◌, Bool-cases, inl, inr, remove_at-append, insert_at-append,
}
use sistemas_operativos_utn.Particiones.Tabla.{Particion, Memoria, Mensaje, crear_particion}
use sistemas_operativos_utn.Particiones.Forma.{mensajes, Contigua, EsValida, total}
use sistemas_operativos_utn.Particiones.Forma.Partes.{
  total-append, Contigua-split, Contigua-join, Separadas-split, Contigua-at,
}
use sistemas_operativos_utn.Particiones.Punteros.{obtener_posicion-Lugar}
use sistemas_operativos_utn.Particiones.Ajuste.{hay_particiones_candidatas}
use sistemas_operativos_utn.Particiones.Ajuste.Eleccion.{Elegida, EsEleccion, candidata_cabe}
use sistemas_operativos_utn.Particiones.Consolidacion.Validez.{mensajes_libre, total_partes}
use sistemas_operativos_utn.Particiones.Dinamica.{
  generar_particion_dinamica, guardar_mensaje, guardar_en,
}
use sistemas_operativos_utn.Particiones.Dinamica.Justa.{Guardada, guardar_justa}

-- The two parts of a free partition.
record Partida (m : Memoria) (original : Particion) (tamanio : ℕ) (xs ys : List Particion)
    : Type 0 where
  a : Particion
  b : Particion
  hecho :
      generar_particion_dinamica original tamanio m
      ≡ some (record { tabla = xs ++ (a ∷ (b ∷ ys)); id_particion = suc (suc m.id_particion) })
  libre_a : a.ocupada ≡ false
  libre_b : b.ocupada ≡ false
  justa : a.size ≡ tamanio
  seguidas : Contigua original.posicion_inicial (a ∷ (b ∷ []))
  suma : a.size + b.size ≡ original.size

generar_partes :
    (m : Memoria) (p : Particion) (tamanio : ℕ) (xs ys : List Particion)
    → m.tabla ≡ xs ++ (p ∷ ys)
    → Contigua 0 (xs ++ (p ∷ ys))
    → 0 < tamanio
    → tamanio < p.size
    → Partida m p tamanio xs ys
unfolding generar_particion_dinamica
generar_partes m p tamanio xs ys e c h k =
    let a = (crear_particion m p.posicion_inicial tamanio false).0 in
    let m1 = (crear_particion m p.posicion_inicial tamanio false).1 in
    let b = (crear_particion m1 (p.posicion_inicial + tamanio) (p.size - tamanio) false).0 in
    record {
      a = a;
      b = b;
      hecho = rw (
        obtener_posicion-Lugar (rw (← e) at c)
            (record { antes = xs; despues = ys; partes = e; indice = refl }),
        e,
        remove_at-append xs (p ∷ ys) (length xs) 0 (omega arith),
        insert_at-append xs ys (length xs) 0 b (omega arith),
        insert_at-append xs (b ∷ ys) (length xs) 0 a (omega arith),
      );
      libre_a = refl;
      libre_b = refl;
      justa = refl;
      seguidas = omega arith;
      suma = omega arith;
    }

guardar_otra :
    {capacidad tamanio : ℕ} {mensaje : Mensaje} {m n : Memoria} {r : Option Memoria}
    → mensajes n.tabla ≡ mensajes m.tabla
    → Guardada capacidad mensaje tamanio n r
    → Guardada capacidad mensaje tamanio m r
guardar_otra e g = record {
  m' = g.m';
  hecho = g.hecho;
  valida = g.valida;
  inserta = record {
    antes = g.inserta.antes;
    despues = g.inserta.despues;
    resto = sym e ∙ g.inserta.resto;
    partes = g.inserta.partes;
  };
}

-- The partition at hand is larger: the message takes the first of its two parts.
guardar-Partida :
    (capacidad : ℕ) (mensaje : Mensaje) (tamanio i : ℕ) (m : Memoria) (xs : List Particion)
    (p : Particion) (ys : List Particion) (d : Partida m p tamanio xs ys)
    → m.tabla ≡ xs ++ (p ∷ ys)
    → i ≡ length xs
    → p.ocupada ≡ false
    → EsValida capacidad (xs ++ (p ∷ ys))
    → Guardada capacidad mensaje tamanio m (
        guardar_mensaje mensaje i
          (record { tabla = xs ++ (d.a ∷ (d.b ∷ ys)); id_particion = suc (suc m.id_particion) }))
guardar-Partida capacidad mensaje tamanio i m xs p ys d e ei libre v =
    let (cx, cp) = Contigua-split 0 xs (p ∷ ys) v.seguidas in
    let (sx, sp, sf) = Separadas-split xs (p ∷ ys) v.separadas in
    let n : Memoria = record {
      tabla = xs ++ (d.a ∷ (d.b ∷ ys));
      id_particion = suc (suc m.id_particion);
    } in
    let dos : Contigua (0 + total xs) (d.a ∷ (d.b ∷ ys)) = (
      omega (arith, d.seguidas.0, cp.0),
      omega (arith, d.seguidas.1, d.seguidas.0, cp.0),
      d.seguidas.2,
      (
        omega (arith, d.seguidas.3.0, d.seguidas.0, cp.0),
        omega (arith, d.seguidas.3.1, d.seguidas.0, cp.0),
        d.seguidas.3.2,
        Contigua-at ys (omega (arith, d.suma)) cp.3,
      ),
    ) in
    guardar_otra
      (mensajes_libre xs d.a (d.b ∷ ys) d.libre_a
        ∙ ap (◌++◌ (mensajes xs)) (mensajes_libre [] d.b ys d.libre_b)
        ∙ sym (mensajes_libre xs p ys libre)
        ∙ ap mensajes (sym e))
      (guardar_justa capacidad mensaje tamanio i n xs d.a (d.b ∷ ys) refl ei d.libre_a d.justa
        (record {
          seguidas = Contigua-join 0 (0 + total xs) xs (d.a ∷ (d.b ∷ ys)) (omega arith) cx dos;
          completa =
              omega (
                arith,
                total-append xs (d.a ∷ (d.b ∷ ys)),
                total_partes xs p ys,
                v.completa,
                d.suma,
              );
        })
        sx (ground (arith, d.libre_b), sp.1))

guardar_en_partes :
    (capacidad : ℕ) (mensaje : Mensaje) (tamanio : ℕ)
    (elegir : ℕ → List Particion → Option (ℕ × Particion)) (m : Memoria)
    → 0 < tamanio
    → EsValida capacidad m.tabla
    → Elegida elegir tamanio m.tabla
    → Guardada capacidad mensaje tamanio m (guardar_en elegir mensaje tamanio m)
unfolding guardar_en
guardar_en_partes capacidad mensaje tamanio elegir m h v c =
    let (libre, cabe) = candidata_cabe tamanio c.p c.candidata in
    let xs = c.lugar.antes in
    let ys = c.lugar.despues in
    let v' : EsValida capacidad (xs ++ (c.p ∷ ys)) = rw c.lugar.partes at v in
    let (sx, sp, sf) = Separadas-split xs (c.p ∷ ys) v'.separadas in
    elim (Bool-cases (c.p.size == tamanio)) [
      | inl e ↦
          rw (c.hecho, e)
            (guardar_justa capacidad mensaje tamanio c.i m xs c.p ys c.lugar.partes c.lugar.indice
              libre (ground arith) (record { seguidas = v'.seguidas; completa = v'.completa }) sx
              sp.1)
      | inr e ↦
          let d = generar_partes m c.p tamanio xs ys c.lugar.partes v'.seguidas h (ground arith) in
          rw (c.hecho, e, d.hecho, c.al_partir d.a d.b d.libre_a d.justa (ground arith))
            (guardar-Partida capacidad mensaje tamanio c.i m xs c.p ys d c.lugar.partes
              c.lugar.indice libre v')
    ]

-- Where a free partition is large enough, either choice stores the message without a fault: the
-- table stays valid, the messages are the old ones in their order with the new one among them, in
-- a partition of exactly the size asked and with the newest id.
pub guardar_en-Guardada :
    (capacidad : ℕ) (mensaje : Mensaje) (tamanio : ℕ)
    {elegir : ℕ → List Particion → Option (ℕ × Particion)} (eleccion : EsEleccion elegir)
    (m : Memoria)
    → 0 < tamanio
    → EsValida capacidad m.tabla
    → hay_particiones_candidatas tamanio m.tabla ≡ true
    → Guardada capacidad mensaje tamanio m (guardar_en elegir mensaje tamanio m)
guardar_en-Guardada capacidad mensaje tamanio {elegir} eleccion m h v hay =
    guardar_en_partes capacidad mensaje tamanio elegir m h v (eleccion.elige tamanio m.tabla hay)
