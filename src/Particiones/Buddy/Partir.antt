-- ===== src/Particiones/Buddy/Partir.antt =====
-- Broker/src/Particiones.c: `generarParticionBS` halves a free partition and keeps the table in
-- order.
use sistemas_operativos_utn.Base.{
  ℕ, zero, suc, ◌+◌, ◌-◌, ◌/◌, none, ◌≡◌, ◌≢◌, ◌≤◌, ◌<◌, refl, sym, ap, ◌∙◌, false, List, [], ◌∷◌,
  ◌++◌, length, arith, some, ltb, Bool-cases, inl, inr, remove_at-append, insert_at-append,
}
use sistemas_operativos_utn.Particiones.Tabla.{Particion, Memoria}
use sistemas_operativos_utn.Particiones.Forma.{mensajes, total, Contigua, EsContigua}
use sistemas_operativos_utn.Particiones.Forma.Partes.{
  total-append, Contigua-split, Contigua-join, Contigua-at,
}
use sistemas_operativos_utn.Particiones.Punteros.{obtener_posicion-Lugar}
use sistemas_operativos_utn.Particiones.Consolidacion.Validez.{mensajes_libre, total_partes}
use sistemas_operativos_utn.Particiones.Buddy.{generar_particion_bs}
use sistemas_operativos_utn.Particiones.Buddy.Potencias.{potencia, potencia-pos, potencia-le}

-- The size of a partition is a power of two.
abbrev pub EsPotencia : Particion → Type 0
EsPotencia p = (k : ℕ) × (p.size ≡ potencia k)

-- The two halves of a free partition.
pub record Mitades (capacidad h : ℕ) (m : Memoria) (p : Particion) (xs ys : List Particion)
    : Type 0 where
  pub a : Particion
  pub b : Particion
  pub id : ℕ
  pub hecho :
      generar_particion_bs p m ≡ some (record { tabla = xs ++ (a ∷ (b ∷ ys)); id_particion = id })
  pub libre_a : a.ocupada ≡ false
  pub mitad_a : a.size ≡ h
  pub mitad_b : b.size ≡ h
  pub contigua : EsContigua capacidad (xs ++ (a ∷ (b ∷ ys)))
  pub mismos : mensajes (xs ++ (a ∷ (b ∷ ys))) ≡ mensajes (xs ++ (p ∷ ys))

-- A power of two that is larger than another is the double of one that is not smaller.
pub mitad_de :
    (k j : ℕ)
    → potencia k ≤ potencia j
    → potencia j ≢ potencia k
    → (i : ℕ) × (potencia j ≡ potencia i + potencia i) × (potencia k ≤ potencia i)
mitad_de k zero h n = absurd (n (omega (arith, potencia-pos k)))
mitad_de k (suc i) h n = (
  i,
  refl,
  elim (Bool-cases (ltb i k)) [
    | inl e ↦
        let g : suc i ≤ k = ground arith in absurd (n (omega (arith, potencia-le (suc i) k g)))
    | inr e ↦ potencia-le k i (ground arith)
  ],
)

pub generar_particion_bs-Mitades :
    (capacidad h : ℕ) (m : Memoria) (p : Particion) (xs ys : List Particion)
    → m.tabla ≡ xs ++ (p ∷ ys)
    → EsContigua capacidad (xs ++ (p ∷ ys))
    → p.ocupada ≡ false
    → 0 < h
    → p.size ≡ h + h
    → Mitades capacidad h m p xs ys
unfolding generar_particion_bs
generar_particion_bs-Mitades capacidad h m p xs ys e v libre z es =
    let a : Particion = record {
      codigo_operacion = none;
      posicion_inicial = p.posicion_inicial;
      posicion_final = p.posicion_inicial + p.size / 2 - 1;
      size = p.size / 2;
      ocupada = false;
      id_mensaje = 0;
      id = suc (suc m.id_particion);
    } in
    let b : Particion = record {
      codigo_operacion = none;
      posicion_inicial = p.posicion_inicial + p.size / 2;
      posicion_final = p.posicion_inicial + p.size / 2 + p.size / 2 - 1;
      size = p.size / 2;
      ocupada = false;
      id_mensaje = 0;
      id = suc (suc (suc (suc m.id_particion)));
    } in
    let (cx, cp) = Contigua-split 0 xs (p ∷ ys) v.seguidas in
    let dos : Contigua (0 + total xs) (a ∷ (b ∷ ys)) = (
      omega (arith, cp.0),
      omega (arith, cp.0),
      omega arith,
      (omega (arith, cp.0), omega (arith, cp.0), omega arith, Contigua-at ys (omega arith) cp.3),
    ) in
    record {
      a = a;
      b = b;
      id = suc (suc (suc (suc m.id_particion)));
      hecho = rw (
        obtener_posicion-Lugar (rw (← e) at v.seguidas)
            (record { antes = xs; despues = ys; partes = e; indice = refl }),
        e,
        remove_at-append xs (p ∷ ys) (length xs) 0 (omega arith),
        insert_at-append xs ys (length xs) 0 b (omega arith),
        insert_at-append xs (b ∷ ys) (length xs) 0 a (omega arith),
      );
      libre_a = refl;
      mitad_a = omega arith;
      mitad_b = omega arith;
      contigua = record {
        seguidas = Contigua-join 0 (0 + total xs) xs (a ∷ (b ∷ ys)) (omega arith) cx dos;
        completa = omega (arith, total-append xs (a ∷ (b ∷ ys)), total_partes xs p ys, v.completa);
      };
      mismos =
          mensajes_libre xs a (b ∷ ys) refl
          ∙ ap (◌++◌ (mensajes xs)) (mensajes_libre [] b ys refl)
          ∙ sym (mensajes_libre xs p ys libre);
    }
