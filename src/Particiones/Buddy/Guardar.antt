-- ===== src/Particiones/Buddy/Guardar.antt =====
-- Broker/src/Particiones.c: the branches of `algoritmoBuddySystem` that store the message, with
-- the loop that halves partitions until one has the size asked.
use sistemas_operativos_utn.Base.{
  ℕ, suc, ◌≡◌, ◌≤◌, refl, ap, ◌∙◌, true, false, List, [], ◌∷◌, ◌++◌, length, arith, ◌==◌,
}
use sistemas_operativos_utn.Particiones.Tabla.{
  Particion, Memoria, Mensaje, ocupar, filtrar, particion_candidata,
}
use sistemas_operativos_utn.Particiones.Forma.{mensajes, EsContigua, Lugar}
use sistemas_operativos_utn.Particiones.Forma.Partes.{
  mensajes-append, Contigua-split, Contigua-join,
}
use sistemas_operativos_utn.Base.{Todas}
use sistemas_operativos_utn.Particiones.Ajuste.{hay_particiones_candidatas, get_particion_first_fit}
use sistemas_operativos_utn.Particiones.Ajuste.Eleccion.{candidata_cabe}
use sistemas_operativos_utn.Particiones.Ajuste.Primero.{PrimerAjuste}
use sistemas_operativos_utn.Particiones.Consolidacion.Validez.{mensajes_libre, total_partes}
use sistemas_operativos_utn.Particiones.Dinamica.{Resultado, guardado, o_fallo}
use sistemas_operativos_utn.Particiones.Dinamica.Justa.{
  Inserta, guardado_como, guardar_mensaje_partes,
}
use sistemas_operativos_utn.Particiones.Buddy.{
  particion_candidata_bs, hay_particiones_candidatas_bs, get_particion_bs, guardar_bs,
}
use sistemas_operativos_utn.Particiones.Buddy.Partir.{EsPotencia}

-- What the branches leave: a contiguous table whose sizes are powers of two, with the message in a
-- partition that is not smaller than asked.
pub record GuardadaBs (capacidad : ℕ) (mensaje : Mensaje) (tamanio : ℕ) (m : Memoria)
    (r : Resultado) : Type 0 where
  pub m' : Memoria
  pub hecho : r ≡ guardado m'
  pub contigua : EsContigua capacidad m'.tabla
  pub potencias : Todas EsPotencia m'.tabla
  pub ocupa : ℕ
  pub cabe : tamanio ≤ ocupa
  pub inserta :
      Inserta (guardado_como mensaje ocupa m'.id_particion) (mensajes m.tabla) (mensajes m'.tabla)

pub Todas-split :
    (xs ys : List Particion)
    → Todas EsPotencia (xs ++ ys)
    → Todas EsPotencia xs × Todas EsPotencia ys
Todas-split [] ys t = (tt, t)
Todas-split (x ∷ xs) ys (h, t) = let (a, b) = Todas-split xs ys t in ((h, a), b)

pub Todas-join :
    (xs ys : List Particion)
    → Todas EsPotencia xs
    → Todas EsPotencia ys
    → Todas EsPotencia (xs ++ ys)
Todas-join [] ys a b = b
Todas-join (x ∷ xs) ys (h, a) b = (h, Todas-join xs ys a b)

-- The first partition that fits takes the message.
pub guardar_bs-GuardadaBs :
    (capacidad : ℕ) (mensaje : Mensaje) (tamanio : ℕ) (m : Memoria)
    → EsContigua capacidad m.tabla
    → Todas EsPotencia m.tabla
    → PrimerAjuste tamanio m.tabla
    → GuardadaBs capacidad mensaje tamanio m (o_fallo (guardar_bs mensaje tamanio m))
unfolding guardar_bs get_particion_bs get_particion_first_fit o_fallo ocupar
guardar_bs-GuardadaBs capacidad mensaje tamanio m v t f =
    let (libre, cabe) = candidata_cabe tamanio f.p f.candidata in
    let xs = f.lugar.antes in
    let ys = f.lugar.despues in
    let p = f.p in
    let nuevo = suc m.id_particion in
    let q = ocupar mensaje nuevo p in
    let v' : EsContigua capacidad (xs ++ (p ∷ ys)) = rw f.lugar.partes at v in
    let t' : Todas EsPotencia (xs ++ (p ∷ ys)) = rw f.lugar.partes at t in
    let (cx, cp) = Contigua-split 0 xs (p ∷ ys) v'.seguidas in
    let (tx, tp) = Todas-split xs (p ∷ ys) t' in
    record {
      m' = record { tabla = xs ++ (q ∷ ys); id_particion = nuevo };
      hecho =
          rw (f.hecho, guardar_mensaje_partes mensaje f.i m xs p ys f.lugar.partes f.lugar.indice);
      contigua = record {
        seguidas = Contigua-join 0 _ xs (q ∷ ys) refl cx cp;
        completa = omega (arith, total_partes xs p ys, total_partes xs q ys, v'.completa);
      };
      potencias = Todas-join xs (q ∷ ys) tx tp;
      ocupa = p.size;
      cabe = cabe;
      inserta = record {
        antes = mensajes xs;
        despues = mensajes ys;
        resto = ap mensajes f.lugar.partes ∙ mensajes_libre xs p ys libre;
        partes = mensajes-append xs (q ∷ ys);
      };
    }

-- A partition of the size asked is in particular one that fits.
hay_bs-hay :
    (s k : ℕ) (ps : List Particion)
    → (length (filtrar (particion_candidata s) k ps) == 0) ≡ true
    → (length (filtrar (particion_candidata_bs s) k ps) == 0) ≡ true
unfolding filtrar particion_candidata particion_candidata_bs
hay_bs-hay s k [] h = refl
hay_bs-hay s k (p ∷ ps) h = ground (arith, hay_bs-hay s (suc k) ps)

pub hay_bs-candidatas :
    (s : ℕ) (tabla : List Particion)
    → hay_particiones_candidatas_bs s tabla ≡ true
    → hay_particiones_candidatas s tabla ≡ true
unfolding hay_particiones_candidatas_bs hay_particiones_candidatas
hay_bs-candidatas s tabla h = ground (arith, hay_bs-hay s 0 tabla)

hay_bs_desde :
    (s k : ℕ) (xs : List Particion) (p : Particion) (ys : List Particion)
    → p.ocupada ≡ false
    → p.size ≡ s
    → (length (filtrar (particion_candidata_bs s) k (xs ++ (p ∷ ys))) == 0) ≡ false
unfolding filtrar particion_candidata_bs
hay_bs_desde s k [] p ys l e = ground arith
hay_bs_desde s k (x ∷ xs) p ys l e = ground (arith, hay_bs_desde s (suc k) xs p ys l e)

pub hay_bs-justa :
    (s : ℕ) (tabla : List Particion) (i : ℕ) (p : Particion)
    → Lugar tabla i p
    → p.ocupada ≡ false
    → p.size ≡ s
    → hay_particiones_candidatas_bs s tabla ≡ true
unfolding hay_particiones_candidatas_bs
hay_bs-justa s tabla i p l libre e =
    rw l.partes (ground (arith, hay_bs_desde s 0 l.antes p l.despues libre e))
