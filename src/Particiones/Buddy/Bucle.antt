-- ===== src/Particiones/Buddy/Bucle.antt =====
-- Broker/src/Particiones.c: the inner loop of `algoritmoBuddySystem` ends with the message stored,
-- and so does the function where a free partition is large enough.
use sistemas_operativos_utn.Base.{
  ℕ, ◌^◌, zero, suc, ◌+◌, ◌≡◌, ◌≢◌, ◌≤◌, ◌<◌, refl, sym, ap, subst, ◌∙◌, true, false, List, ◌∷◌,
  ◌++◌, length, arith, some, Bool-cases, inl, inr, ltb,
}
use sistemas_operativos_utn.Particiones.Tabla.{Particion, Memoria, Mensaje, particion_candidata}
use sistemas_operativos_utn.Particiones.Forma.{mensajes, EsContigua, total}
use sistemas_operativos_utn.Base.{Todas}
use sistemas_operativos_utn.Particiones.Ajuste.{hay_particiones_candidatas, get_particion_first_fit}
use sistemas_operativos_utn.Particiones.Ajuste.Eleccion.{candidata_cabe}
use sistemas_operativos_utn.Particiones.Ajuste.Primero.{
  PrimerAjuste, primera-filtrar, get_particion_first_fit-PrimerAjuste,
}
use sistemas_operativos_utn.Particiones.Consolidacion.Validez.{total_partes}
use sistemas_operativos_utn.Particiones.Liberacion.{Reemplazo}
use sistemas_operativos_utn.Particiones.Dinamica.{o_fallo}
use sistemas_operativos_utn.Particiones.Buddy.{
  hay_particiones_candidatas_bs, guardar_bs, partir_primera, partir_y_guardar, buscar_bs,
  tamanio_minimo, tamanio_pedido_bs, algoritmo_buddy_system, PedidoBs,
}
use sistemas_operativos_utn.Particiones.Buddy.Potencias.{
  potencia, potencia-pos, tamanio_minimo-MenorPotencia,
}
use sistemas_operativos_utn.Particiones.Buddy.Partir.{
  EsPotencia, mitad_de, generar_particion_bs-Mitades,
}
use sistemas_operativos_utn.Particiones.Buddy.Guardar.{
  GuardadaBs, Todas-split, Todas-join, guardar_bs-GuardadaBs, hay_bs-justa,
}

partir_y_guardar-hay :
    (f : ℕ) (mensaje : Mensaje) (t : ℕ) (m : Memoria)
    → hay_particiones_candidatas_bs t m.tabla ≡ true
    → partir_y_guardar (suc f) mensaje t m ≡ o_fallo (guardar_bs mensaje t m)
unfolding partir_y_guardar
partir_y_guardar-hay f mensaje t m h = ground arith

partir_y_guardar-parte :
    (f : ℕ) (mensaje : Mensaje) (t : ℕ) (m m' : Memoria)
    → hay_particiones_candidatas_bs t m.tabla ≡ false
    → partir_primera t m ≡ some m'
    → partir_y_guardar (suc f) mensaje t m ≡ partir_y_guardar f mensaje t m'
unfolding partir_y_guardar
partir_y_guardar-parte f mensaje t m m' h e = ground arith

-- A halved first choice: the table after it, in which the first half is chosen.
record Partida (capacidad t : ℕ) (m : Memoria) (fa : PrimerAjuste t m.tabla) : Type 0 where
  m' : Memoria
  hecho : partir_primera t m ≡ some m'
  contigua : EsContigua capacidad m'.tabla
  potencias : Todas EsPotencia m'.tabla
  mismos : mensajes m'.tabla ≡ mensajes m.tabla
  elegida : PrimerAjuste t m'.tabla
  menor : elegida.p.size < fa.p.size

partir_primera-Partida :
    (capacidad k : ℕ) (m : Memoria)
    → EsContigua capacidad m.tabla
    → Todas EsPotencia m.tabla
    → (fa : PrimerAjuste (potencia k) m.tabla) → fa.p.size ≢ potencia k
    → Partida capacidad (potencia k) m fa
unfolding partir_primera get_particion_first_fit particion_candidata
partir_primera-Partida capacidad k m v t fa ne =
    let (libre, cabe) = candidata_cabe (potencia k) fa.p fa.candidata in
    let xs = fa.lugar.antes in
    let ys = fa.lugar.despues in
    let p = fa.p in
    let v' : EsContigua capacidad (xs ++ (p ∷ ys)) = rw fa.lugar.partes at v in
    let t' : Todas EsPotencia (xs ++ (p ∷ ys)) = rw fa.lugar.partes at t in
    let (tx, tp) = Todas-split xs (p ∷ ys) t' in
    let (j, ej) = tp.0 in
    let ty = tp.1 in
    let (i, ei, c) = mitad_de k j (omega (arith, cabe, ej)) (λ e. ne (ej ∙ e)) in
    let d =
      generar_particion_bs-Mitades capacidad (potencia i) m p xs ys fa.lugar.partes v' libre
        (potencia-pos i) (ej ∙ ei) in
    let pasa : particion_candidata (potencia k) d.a ≡ true = ground (arith, d.libre_a, d.mitad_a) in
    record {
      m' = record { tabla = xs ++ (d.a ∷ (d.b ∷ ys)); id_particion = d.id };
      hecho = rw (fa.hecho, d.hecho);
      contigua = d.contigua;
      potencias = Todas-join xs (d.a ∷ (d.b ∷ ys)) tx ((i, d.mitad_a), ((i, d.mitad_b), ty));
      mismos = d.mismos ∙ ap mensajes (sym fa.lugar.partes);
      elegida = record {
        i = length xs;
        p = d.a;
        lugar = record { antes = xs; despues = d.b ∷ ys; partes = refl; indice = refl };
        hecho =
            primera-filtrar (particion_candidata (potencia k)) (length xs) 0 xs d.a (d.b ∷ ys)
              fa.primero pasa (omega arith);
        candidata = pasa;
        primero = fa.primero;
      };
      menor = omega (arith, d.mitad_a, ej, ei, potencia-pos i);
    }

otra_tabla :
    {capacidad t : ℕ} {mensaje : Mensaje} {m n : Memoria} {r s : _}
    → mensajes n.tabla ≡ mensajes m.tabla
    → r ≡ s
    → GuardadaBs capacidad mensaje t n s
    → GuardadaBs capacidad mensaje t m r
otra_tabla e er g = record {
  m' = g.m';
  hecho = er ∙ g.hecho;
  contigua = g.contigua;
  potencias = g.potencias;
  ocupa = g.ocupa;
  cabe = g.cabe;
  inserta = record {
    antes = g.inserta.antes;
    despues = g.inserta.despues;
    resto = sym e ∙ g.inserta.resto;
    partes = g.inserta.partes;
  };
}

partir_y_guardar-GuardadaBs :
    (capacidad f k : ℕ) (mensaje : Mensaje) (m : Memoria)
    → EsContigua capacidad m.tabla
    → Todas EsPotencia m.tabla
    → (fa : PrimerAjuste (potencia k) m.tabla) → fa.p.size < f
    → GuardadaBs capacidad mensaje (potencia k) m (partir_y_guardar f mensaje (potencia k) m)
partir_y_guardar-GuardadaBs capacidad zero k mensaje m v t fa h = absurd (omega arith)
partir_y_guardar-GuardadaBs capacidad (suc f) k mensaje m v t fa h =
    elim (Bool-cases (hay_particiones_candidatas_bs (potencia k) m.tabla)) [
      | inl e ↦
          otra_tabla refl (partir_y_guardar-hay f mensaje (potencia k) m e)
            (guardar_bs-GuardadaBs capacidad mensaje (potencia k) m v t fa)
      | inr e ↦
          let (libre, cabe) = candidata_cabe (potencia k) fa.p fa.candidata in
          let d = partir_primera-Partida capacidad k m v t fa (λ es.
            ground (arith, e, hay_bs-justa (potencia k) m.tabla fa.i fa.p fa.lugar libre es)) in
          otra_tabla d.mismos (partir_y_guardar-parte f mensaje (potencia k) m d.m' e d.hecho) (
            partir_y_guardar-GuardadaBs capacidad f k mensaje d.m' d.contigua d.potencias d.elegida
              (omega (arith, d.menor)))
    ]

buscar_bs-justa :
    (c : PedidoBs) (f : ℕ) (m : Memoria)
    → hay_particiones_candidatas_bs c.tamanio m.tabla ≡ true
    → buscar_bs c (suc f) 0 m ≡ o_fallo (guardar_bs c.mensaje c.tamanio m)
unfolding buscar_bs
buscar_bs-justa c f m h = ground arith

buscar_bs-parte :
    (c : PedidoBs) (f : ℕ) (m : Memoria)
    → hay_particiones_candidatas_bs c.tamanio m.tabla ≡ false
    → hay_particiones_candidatas c.tamanio m.tabla ≡ true
    → buscar_bs c (suc f) 0 m ≡ partir_y_guardar (suc (total m.tabla)) c.mensaje c.tamanio m
unfolding buscar_bs
buscar_bs-parte c f m h h' = ground arith

-- A first choice is not larger than the memory.
elegida-le : (t : ℕ) (tabla : List Particion) (fa : PrimerAjuste t tabla) → fa.p.size ≤ total tabla
elegida-le t tabla fa =
    omega (arith, ap total fa.lugar.partes, total_partes fa.lugar.antes fa.p fa.lugar.despues)

buscar_bs-GuardadaBs :
    (capacidad f k : ℕ) (c : PedidoBs) (m : Memoria)
    → EsContigua capacidad m.tabla
    → Todas EsPotencia m.tabla
    → c.tamanio ≡ potencia k
    → hay_particiones_candidatas c.tamanio m.tabla ≡ true
    → GuardadaBs capacidad c.mensaje c.tamanio m (buscar_bs c (suc f) 0 m)
buscar_bs-GuardadaBs capacidad f k c m v t e hay =
    let fa = get_particion_first_fit-PrimerAjuste c.tamanio m.tabla hay in
    elim (Bool-cases (hay_particiones_candidatas_bs c.tamanio m.tabla)) [
      | inl h ↦
          otra_tabla refl (buscar_bs-justa c f m h)
            (guardar_bs-GuardadaBs capacidad c.mensaje c.tamanio m v t fa)
      | inr h ↦ otra_tabla refl (buscar_bs-parte c f m h hay) (en_partes c.tamanio e fa)
    ]
  where
    en_partes :
        (s : ℕ)
        → s ≡ potencia k
        → (fa : PrimerAjuste s m.tabla)
        → GuardadaBs capacidad c.mensaje s m (partir_y_guardar (suc (total m.tabla)) c.mensaje s m)
    en_partes s es =
        subst
          (λ s.
            (fa : PrimerAjuste s m.tabla)
            → GuardadaBs capacidad c.mensaje s m
                (partir_y_guardar (suc (total m.tabla)) c.mensaje s m))
          (sym es)
          (λ fa.
            partir_y_guardar-GuardadaBs capacidad (suc (total m.tabla)) k c.mensaje m v t fa
              (omega (arith, elegida-le (potencia k) m.tabla fa)))

tamanio_pedido_bs-potencia :
    (j size_msg : ℕ)
    → 0 < size_msg
    → size_msg ≤ 2 ^ 30
    → (k : ℕ) × (tamanio_pedido_bs (potencia j) size_msg ≡ potencia k)
unfolding tamanio_pedido_bs
tamanio_pedido_bs-potencia j size_msg h c =
    let r = tamanio_minimo-MenorPotencia size_msg h c in
    elim (Bool-cases (ltb (tamanio_minimo size_msg) (potencia j))) [
      | inl e ↦ (j, rw e refl)
      | inr e ↦ (r.k, rw e (r.es))
    ]

-- On a contiguous memory whose sizes are powers of two, with a power of two for the least size, and
-- where a free partition is large enough for the size asked, the buddy system stores a message that
-- is not empty and of at most 2 ^ 30 bytes, beyond which no partition of an `int32_t` size that is a
-- power of two has room: the loops end, the memory stays contiguous with powers of two for sizes, and the
-- messages are the old ones in their order with the new one among them, in a partition not smaller
-- than asked.
pub algoritmo_buddy_system-GuardadaBs :
    (capacidad j : ℕ) (mensaje : Mensaje) (reemplazo : Reemplazo) (m : Memoria)
    → EsContigua capacidad m.tabla
    → Todas EsPotencia m.tabla
    → 0 < mensaje.size_msg
    → mensaje.size_msg ≤ 2 ^ 30
    → hay_particiones_candidatas (tamanio_pedido_bs (potencia j) mensaje.size_msg) m.tabla ≡ true
    → GuardadaBs capacidad mensaje
        (tamanio_pedido_bs (potencia j) mensaje.size_msg)
        m
        (algoritmo_buddy_system (potencia j) mensaje reemplazo m)
unfolding algoritmo_buddy_system
algoritmo_buddy_system-GuardadaBs capacidad j mensaje reemplazo m v t h c30 hay =
    let (k, ek) = tamanio_pedido_bs-potencia j mensaje.size_msg h c30 in
    let c : PedidoBs = record {
      mensaje = mensaje;
      reemplazo = reemplazo;
      tamanio = tamanio_pedido_bs (potencia j) mensaje.size_msg;
      cant_elementos = length m.tabla;
    } in
    let fuel : suc (length m.tabla + 1) ≡ length m.tabla + 2 = omega arith in
    subst (λ f. GuardadaBs capacidad mensaje c.tamanio m (buscar_bs c f 0 m)) fuel
      (buscar_bs-GuardadaBs capacidad (length m.tabla + 1) k c m v t ek hay)
