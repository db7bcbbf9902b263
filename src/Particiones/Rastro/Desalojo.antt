-- ===== src/Particiones/Rastro/Desalojo.antt =====
-- Broker/src/Particiones.c: joining, evicting and compacting bring no new message into the table.
use sistemas_operativos_utn.Base.{
  ℕ, zero, suc, ◌+◌, ◌-◌, Bool, true, false, not, ◌&&◌, ◌==◌, Option, none, List, [], ◌∷◌, ◌++◌,
  Bool-cases, inl, inr, get_elem?, length, Todas, Si, Si->>=, Si-if, sin_condicion, Todas-get,
  Todas-set, Todas-remove, Todas-insert, Todas-append,
}
use sistemas_operativos_utn.Sockets.Codigos.{OpCode}
use sistemas_operativos_utn.Particiones.Tabla.{
  Particion, Memoria, actualizar_ids, actualizar_id, obtener_posicion,
}
use sistemas_operativos_utn.Particiones.Consolidacion.{
  consolidar_anterior, consolidar_siguiente, consolidar_particion,
}
use sistemas_operativos_utn.Particiones.Ajuste.{algoritmo_fifo, algoritmo_lru}
use sistemas_operativos_utn.Particiones.Liberacion.{
  Reemplazo, fifo, lru, otro_reemplazo, vaciar, soltar, liberar_victima, liberar_con, separar,
  recolocar, consolidar_veces, algoritmo_compactacion,
}
use sistemas_operativos_utn.Particiones.Buddy.{
  consolidar_izquierda, consolidar_derecha, consolidar_particion_bs, son_buddies, es_buddy_derecha,
}

module _ (Bien : Option OpCode → ℕ → Type 0) where
  -- The property of a partition, of every partition of a table, and of a memory.
  abbrev pub Sana : Particion → Type 0
  Sana p = Bien p.codigo_operacion p.id_mensaje

  abbrev pub TodasSanas : List Particion → Type 0
  TodasSanas = Todas Sana

  abbrev pub MemoriaSana : Memoria → Type 0
  MemoriaSana m = TodasSanas m.tabla

  consolidar_anterior-TodasSanas :
      (t : List Particion) (i : ℕ)
      → TodasSanas t
      → Si (λ (r : List Particion × ℕ). TodasSanas r.0) (consolidar_anterior t i)
  unfolding consolidar_anterior
  consolidar_anterior-TodasSanas t zero h = h
  consolidar_anterior-TodasSanas t (suc i) h =
      Si->>= Sana _ (get_elem? t (suc i)) _ (Todas-get Sana t (suc i) h) (λ p hp.
        Si->>= Sana _ (get_elem? t i) _ (Todas-get Sana t i h) (λ a ha.
          Si-if _ a.ocupada _ _ h (Todas-remove Sana _ i (Todas-set Sana t (suc i) _ h hp))))

  consolidar_siguiente-TodasSanas :
      (t : List Particion) (i : ℕ) → TodasSanas t → Si TodasSanas (consolidar_siguiente t i)
  unfolding consolidar_siguiente
  consolidar_siguiente-TodasSanas t i h = Si-if TodasSanas (suc i == length t) _ _ h (
      Si->>= Sana TodasSanas (get_elem? t i) _ (Todas-get Sana t i h) (λ p hp.
        Si->>= Sana TodasSanas (get_elem? t (suc i)) _ (Todas-get Sana t (suc i) h) (λ s hs.
          Si-if _ s.ocupada _ _ h (Todas-remove Sana _ (suc i) (Todas-set Sana t i _ h hp)))))

  pub consolidar_particion-TodasSanas :
      (t : List Particion) (i : ℕ) → TodasSanas t → Si TodasSanas (consolidar_particion t i)
  unfolding consolidar_particion
  consolidar_particion-TodasSanas t i h =
      Si->>= _ _ (consolidar_anterior t i) _ (consolidar_anterior-TodasSanas t i h)
        (λ r hr. consolidar_siguiente-TodasSanas r.0 r.1 hr)

  consolidar_izquierda-TodasSanas :
      (t : List Particion) (i : ℕ)
      → TodasSanas t
      → Si (λ (r : List Particion × ℕ). TodasSanas r.0) (consolidar_izquierda t i)
  unfolding consolidar_izquierda
  consolidar_izquierda-TodasSanas t zero h = h
  consolidar_izquierda-TodasSanas t (suc i) h =
      Si->>= Sana _ (get_elem? t (suc i)) _ (Todas-get Sana t (suc i) h) (λ p hp.
        Si->>= Sana _ (get_elem? t i) _ (Todas-get Sana t i h) (λ a ha.
          Si-if _ (not a.ocupada && son_buddies p a) _ _
            (Todas-insert Sana _ i _
              (Todas-remove Sana _ i
                (Todas-remove Sana _ (suc i) (Todas-set Sana t (suc i) _ h hp)))
              hp)
            h))

  consolidar_derecha-TodasSanas :
      (t : List Particion) (i : ℕ) → TodasSanas t → Si TodasSanas (consolidar_derecha t i)
  unfolding consolidar_derecha
  consolidar_derecha-TodasSanas t i h = Si-if TodasSanas (suc i == length t) _ _ h (
      Si->>= Sana TodasSanas (get_elem? t i) _ (Todas-get Sana t i h) (λ p hp.
        Si->>= Sana TodasSanas (get_elem? t (suc i)) _ (Todas-get Sana t (suc i) h) (λ d hd.
          Si-if TodasSanas (not d.ocupada && es_buddy_derecha p d) _ _
            (Todas-insert Sana _ i _
              (Todas-remove Sana _ i (Todas-remove Sana _ (suc i) (Todas-set Sana t i _ h hp))) hp)
            h)))

  pub consolidar_particion_bs-TodasSanas :
      (t : List Particion) (i : ℕ) → TodasSanas t → Si TodasSanas (consolidar_particion_bs t i)
  unfolding consolidar_particion_bs
  consolidar_particion_bs-TodasSanas t i h =
      Si->>= _ _ (consolidar_izquierda t i) _ (consolidar_izquierda-TodasSanas t i h)
        (λ r hr. consolidar_derecha-TodasSanas r.0 r.1 hr)

  -- The ways to consolidate that an eviction may take.
  abbrev pub Conserva : (List Particion → ℕ → Option (List Particion)) → Type 0
  Conserva consolidar = (t : List Particion) (i : ℕ) → TodasSanas t → Si TodasSanas (consolidar t i)

  module _ (bien_none : (n : ℕ) → Bien none n) where
    soltar-TodasSanas :
        (nuevo : ℕ) (v : ℕ × Particion) (t : List Particion)
        → TodasSanas t
        → Si (λ (r : List Particion × ℕ). TodasSanas r.0) (soltar nuevo v t)
    unfolding soltar vaciar
    soltar-TodasSanas nuevo (i, p) t h =
        Si->>= (λ k. Unit {0}) _ (obtener_posicion p t) _ (sin_condicion (obtener_posicion p t))
          (λ k u.
            Todas-insert Sana _ k _
              (Todas-remove Sana _ k (Todas-set Sana t i (vaciar nuevo p) h (bien_none 0)))
              (bien_none 0))

    liberar_victima-MemoriaSana :
        (consolidar : List Particion → ℕ → Option (List Particion)) (nuevo : ℕ)
        (victima : Option (ℕ × Particion)) (m : Memoria)
        → Conserva consolidar
        → MemoriaSana m
        → Si MemoriaSana (liberar_victima consolidar nuevo victima m)
    unfolding liberar_victima
    liberar_victima-MemoriaSana consolidar nuevo victima m c h =
        Si->>= (λ v. Unit {0}) MemoriaSana victima _ (sin_condicion victima)
          (λ v u.
            Si->>= (λ (r : List Particion × ℕ). TodasSanas r.0) MemoriaSana (soltar nuevo v m.tabla)
              _ (soltar-TodasSanas nuevo v m.tabla h)
              (λ r hr.
                Si->>= TodasSanas MemoriaSana (consolidar r.0 r.1) _ (c r.0 r.1 hr) (λ t ht. ht)))

    pub liberar_con-MemoriaSana :
        (consolidar : List Particion → ℕ → Option (List Particion)) (reemplazo : Reemplazo)
        (m : Memoria)
        → Conserva consolidar
        → MemoriaSana m
        → Si MemoriaSana (liberar_con consolidar reemplazo m)
    unfolding liberar_con
    liberar_con-MemoriaSana consolidar fifo m c h =
        liberar_victima-MemoriaSana consolidar 0 (algoritmo_fifo m.tabla) m c h
    liberar_con-MemoriaSana consolidar lru m c h =
        liberar_victima-MemoriaSana consolidar (suc m.id_particion) (algoritmo_lru m.tabla)
          (record m { id_particion = suc m.id_particion }) c h
    liberar_con-MemoriaSana consolidar otro_reemplazo m c h = h

  separar-TodasSanas : (b : Bool) (t : List Particion) → TodasSanas t → TodasSanas (separar b t)
  unfolding separar
  separar-TodasSanas b [] h = tt
  separar-TodasSanas true (p ∷ ps) h = elim (Bool-cases p.ocupada) [
    | inl e ↦ rw e (h.0, separar-TodasSanas true ps h.1)
    | inr e ↦ rw e (separar-TodasSanas true ps h.1)
  ]
  separar-TodasSanas false (p ∷ ps) h = elim (Bool-cases p.ocupada) [
    | inl e ↦ rw e (separar-TodasSanas false ps h.1)
    | inr e ↦ rw e (h.0, separar-TodasSanas false ps h.1)
  ]

  recolocar-TodasSanas : (i : ℕ) (t : List Particion) → TodasSanas t → TodasSanas (recolocar i t)
  unfolding recolocar
  recolocar-TodasSanas i [] h = tt
  recolocar-TodasSanas i (p ∷ ps) h = (h.0, recolocar-TodasSanas (i + p.size) ps h.1)

  consolidar_veces-TodasSanas :
      (n i : ℕ) (t : List Particion) → TodasSanas t → Si TodasSanas (consolidar_veces n i t)
  unfolding consolidar_veces
  consolidar_veces-TodasSanas zero i t h = h
  consolidar_veces-TodasSanas (suc n) i t h =
      Si->>= TodasSanas TodasSanas (consolidar_particion t i) _
        (consolidar_particion-TodasSanas t i h) (λ t' h'. consolidar_veces-TodasSanas n i t' h')

  pub algoritmo_compactacion-MemoriaSana :
      (m : Memoria) → MemoriaSana m → Si MemoriaSana (algoritmo_compactacion m)
  unfolding algoritmo_compactacion
  algoritmo_compactacion-MemoriaSana m h =
      let o = separar true m.tabla in
      let l = separar false m.tabla in
      Si->>= TodasSanas MemoriaSana
        (consolidar_veces (length l - 1) (length o) (recolocar 0 (o ++ l))) _
        (consolidar_veces-TodasSanas (length l - 1) (length o) (recolocar 0 (o ++ l)) (
          recolocar-TodasSanas 0 (o ++ l) (
            Todas-append Sana o l (separar-TodasSanas true m.tabla h)
              (separar-TodasSanas false m.tabla h))))
        (λ t ht. ht)

  actualizar_ids-TodasSanas :
      (id k : ℕ) (t : List Particion) → TodasSanas t → TodasSanas (actualizar_ids id k t).0
  unfolding actualizar_ids
  actualizar_ids-TodasSanas id k [] h = tt
  actualizar_ids-TodasSanas id k (p ∷ ps) h = elim (Bool-cases (p.id_mensaje == id)) [
    | inl e ↦ rw e (h.0, actualizar_ids-TodasSanas id (suc k) ps h.1)
    | inr e ↦ rw e (h.0, actualizar_ids-TodasSanas id k ps h.1)
  ]

  pub actualizar_id-MemoriaSana :
      (id : ℕ) (m : Memoria) → MemoriaSana m → MemoriaSana (actualizar_id id m)
  unfolding actualizar_id
  actualizar_id-MemoriaSana id m h = actualizar_ids-TodasSanas id m.id_particion m.tabla h
