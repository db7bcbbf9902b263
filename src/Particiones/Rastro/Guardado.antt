-- ===== src/Particiones/Rastro/Guardado.antt =====
-- Broker/src/Particiones.c: storing a message under either algorithm brings that message into the
-- table and no other.
use sistemas_operativos_utn.Base.{
  refl, ℕ, zero, suc, ◌+◌, ◌≡◌, Option, none, some, List, Bool-cases, Option-cases, inl, inr,
  get_elem?, ◌>>=◌, length, leb, ◌==◌, ℤ, Si, Si->>=, Si-if, sin_condicion, Todas-get, Todas-set,
  Todas-remove, Todas-insert,
}
use sistemas_operativos_utn.Sockets.Codigos.{OpCode}
use sistemas_operativos_utn.Particiones.Tabla.{Particion, Memoria, Mensaje, obtener_posicion}
use sistemas_operativos_utn.Particiones.Forma.{total}
use sistemas_operativos_utn.Particiones.Ajuste.{
  hay_particiones_candidatas, get_particion_first_fit, get_particion_best_fit,
}
use sistemas_operativos_utn.Particiones.Liberacion.{Reemplazo, algoritmo_liberacion}
use sistemas_operativos_utn.Particiones.Dinamica.{
  Ajuste, ff, bf, otro_ajuste, Resultado, guardado, sin_lugar, no_implementado, fallo,
  sin_combustible, generar_particion_dinamica, guardar_mensaje, guardar_en, o_fallo, guardar_segun,
  toca_compactar, compactar_si_toca, Pedido, buscar, algoritmo_particion_dinamica,
}
use sistemas_operativos_utn.Particiones.Buddy.{
  generar_particion_bs, hay_particiones_candidatas_bs, get_particion_bs, guardar_bs, partir_primera,
  partir_y_guardar, PedidoBs, buscar_bs, algoritmo_buddy_system, algoritmo_liberacion_bs,
}
use sistemas_operativos_utn.Particiones.Rastro.Desalojo.{
  Sana, MemoriaSana, liberar_con-MemoriaSana, algoritmo_compactacion-MemoriaSana,
  consolidar_particion-TodasSanas, consolidar_particion_bs-TodasSanas,
}

-- The memory that a store leaves, if it leaves one.
abbrev pub Deja : (Memoria → Type 0) → Resultado → Type 0
Deja P (guardado m) = P m
Deja P (sin_lugar m) = P m
Deja P (no_implementado m) = P m
Deja P fallo = Unit
Deja P sin_combustible = Unit

o_fallo-Deja : (P : Memoria → Type 0) (r : Option Memoria) → Si P r → Deja P (o_fallo r)
unfolding o_fallo
o_fallo-Deja P none h = tt
o_fallo-Deja P (some m) h = h

module _ (Bien : Option OpCode → ℕ → Type 0) (bien_none : (n : ℕ) → Bien none n) where
  abbrev Buena : Memoria → Type 0
  Buena = MemoriaSana Bien

  generar_particion_dinamica-Buena :
      (p : Particion) (n : ℕ) (m : Memoria) → Buena m → Si Buena (generar_particion_dinamica p n m)
  unfolding generar_particion_dinamica
  generar_particion_dinamica-Buena p n m h =
      Si->>= (λ k. Unit {0}) Buena (obtener_posicion p m.tabla) _
        (sin_condicion (obtener_posicion p m.tabla))
        (λ k u.
          Todas-insert (Sana Bien) _ k _
            (Todas-insert (Sana Bien) _ k _ (Todas-remove (Sana Bien) m.tabla k h) (bien_none 0))
            (bien_none 0))

  generar_particion_bs-Buena :
      (p : Particion) (m : Memoria) → Buena m → Si Buena (generar_particion_bs p m)
  unfolding generar_particion_bs
  generar_particion_bs-Buena p m h =
      Si->>= (λ k. Unit {0}) Buena (obtener_posicion p m.tabla) _
        (sin_condicion (obtener_posicion p m.tabla))
        (λ k u.
          Todas-insert (Sana Bien) _ k _
            (Todas-insert (Sana Bien) _ k _ (Todas-remove (Sana Bien) m.tabla k h) (bien_none 0))
            (bien_none 0))

  compactar_si_toca-Buena :
      (f : ℤ) (n : ℕ) (m : Memoria) → Buena m → Si Buena (compactar_si_toca f n m)
  unfolding compactar_si_toca
  compactar_si_toca-Buena f n m h =
      Si-if Buena (toca_compactar f n) _ _ (algoritmo_compactacion-MemoriaSana Bien m h) h

  partir_primera-Buena : (n : ℕ) (m : Memoria) → Buena m → Si Buena (partir_primera n m)
  unfolding partir_primera
  partir_primera-Buena n m h =
      Si->>= (λ k. Unit {0}) Buena (get_particion_first_fit n m.tabla) _
        (sin_condicion (get_particion_first_fit n m.tabla))
        (λ v u. generar_particion_bs-Buena v.1 m h)

  algoritmo_liberacion-Buena :
      (r : Reemplazo) (m : Memoria) → Buena m → Si Buena (algoritmo_liberacion r m)
  unfolding algoritmo_liberacion
  algoritmo_liberacion-Buena r m h =
      liberar_con-MemoriaSana Bien bien_none _ r m (consolidar_particion-TodasSanas Bien) h

  algoritmo_liberacion_bs-Buena :
      (r : Reemplazo) (m : Memoria) → Buena m → Si Buena (algoritmo_liberacion_bs r m)
  unfolding algoritmo_liberacion_bs
  algoritmo_liberacion_bs-Buena r m h =
      liberar_con-MemoriaSana Bien bien_none _ r m (consolidar_particion_bs-TodasSanas Bien) h

  module _ (mensaje : Mensaje) (nueva : Bien (some mensaje.op_code) mensaje.id_mensaje) where
    guardar_mensaje-Buena : (i : ℕ) (m : Memoria) → Buena m → Si Buena (guardar_mensaje mensaje i m)
    unfolding guardar_mensaje
    guardar_mensaje-Buena i m h =
        Si->>= (Sana Bien) Buena (get_elem? m.tabla i) _ (Todas-get (Sana Bien) m.tabla i h)
          (λ p hp. Todas-set (Sana Bien) m.tabla i _ h nueva)

    guardar_en-Buena :
        (elegir : ℕ → List Particion → Option (ℕ × Particion)) (n : ℕ) (m : Memoria)
        → Buena m
        → Si Buena (guardar_en elegir mensaje n m)
    unfolding guardar_en
    guardar_en-Buena elegir n m h =
        Si->>= (λ k. Unit {0}) Buena (elegir n m.tabla) _ (sin_condicion (elegir n m.tabla))
          (λ v u. Si-if Buena (v.1.size == n) _ _ (guardar_mensaje-Buena v.0 m h) (
            Si->>= Buena Buena (generar_particion_dinamica v.1 n m) _
              (generar_particion_dinamica-Buena v.1 n m h)
              (λ m' h'.
                Si->>= (λ k. Unit {0}) Buena (elegir n m'.tabla) _
                  (sin_condicion (elegir n m'.tabla)) (λ w u'. guardar_mensaje-Buena w.0 m' h'))))

    guardar_segun-Buena :
        (a : Ajuste) (n : ℕ) (m : Memoria) → Buena m → Deja Buena (guardar_segun a mensaje n m)
    unfolding guardar_segun
    guardar_segun-Buena ff n m h =
        o_fallo-Deja Buena _ (guardar_en-Buena get_particion_first_fit n m h)
    guardar_segun-Buena bf n m h =
        o_fallo-Deja Buena _ (guardar_en-Buena get_particion_best_fit n m h)
    guardar_segun-Buena otro_ajuste n m h = h

    guardar_bs-Buena : (n : ℕ) (m : Memoria) → Buena m → Si Buena (guardar_bs mensaje n m)
    unfolding guardar_bs
    guardar_bs-Buena n m h =
        Si->>= (λ k. Unit {0}) Buena (get_particion_bs n m.tabla) _
          (sin_condicion (get_particion_bs n m.tabla)) (λ v u. guardar_mensaje-Buena v.0 m h)

    partir_y_guardar-Buena :
        (f n : ℕ) (m : Memoria) → Buena m → Deja Buena (partir_y_guardar f mensaje n m)
    unfolding partir_y_guardar
    partir_y_guardar-Buena zero n m h = tt
    partir_y_guardar-Buena (suc f) n m h =
        elim (Bool-cases (hay_particiones_candidatas_bs n m.tabla)) [
          | inl e ↦ rw (Deja, e) (o_fallo-Deja Buena _ (guardar_bs-Buena n m h))
          | inr e ↦ elim (Option-cases (partir_primera n m)) [
            | inl k ↦ rw (Deja, e, k) tt
            | inr (m', k) ↦
                rw (Deja, e, k)
                  (partir_y_guardar-Buena f n m' (rw k at (partir_primera-Buena n m h)))
          ]
        ]

    buscar_bs-Buena :
        (c : PedidoBs) (f n : ℕ) (m : Memoria)
        → c.mensaje ≡ mensaje
        → Buena m
        → Deja Buena (buscar_bs c f n m)
    unfolding buscar_bs
    buscar_bs-Buena c zero n m e h = tt
    buscar_bs-Buena c (suc f) n m e h = elim (Bool-cases (leb n c.cant_elementos)) [
      | inr a ↦ rw (Deja, a) h
      | inl a ↦ elim (Bool-cases (hay_particiones_candidatas_bs c.tamanio m.tabla)) [
        | inl b ↦ rw (Deja, a, b, e) (o_fallo-Deja Buena _ (guardar_bs-Buena c.tamanio m h))
        | inr b ↦ elim (Bool-cases (hay_particiones_candidatas c.tamanio m.tabla)) [
          | inl d ↦
              rw (Deja, a, b, d, e) (partir_y_guardar-Buena (suc (total m.tabla)) c.tamanio m h)
          | inr d ↦ elim (Option-cases (algoritmo_liberacion_bs c.reemplazo m)) [
            | inl k ↦ rw (Deja, a, b, d, k) tt
            | inr (m', k) ↦
                rw (Deja, a, b, d, k)
                  (buscar_bs-Buena c f (suc n) m' e
                    (rw k at (algoritmo_liberacion_bs-Buena c.reemplazo m h)))
          ]
        ]
      ]
    ]

    buscar-Buena :
        (c : Pedido) (f n : ℕ) (m : Memoria)
        → c.mensaje ≡ mensaje
        → Buena m
        → Deja Buena (buscar c f n m)
    unfolding buscar
    buscar-Buena c zero n m e h = tt
    buscar-Buena c (suc f) n m e h = elim (Bool-cases (leb n c.cant_elementos)) [
      | inr a ↦ rw (Deja, a) h
      | inl a ↦ elim (Bool-cases (hay_particiones_candidatas c.tamanio m.tabla)) [
        | inl b ↦ rw (Deja, a, b, e) (guardar_segun-Buena c.ajuste c.tamanio m h)
        | inr b ↦
            let r = algoritmo_liberacion c.reemplazo m >>= compactar_si_toca c.frecuencia (suc n) in
            let hr : Si Buena r =
              Si->>= Buena Buena (algoritmo_liberacion c.reemplazo m) _
                (algoritmo_liberacion-Buena c.reemplazo m h)
                (λ m' h'. compactar_si_toca-Buena c.frecuencia (suc n) m' h') in
            elim (Option-cases r) [
              | inl k ↦ rw (Deja, a, b, k) tt
              | inr (m', k) ↦ rw (Deja, a, b, k) (buscar-Buena c f (suc n) m' e (rw k at hr))
            ]
      ]
    ]

    pub algoritmo_particion_dinamica-Deja :
        (n : ℕ) (frecuencia : ℤ) (reemplazo : Reemplazo) (ajuste : Ajuste) (m : Memoria)
        → Buena m
        → Deja Buena (algoritmo_particion_dinamica n mensaje frecuencia reemplazo ajuste m)
    unfolding algoritmo_particion_dinamica
    algoritmo_particion_dinamica-Deja n frecuencia reemplazo ajuste m h =
        buscar-Buena _ (length m.tabla + 2) 0 m refl h

    pub algoritmo_buddy_system-Deja :
        (n : ℕ) (reemplazo : Reemplazo) (m : Memoria)
        → Buena m
        → Deja Buena (algoritmo_buddy_system n mensaje reemplazo m)
    unfolding algoritmo_buddy_system
    algoritmo_buddy_system-Deja n reemplazo m h = buscar_bs-Buena _ (length m.tabla + 2) 0 m refl h
