-- ===== src/Particiones/Dinamica/Ronda.antt =====
-- One round of the loop of `algoritmoParticionDinamica`: what it stores, and what it frees.
use sistemas_operativos_utn.Base.{
  ℕ, zero, suc, ◌<◌, ◌≤◌, ◌≡◌, ◌≢◌, refl, ap, true, List, [], ◌∷◌, length, arith, some, Option,
  Bool-cases, inl, inr, ℤ, length-append, ◌>>=◌,
}
use sistemas_operativos_utn.Particiones.Tabla.{Particion, Memoria, Mensaje}
use sistemas_operativos_utn.Particiones.Forma.{Guardado, mensajes, EsValida}
use sistemas_operativos_utn.Particiones.Ajuste.{hay_particiones_candidatas}
use sistemas_operativos_utn.Particiones.Ajuste.Primero.{get_particion_first_fit-EsEleccion}
use sistemas_operativos_utn.Particiones.Ajuste.Optimo.{get_particion_best_fit-EsEleccion}
use sistemas_operativos_utn.Particiones.Liberacion.{Reemplazo, otro_reemplazo, algoritmo_liberacion}
use sistemas_operativos_utn.Particiones.Liberacion.Desalojo.{
  Desaloja, algoritmo_liberacion-Liberada,
}
use sistemas_operativos_utn.Particiones.Liberacion.Compactacion.{
  algoritmo_compactacion-Compactada, Compactada-EsValida,
}
use sistemas_operativos_utn.Particiones.Dinamica.{
  Ajuste, ff, bf, otro_ajuste, Resultado, guardado, guardar_segun, compactar_si_toca,
  toca_compactar,
}
use sistemas_operativos_utn.Particiones.Dinamica.Justa.{Inserta, guardado_como}
use sistemas_operativos_utn.Particiones.Dinamica.Guardar.{guardar_en-Guardada}

-- So many evictions, each of the least id at that time.
pub data Desalojos : ℕ → List Guardado → List Guardado → Type 0 where
  ninguno : {ms : List Guardado} → Desalojos zero ms ms
  otro :
      {k : ℕ} {ms ns rs : List Guardado}
      → Desaloja ms ns
      → Desalojos k ns rs
      → Desalojos (suc k) ms rs

-- What storing a message of `tamanio` bytes leaves: after some evictions, a valid table that holds
-- the messages left, in their order, with the new one among them.
pub record Almacena (capacidad : ℕ) (mensaje : Mensaje) (tamanio : ℕ) (m : Memoria) (r : Resultado)
    : Type 0 where
  pub m' : Memoria
  pub hecho : r ≡ guardado m'
  pub valida : EsValida capacidad m'.tabla
  pub desalojados : ℕ
  pub quedan : List Guardado
  pub desalojos : Desalojos desalojados (mensajes m.tabla) quedan
  pub inserta : Inserta (guardado_como mensaje tamanio m'.id_particion) quedan (mensajes m'.tabla)

pub length-mensajes-le : (ps : List Particion) → length (mensajes ps) ≤ length ps
length-mensajes-le [] = omega arith
length-mensajes-le (p ∷ ps) = ground (arith, length-mensajes-le ps)

pub length-Desaloja : {ms ns : List Guardado} → Desaloja ms ns → length ms ≡ suc (length ns)
length-Desaloja d = omega (
  arith,
  ap length d.partes,
  ap length d.resto,
  length-append d.antes (d.victima ∷ d.despues),
  length-append d.antes d.despues,
)

-- A valid table with no message is one free partition, the whole memory.
pub vacia-hay :
    (capacidad s : ℕ) (tabla : List Particion)
    → EsValida capacidad tabla
    → 0 < s
    → s ≤ capacidad
    → mensajes tabla ≡ []
    → hay_particiones_candidatas s tabla ≡ true
unfolding hay_particiones_candidatas
vacia-hay capacidad s [] v h k e = absurd (omega (arith, v.completa))
vacia-hay capacidad s (p ∷ []) v h k e = ground (arith, v.completa)
vacia-hay capacidad s (p ∷ (q ∷ ps)) v h k e = ground (arith, v.separadas)

pub guardar_segun-Guardada :
    (capacidad : ℕ) (mensaje : Mensaje) (tamanio : ℕ) (ajuste : Ajuste) (m : Memoria)
    → ajuste ≢ otro_ajuste
    → 0 < tamanio
    → EsValida capacidad m.tabla
    → hay_particiones_candidatas tamanio m.tabla ≡ true
    → Almacena capacidad mensaje tamanio m (guardar_segun ajuste mensaje tamanio m)
unfolding guardar_segun
guardar_segun-Guardada capacidad mensaje tamanio ff m a h v hay =
    let g =
      guardar_en-Guardada capacidad mensaje tamanio get_particion_first_fit-EsEleccion m h v hay in
    record {
      m' = g.m';
      hecho = rw g.hecho;
      valida = g.valida;
      desalojados = zero;
      quedan = mensajes m.tabla;
      desalojos = ninguno;
      inserta = g.inserta;
    }
guardar_segun-Guardada capacidad mensaje tamanio bf m a h v hay =
    let g =
      guardar_en-Guardada capacidad mensaje tamanio get_particion_best_fit-EsEleccion m h v hay in
    record {
      m' = g.m';
      hecho = rw g.hecho;
      valida = g.valida;
      desalojados = zero;
      quedan = mensajes m.tabla;
      desalojos = ninguno;
      inserta = g.inserta;
    }
guardar_segun-Guardada capacidad mensaje tamanio otro_ajuste m a h v hay = absurd (a refl)

-- One round that frees a partition, with its compaction.
pub record Ronda (capacidad : ℕ) (m : Memoria) (r : Option Memoria) : Type 0 where
  pub m' : Memoria
  pub hecho : r ≡ some m'
  pub valida : EsValida capacidad m'.tabla
  pub desaloja : Desaloja (mensajes m.tabla) (mensajes m'.tabla)

pub record Compacta (capacidad : ℕ) (m : Memoria) (r : Option Memoria) : Type 0 where
  pub m' : Memoria
  pub hecho : r ≡ some m'
  pub valida : EsValida capacidad m'.tabla
  pub iguales : mensajes m'.tabla ≡ mensajes m.tabla

compactar_si_toca-Compacta :
    (capacidad : ℕ) (frecuencia : ℤ) (liberadas : ℕ) (m : Memoria)
    → EsValida capacidad m.tabla
    → Compacta capacidad m (compactar_si_toca frecuencia liberadas m)
unfolding compactar_si_toca
compactar_si_toca-Compacta capacidad frecuencia liberadas m v =
    elim (Bool-cases (toca_compactar frecuencia liberadas)) [
      | inl e ↦
          let c =
            algoritmo_compactacion-Compactada capacidad m
              (record { seguidas = v.seguidas; completa = v.completa }) in
          record {
            m' = c.m';
            hecho = rw (e, c.hecho);
            valida = Compactada-EsValida c;
            iguales = c.iguales;
          }
      | inr e ↦ record { m' = m; hecho = rw e; valida = v; iguales = refl }
    ]

pub ronda_lem :
    (capacidad : ℕ) (reemplazo : Reemplazo) (frecuencia : ℤ) (liberadas : ℕ) (m : Memoria)
    → reemplazo ≢ otro_reemplazo
    → EsValida capacidad m.tabla
    → mensajes m.tabla ≢ []
    → Ronda capacidad m
        (algoritmo_liberacion reemplazo m >>= compactar_si_toca frecuencia liberadas)
ronda_lem capacidad reemplazo frecuencia liberadas m a v h =
    let l = algoritmo_liberacion-Liberada capacidad reemplazo m a v h in
    let c = compactar_si_toca-Compacta capacidad frecuencia liberadas l.m' l.valida in
    record {
      m' = c.m';
      hecho = rw l.hecho c.hecho;
      valida = c.valida;
      desaloja = rw c.iguales l.desaloja;
    }
