-- ===== src/Particiones/Dinamica/Total.antt =====
-- `algoritmoParticionDinamica` as a whole: it ends, it stores what fits in the memory, and it
-- faults on what does not.
use sistemas_operativos_utn.Base.{
  ℕ, zero, suc, ◌+◌, ◌<◌, ◌≤◌, ◌≡◌, ◌≢◌, ◌>>=◌, false, none, some, [], length, arith, Bool-cases,
  inl, inr, ℤ, le→leb,
}
use sistemas_operativos_utn.Particiones.Tabla.{Memoria, Mensaje}
use sistemas_operativos_utn.Particiones.Forma.{mensajes, EsValida}
use sistemas_operativos_utn.Particiones.Ajuste.{hay_particiones_candidatas}
use sistemas_operativos_utn.Particiones.Liberacion.{Reemplazo, otro_reemplazo, algoritmo_liberacion}
use sistemas_operativos_utn.Particiones.Liberacion.Desalojo.{Desaloja}
use sistemas_operativos_utn.Particiones.Dinamica.{
  Ajuste, otro_ajuste, Resultado, fallo, Pedido, buscar, tamanio_pedido,
  algoritmo_particion_dinamica, compactar_si_toca,
}
use sistemas_operativos_utn.Particiones.Dinamica.Ronda.{
  otro, Desalojos, Almacena, length-mensajes-le, length-Desaloja, vacia-hay, guardar_segun-Guardada,
  ronda_lem,
}
use sistemas_operativos_utn.Particiones.Dinamica.Pasos.{buscar_guarda, buscar_libera}

Almacena-tras :
    {capacidad tamanio : ℕ} {mensaje : Mensaje} {m n : Memoria} {r : Resultado}
    → Desaloja (mensajes m.tabla) (mensajes n.tabla)
    → Almacena capacidad mensaje tamanio n r
    → Almacena capacidad mensaje tamanio m r
Almacena-tras d a = record {
  m' = a.m';
  hecho = a.hecho;
  valida = a.valida;
  desalojados = suc a.desalojados;
  quedan = a.quedan;
  desalojos = otro d a.desalojos;
  inserta = a.inserta;
}

-- While there are messages to free the loop goes on, and an empty memory has room.
buscar-Almacena :
    (capacidad : ℕ) (c : Pedido) (f liberadas : ℕ) (m : Memoria)
    → c.reemplazo ≢ otro_reemplazo
    → c.ajuste ≢ otro_ajuste
    → 0 < c.tamanio
    → c.tamanio ≤ capacidad
    → length (mensajes m.tabla) + liberadas ≤ c.cant_elementos
    → length (mensajes m.tabla) < f
    → EsValida capacidad m.tabla
    → Almacena capacidad c.mensaje c.tamanio m (buscar c f liberadas m)
buscar-Almacena capacidad c zero liberadas m ar aj h k n l v = absurd (omega arith)
buscar-Almacena capacidad c (suc f) liberadas m ar aj h k n l v =
    let e = le→leb liberadas c.cant_elementos (omega arith) in
    elim (Bool-cases (hay_particiones_candidatas c.tamanio m.tabla)) [
      | inl hay ↦
          rw (buscar_guarda c f liberadas m e hay)
            (guardar_segun-Guardada capacidad c.mensaje c.tamanio c.ajuste m aj h v hay)
      | inr falta ↦
          let r =
            ronda_lem capacidad c.reemplazo c.frecuencia (suc liberadas) m ar v
              (λ z. cc (falta, vacia-hay capacidad c.tamanio m.tabla v h k z)) in
          rw (buscar_libera c f liberadas m r.m' e falta r.hecho) (
            Almacena-tras r.desaloja (
              buscar-Almacena capacidad c f (suc liberadas) r.m' ar aj h k
                (omega (arith, length-Desaloja r.desaloja))
                (omega (arith, length-Desaloja r.desaloja)) r.valida))
    ]

-- On a valid memory, with FIFO or LRU and First Fit or Best Fit, whatever the frequency of the
-- compaction, a message whose request is positive and no larger than the memory is stored: the
-- call returns, without a fault and within the fuel; the table stays valid; the messages are the
-- old ones in their order, less some evicted ones, each of the least id when it was evicted, with
-- the new one among them, in a partition of exactly the size asked and with the newest id.
pub algoritmo_particion_dinamica-Almacena :
    (capacidad size_min_particion : ℕ) (mensaje : Mensaje) (frecuencia : ℤ) (reemplazo : Reemplazo)
    (ajuste : Ajuste) (m : Memoria)
    → reemplazo ≢ otro_reemplazo
    → ajuste ≢ otro_ajuste
    → 0 < tamanio_pedido size_min_particion mensaje
    → tamanio_pedido size_min_particion mensaje ≤ capacidad
    → EsValida capacidad m.tabla
    → Almacena capacidad mensaje
        (tamanio_pedido size_min_particion mensaje)
        m
        (algoritmo_particion_dinamica size_min_particion mensaje frecuencia reemplazo ajuste m)
unfolding algoritmo_particion_dinamica
algoritmo_particion_dinamica-Almacena capacidad size_min_particion mensaje frecuencia reemplazo
      ajuste m ar aj h k v =
    buscar-Almacena capacidad _ (length m.tabla + 2) 0 m ar aj h k
      (omega (arith, length-mensajes-le m.tabla)) (omega (arith, length-mensajes-le m.tabla)) v

-- The rounds of the loop from a memory and a count of the freed partitions to another memory: in
-- each no partition is large enough, and a victim is freed.
pub data Rondas (c : Pedido) : ℕ → Memoria → Memoria → Type 0 where
  llego : {liberadas : ℕ} {m : Memoria} → Rondas c liberadas m m
  ronda :
      {liberadas : ℕ} {m m' final : Memoria}
      → hay_particiones_candidatas c.tamanio m.tabla ≡ false
      → (algoritmo_liberacion c.reemplazo m >>= compactar_si_toca c.frecuencia (suc liberadas))
        ≡ some m'
      → Rondas c (suc liberadas) m' final
      → Rondas c liberadas m final

-- A call that freed every message, one in each round, and then asked for another victim.
pub record Agotada (c : Pedido) (liberadas : ℕ) (m : Memoria) (r : Resultado) : Type 0 where
  pub final : Memoria
  pub rondas : Rondas c liberadas m final
  pub desalojos : Desalojos (length (mensajes m.tabla)) (mensajes m.tabla) []
  pub vacia : mensajes final.tabla ≡ []
  pub sin_victima : algoritmo_liberacion c.reemplazo final ≡ none
  pub falla : r ≡ fallo

-- What the call looks for, with the entries of the table as the bound of its rounds.
abbrev pub pedido_de : ℕ → Mensaje → ℤ → Reemplazo → Ajuste → Memoria → Pedido
pedido_de size_min_particion mensaje frecuencia reemplazo ajuste m = record {
  mensaje = mensaje;
  frecuencia = frecuencia;
  reemplazo = reemplazo;
  ajuste = ajuste;
  tamanio = tamanio_pedido size_min_particion mensaje;
  cant_elementos = length m.tabla;
}
