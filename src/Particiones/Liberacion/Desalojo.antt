-- ===== src/Particiones/Liberacion/Desalojo.antt =====
-- `algoritmoLiberacion` removes one message, that of the least id, and keeps the invariant.
use sistemas_operativos_utn.Base.{
  ℕ, suc, ◌≤◌, ◌≡◌, ◌≢◌, refl, ap, ◌∙◌, true, false, List, [], ◌∷◌, ◌++◌, length, arith, some, none,
  Option, set-append, remove_at-append, insert_at-append,
}
use sistemas_operativos_utn.Particiones.Tabla.{Particion, Memoria, get_id_particion}
use sistemas_operativos_utn.Particiones.Forma.{
  Guardado, contenido, mensajes, Contigua, EsContigua, EsValida,
}
use sistemas_operativos_utn.Particiones.Forma.Partes.{
  mensajes-append, Contigua-split, Contigua-join, Separadas-split,
}
use sistemas_operativos_utn.Base.{Todas}
use sistemas_operativos_utn.Particiones.Punteros.{obtener_posicion-Lugar}
use sistemas_operativos_utn.Particiones.Consolidacion.{consolidar_particion}
use sistemas_operativos_utn.Particiones.Consolidacion.Validez.{
  consolidar_particion-EsValida, mensajes_libre, total_partes,
}
use sistemas_operativos_utn.Particiones.Liberacion.{
  Reemplazo, fifo, lru, otro_reemplazo, vaciar, soltar, liberar_victima, algoritmo_liberacion,
}
use sistemas_operativos_utn.Particiones.Ajuste.{algoritmo_fifo, algoritmo_lru}
use sistemas_operativos_utn.Particiones.Liberacion.Victima.{
  Victima, algoritmo_fifo-Victima, algoritmo_lru-Victima, algoritmo_fifo-none, algoritmo_lru-none,
}

-- One message is gone: one whose id is the least. The others stay in their order.
pub record Desaloja (ms ms' : List Guardado) : Type 0 where
  pub antes : List Guardado
  pub victima : Guardado
  pub despues : List Guardado
  pub partes : ms ≡ antes ++ (victima ∷ despues)
  pub resto : ms' ≡ antes ++ despues
  pub minima : Todas (λ (g : Guardado). victima.id ≤ g.id) ms

soltar_partes :
    (nuevo : ℕ) (xs : List Particion) (p : Particion) (ys : List Particion)
    → Contigua 0 (xs ++ (p ∷ ys))
    → soltar nuevo (length xs, p) (xs ++ (p ∷ ys)) ≡ some (xs ++ (vaciar nuevo p ∷ ys), length xs)
unfolding soltar
soltar_partes nuevo xs p ys c =
    let v : Particion = record p {
      codigo_operacion = none;
      ocupada = false;
      id_mensaje = 0;
      id = nuevo;
    } in
    ground (
      arith,
      obtener_posicion-Lugar c (record { antes = xs; despues = ys; partes = refl; indice = refl }),
      set-append xs (p ∷ ys) (length xs) 0 v,
      remove_at-append xs (v ∷ ys) (length xs) 0,
      insert_at-append xs ys (length xs) 0 v,
    )

vaciar-EsContigua :
    (capacidad nuevo : ℕ) (xs : List Particion) (p : Particion) (ys : List Particion)
    → EsContigua capacidad (xs ++ (p ∷ ys))
    → EsContigua capacidad (xs ++ (vaciar nuevo p ∷ ys))
unfolding vaciar
vaciar-EsContigua capacidad nuevo xs p ys v =
    let (cx, cp) = Contigua-split 0 xs (p ∷ ys) v.seguidas in
    record {
      seguidas = Contigua-join 0 _ xs (vaciar nuevo p ∷ ys) refl cx cp;
      completa =
          omega (arith, total_partes xs p ys, total_partes xs (vaciar nuevo p) ys, v.completa);
    }

-- What `algoritmoLiberacion` leaves.
pub record Liberada (capacidad : ℕ) (m : Memoria) (r : Option Memoria) : Type 0 where
  pub m' : Memoria
  pub hecho : r ≡ some m'
  pub valida : EsValida capacidad m'.tabla
  pub desaloja : Desaloja (mensajes m.tabla) (mensajes m'.tabla)

liberar_partes :
    (capacidad nuevo : ℕ) (m : Memoria) (xs : List Particion) (p : Particion) (ys : List Particion)
    → m.tabla ≡ xs ++ (p ∷ ys)
    → EsValida capacidad m.tabla
    → p.ocupada ≡ true
    → Todas (λ (g : Guardado). p.id ≤ g.id) (mensajes m.tabla)
    → Liberada capacidad m (liberar_victima consolidar_particion nuevo (some (length xs, p)) m)
unfolding liberar_victima
liberar_partes capacidad nuevo m xs p ys e v o least =
    let (sx, sp, sf) = Separadas-split xs (p ∷ ys) (rw e at v.separadas) in
    let contigua : EsContigua capacidad (xs ++ (p ∷ ys)) = record {
      seguidas = rw e at v.seguidas;
      completa = rw e at v.completa;
    } in
    let c =
      consolidar_particion-EsValida capacidad
        (record { antes = xs; despues = ys; partes = refl; indice = refl })
        (vaciar-EsContigua capacidad nuevo xs p ys contigua) (unfold vaciar in refl) sx sp.1 in
    record {
      m' = record m { tabla = c.tabla' };
      hecho = rw (e, soltar_partes nuevo xs p ys contigua.seguidas, c.hecho);
      valida = c.valida;
      desaloja = record {
        antes = mensajes xs;
        victima = contenido p;
        despues = mensajes ys;
        partes = ap mensajes e ∙ mensajes-append xs (p ∷ ys) ∙ rw o;
        resto = c.iguales ∙ mensajes_libre xs (vaciar nuevo p) ys (unfold vaciar in refl);
        minima = least;
      };
    }

liberar-Victima :
    (capacidad nuevo : ℕ) (m : Memoria) (r : Option (ℕ × Particion))
    → EsValida capacidad m.tabla
    → Victima m.tabla r
    → Liberada capacidad m (liberar_victima consolidar_particion nuevo r m)
liberar-Victima capacidad nuevo m r v w =
    rw (w.elegida, w.lugar.indice)
      (liberar_partes capacidad nuevo m w.lugar.antes w.p w.lugar.despues w.lugar.partes v w.ocupada
        w.minima)

-- On a valid table that holds a message, FIFO and LRU free one partition: `algoritmoLiberacion`
-- does not fault, the table stays valid (contiguous, covering the memory, free neighbours joined),
-- and its messages are the old ones in their order less one whose partition had the least id.
pub algoritmo_liberacion-Liberada :
    (capacidad : ℕ) (alg : Reemplazo) (m : Memoria)
    → alg ≢ otro_reemplazo
    → EsValida capacidad m.tabla
    → mensajes m.tabla ≢ []
    → Liberada capacidad m (algoritmo_liberacion alg m)
unfolding algoritmo_liberacion get_id_particion
algoritmo_liberacion-Liberada capacidad fifo m a v h =
    liberar-Victima capacidad 0 m (algoritmo_fifo m.tabla) v (algoritmo_fifo-Victima m.tabla h)
algoritmo_liberacion-Liberada capacidad lru m a v h =
    let l =
      liberar-Victima capacidad (suc m.id_particion)
        (record m { id_particion = suc m.id_particion }) (algoritmo_lru m.tabla) v
        (algoritmo_lru-Victima m.tabla h) in
    record { m' = l.m'; hecho = l.hecho; valida = l.valida; desaloja = l.desaloja }
algoritmo_liberacion-Liberada capacidad otro_reemplazo m a v h = absurd (a refl)

-- Where no partition is occupied, FIFO and LRU read through NULL.
pub algoritmo_liberacion-none :
    (alg : Reemplazo) (m : Memoria)
    → alg ≢ otro_reemplazo
    → mensajes m.tabla ≡ []
    → algoritmo_liberacion alg m ≡ none
unfolding algoritmo_liberacion get_id_particion
algoritmo_liberacion-none fifo m a h = rw (algoritmo_fifo-none m.tabla h)
algoritmo_liberacion-none lru m a h = rw (algoritmo_lru-none m.tabla h)
algoritmo_liberacion-none otro_reemplazo m a h = absurd (a refl)
