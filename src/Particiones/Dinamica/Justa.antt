-- ===== src/Particiones/Dinamica/Justa.antt =====
-- `guardarMensaje` on a free partition that has the size asked.
use sistemas_operativos_utn.Base.{
  ℕ, suc, ◌≡◌, refl, ap, ◌∙◌, false, List, ◌∷◌, ◌++◌, length, arith, some, Option, get_elem?-append,
  set-append,
}
use sistemas_operativos_utn.Particiones.Tabla.{Particion, Memoria, Mensaje, ocupar}
use sistemas_operativos_utn.Particiones.Forma.{Guardado, mensajes, EsContigua, EsValida, Separadas}
use sistemas_operativos_utn.Particiones.Forma.Partes.{
  mensajes-append, Contigua-split, Contigua-join, Separadas-join,
}
use sistemas_operativos_utn.Particiones.Consolidacion.Validez.{mensajes_libre, total_partes}
use sistemas_operativos_utn.Particiones.Dinamica.{guardar_mensaje}

-- One message more, the others in their order.
pub record Inserta (g : Guardado) (ms ms' : List Guardado) : Type 0 where
  pub antes : List Guardado
  pub despues : List Guardado
  pub resto : ms ≡ antes ++ despues
  pub partes : ms' ≡ antes ++ (g ∷ despues)

-- The message as it stands in memory, in a partition of `tamanio` bytes with the id `id`.
abbrev pub guardado_como : Mensaje → ℕ → ℕ → Guardado
guardado_como mensaje tamanio id = record {
  codigo_operacion = some mensaje.op_code;
  id_mensaje = mensaje.id_mensaje;
  size = tamanio;
  id = id;
}

pub guardar_mensaje_partes :
    (mensaje : Mensaje) (i : ℕ) (m : Memoria) (xs : List Particion) (p : Particion)
    (ys : List Particion)
    → m.tabla ≡ xs ++ (p ∷ ys)
    → i ≡ length xs
    → guardar_mensaje mensaje i m
      ≡ some (record {
        tabla = xs ++ (ocupar mensaje (suc m.id_particion) p ∷ ys);
        id_particion = suc m.id_particion;
      })
unfolding guardar_mensaje
guardar_mensaje_partes mensaje i m xs p ys e ei = rw (
  e,
  get_elem?-append xs (p ∷ ys) i 0 (omega (arith, ei)),
  set-append xs (p ∷ ys) i 0 (ocupar mensaje (suc m.id_particion) p) (omega (arith, ei)),
)

ocupar-EsValida :
    (capacidad nuevo : ℕ) (mensaje : Mensaje) (xs : List Particion) (p : Particion)
    (ys : List Particion)
    → EsContigua capacidad (xs ++ (p ∷ ys))
    → Separadas xs
    → Separadas ys
    → EsValida capacidad (xs ++ (ocupar mensaje nuevo p ∷ ys))
unfolding ocupar
ocupar-EsValida capacidad nuevo mensaje xs p ys v sx sy =
    let q = ocupar mensaje nuevo p in
    let (cx, cp) = Contigua-split 0 xs (p ∷ ys) v.seguidas in
    record {
      seguidas = Contigua-join 0 _ xs (q ∷ ys) refl cx cp;
      completa = omega (arith, total_partes xs p ys, total_partes xs q ys, v.completa);
      separadas = Separadas-join xs (q ∷ ys) sx (refl, sy) (ground arith);
    }

-- What the branch leaves: a valid table with the message in a partition of the size asked, whose
-- id is the last one given out.
pub record Guardada (capacidad : ℕ) (mensaje : Mensaje) (tamanio : ℕ) (m : Memoria)
    (r : Option Memoria) : Type 0 where
  pub m' : Memoria
  pub hecho : r ≡ some m'
  pub valida : EsValida capacidad m'.tabla
  pub inserta :
      Inserta (guardado_como mensaje tamanio m'.id_particion) (mensajes m.tabla) (mensajes m'.tabla)

-- The partition at hand has the size asked.
pub guardar_justa :
    (capacidad : ℕ) (mensaje : Mensaje) (tamanio i : ℕ) (m : Memoria) (xs : List Particion)
    (p : Particion) (ys : List Particion)
    → m.tabla ≡ xs ++ (p ∷ ys)
    → i ≡ length xs
    → p.ocupada ≡ false
    → p.size ≡ tamanio
    → EsContigua capacidad (xs ++ (p ∷ ys))
    → Separadas xs
    → Separadas ys
    → Guardada capacidad mensaje tamanio m (guardar_mensaje mensaje i m)
guardar_justa capacidad mensaje tamanio i m xs p ys e ei libre es v sx sy =
    let nuevo = suc m.id_particion in
    record {
      m' = record { tabla = xs ++ (ocupar mensaje nuevo p ∷ ys); id_particion = nuevo };
      hecho = guardar_mensaje_partes mensaje i m xs p ys e ei;
      valida = ocupar-EsValida capacidad nuevo mensaje xs p ys v sx sy;
      inserta = record {
        antes = mensajes xs;
        despues = mensajes ys;
        resto = ap mensajes e ∙ mensajes_libre xs p ys libre;
        partes =
            mensajes-append xs (ocupar mensaje nuevo p ∷ ys)
            ∙ unfold ocupar in
              ap (λ t. mensajes xs ++ (guardado_como mensaje t nuevo ∷ mensajes ys)) es;
      };
    }
