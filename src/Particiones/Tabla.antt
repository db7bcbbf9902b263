-- ===== src/Particiones/Tabla.antt =====
-- Broker/src/Particiones.c and Particiones.h: the table of partitions of the Broker's memory, and
-- the operations on one of its entries.
--
-- A `t_particion*` is the index of the entry in the table; where the program reads the fields
-- behind a pointer, the entry goes with the index. `none` as the value of a step is the read
-- through a NULL pointer, or an index -1 handed to the list library. Numbers are those of
-- `int32_t` variables that never go below 0; the code -1 of a free partition is `none`.
use sistemas_operativos_utn.Base.{
  ℕ, suc, ◌+◌, ◌-◌, Bool, true, false, not, ◌&&◌, Option, none, some, List, [], ◌∷◌, leb, ◌==◌,
  if◌then◌else◌,
}
use sistemas_operativos_utn.Sockets.Codigos.{OpCode}

pub record Particion : Type 0 where
  pub codigo_operacion : Option OpCode
  pub posicion_inicial : ℕ
  pub posicion_final : ℕ
  pub size : ℕ
  pub ocupada : Bool
  pub id_mensaje : ℕ
  pub id : ℕ

-- The globals `tabla_particiones` and `id_particion`.
pub record Memoria : Type 0 where
  pub tabla : List Particion
  pub id_particion : ℕ

-- The fields of an `info_mensaje` that the memory reads.
pub record Mensaje : Type 0 where
  pub op_code : OpCode
  pub id_mensaje : ℕ
  pub size_msg : ℕ

-- `get_id_particion`: the counter is incremented, and its new value is the id.
unfoldable pub get_id_particion : Memoria → ℕ × Memoria
get_id_particion m = (suc m.id_particion, record m { id_particion = suc m.id_particion })

-- `crearParticion`: the flag that it takes is not read.
unfoldable pub crear_particion : Memoria → ℕ → ℕ → Bool → Particion × Memoria
unfolding get_id_particion
crear_particion m inicio size ocupada =
    let (nuevo, m') = get_id_particion m in
    (
      record {
        codigo_operacion = none;
        posicion_inicial = inicio;
        posicion_final = inicio + size - 1;
        size = size;
        ocupada = false;
        id_mensaje = 0;
        id = nuevo;
      },
      m',
    )

unfoldable pub particion_candidata : ℕ → Particion → Bool
particion_candidata size_mensaje p = not p.ocupada && leb size_mensaje p.size

unfoldable pub particion_candidata_victima : Particion → Bool
particion_candidata_victima p = p.ocupada

-- `list_filter`: the entries that pass, each with its index in the table, from index `i` on.
unfoldable pub filtrar : (Particion → Bool) → ℕ → List Particion → List (ℕ × Particion)
filtrar test i [] = []
filtrar test i (p ∷ ps) =
    let resto = filtrar test (suc i) ps in if test p then (i, p) ∷ resto else resto

-- The loop of `obtenerPosicion` from index `i` on; -1 is `none`.
unfoldable pub obtener_posicion_desde : Particion → ℕ → List Particion → Option ℕ
obtener_posicion_desde p i [] = none
obtener_posicion_desde p i (q ∷ qs) =
    if p.id == q.id && p.posicion_inicial == q.posicion_inicial
    then some i
    else obtener_posicion_desde p (suc i) qs

unfoldable pub obtener_posicion : Particion → List Particion → Option ℕ
unfolding obtener_posicion_desde
obtener_posicion p tabla = obtener_posicion_desde p 0 tabla

-- The body of `guardarMensaje` on the partition; the id is taken from the counter.
unfoldable pub ocupar : Mensaje → ℕ → Particion → Particion
ocupar mensaje nuevo p = record p {
  codigo_operacion = some mensaje.op_code;
  ocupada = true;
  id_mensaje = mensaje.id_mensaje;
  id = nuevo;
}

-- The loop of `actualizarID`: every entry of the message takes an id of its own.
unfoldable pub actualizar_ids : ℕ → ℕ → List Particion → List Particion × ℕ
actualizar_ids id_mensaje contador [] = ([], contador)
actualizar_ids id_mensaje contador (p ∷ ps) =
    let toca = p.id_mensaje == id_mensaje in
    let contador' = if toca then suc contador else contador in
    let (ps', ultimo) = actualizar_ids id_mensaje contador' ps in
    ((if toca then record p { id = contador' } else p) ∷ ps', ultimo)

unfoldable pub actualizar_id : ℕ → Memoria → Memoria
unfolding actualizar_ids
actualizar_id id_mensaje m =
    let (tabla', ultimo) = actualizar_ids id_mensaje m.id_particion m.tabla in
    record { tabla = tabla'; id_particion = ultimo }
