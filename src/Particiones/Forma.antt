-- ===== src/Particiones/Forma.antt =====
-- Broker/src/Particiones.c: what it means for the table of partitions to be well formed.
--
-- The partitions lie one behind the other over the whole memory, none is empty, and under dynamic
-- partitions no two free ones are neighbours. `mensajes` is the abstract view of a table: the
-- messages that it holds, in the order of the memory, with no positions.
pub mod Partes
use sistemas_operativos_utn.Base.{
  ℕ, suc, ◌+◌, ◌<◌, ◌≡◌, Bool, true, false, not, ◌&&◌, Option, none, some, List, [], ◌∷◌, ◌++◌,
  if◌then◌else◌, length,
}
use sistemas_operativos_utn.Sockets.Codigos.{OpCode}
use sistemas_operativos_utn.Particiones.Tabla.{Particion, Memoria}

abbrev pub total : List Particion → ℕ
total [] = 0
total (p ∷ ps) = p.size + total ps

-- The partitions follow one another from a position on, and `posicion_final` is the last byte.
abbrev pub Contigua : ℕ → List Particion → Type 0
Contigua i [] = Unit {0}
Contigua i (p ∷ ps) =
    (p.posicion_inicial ≡ i)
    × (suc p.posicion_final ≡ i + p.size)
    × (0 < p.size)
    × Contigua (i + p.size) ps

abbrev pub libre_al_inicio : List Particion → Bool
libre_al_inicio [] = false
libre_al_inicio (p ∷ ps) = not p.ocupada

abbrev pub libre_al_final : List Particion → Bool
libre_al_final [] = false
libre_al_final (p ∷ []) = not p.ocupada
libre_al_final (p ∷ (q ∷ ps)) = libre_al_final (q ∷ ps)

-- No two neighbours are free.
abbrev pub Separadas : List Particion → Type 0
Separadas [] = Unit {0}
Separadas (p ∷ ps) = ((not p.ocupada && libre_al_inicio ps) ≡ false) × Separadas ps

-- A message in memory: its code, its id, the bytes that it takes and the id of its partition, by
-- which the replacement orders the messages.
pub record Guardado : Type 0 where
  pub codigo_operacion : Option OpCode
  pub id_mensaje : ℕ
  pub size : ℕ
  pub id : ℕ

abbrev pub contenido : Particion → Guardado
contenido p = record {
  codigo_operacion = p.codigo_operacion;
  id_mensaje = p.id_mensaje;
  size = p.size;
  id = p.id;
}

abbrev pub mensajes : List Particion → List Guardado
mensajes [] = []
mensajes (p ∷ ps) = let resto = mensajes ps in if p.ocupada then contenido p ∷ resto else resto

-- A memory of `capacidad` bytes whose table is contiguous and covers it.
pub record EsContigua (capacidad : ℕ) (tabla : List Particion) : Type 0 where
  pub seguidas : Contigua 0 tabla
  pub completa : total tabla ≡ capacidad

-- The invariant of dynamic partitions.
pub record EsValida (capacidad : ℕ) (tabla : List Particion) : Type 0 where
  pub seguidas : Contigua 0 tabla
  pub completa : total tabla ≡ capacidad
  pub separadas : Separadas tabla

-- The entry `p` stands at the index `i` of the table.
pub record Lugar (tabla : List Particion) (i : ℕ) (p : Particion) : Type 0 where
  pub antes : List Particion
  pub despues : List Particion
  pub partes : tabla ≡ antes ++ (p ∷ despues)
  pub indice : i ≡ length antes
