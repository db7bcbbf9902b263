-- ===== src/Particiones/Buddy.antt =====
-- Broker/src/Particiones.c: the buddy system, by which a message is stored in a partition whose
-- size is a power of two (`algoritmoBuddySystem` and what it calls).
pub mod Potencias
pub mod Partir
pub mod Guardar
pub mod Bucle
use sistemas_operativos_utn.Base.{
  ℕ, zero, suc, ◌+◌, ◌*◌, ◌/◌, ◌%◌, ◌^◌, ◌&&◌, not, Bool, true, false, Option, none, some, List,
  ltb, leb, ◌==◌, if◌then◌else◌, length, get_elem?, set, remove_at, insert_at, ◌>>=◌,
}
use sistemas_operativos_utn.Particiones.Tabla.{
  Particion, Memoria, Mensaje, get_id_particion, crear_particion, obtener_posicion, filtrar,
  particion_candidata,
}
use sistemas_operativos_utn.Particiones.Forma.{total}
use sistemas_operativos_utn.Particiones.Ajuste.{
  primera, hay_particiones_candidatas, get_particion_first_fit,
}
use sistemas_operativos_utn.Particiones.Liberacion.{Reemplazo, liberar_con}
use sistemas_operativos_utn.Particiones.Dinamica.{
  Resultado, guardado, sin_lugar, fallo, sin_combustible, guardar_mensaje, o_fallo,
}

-- `a < b` of two `int32_t`, each written by its remainder by 2 ^ 32: from 2 ^ 31 on they are the
-- negative numbers.
unfoldable pub menor_con_signo : ℕ → ℕ → Bool
menor_con_signo a b = ltb ((a + 2 ^ 31) % 2 ^ 32) ((b + 2 ^ 31) % 2 ^ 32)

-- The loop of `tamanioMinimo`, whose power is an `int32_t`. Up to 2 ^ 30 the power at least grows by
-- two in a round, so that the message's size is fuel enough. For a larger size the power wraps
-- around to a negative number and then to 0, the loop of the code does not end, and the value here
-- stands for nothing.
unfoldable pub tamanio_minimo_desde : ℕ → ℕ → ℕ → ℕ
unfolding menor_con_signo
tamanio_minimo_desde zero size_msg potencia_de_dos = potencia_de_dos
tamanio_minimo_desde (suc f) size_msg potencia_de_dos =
    let siguiente = tamanio_minimo_desde f size_msg (potencia_de_dos * 2 % 2 ^ 32) in
    if menor_con_signo potencia_de_dos size_msg then siguiente else potencia_de_dos

unfoldable pub tamanio_minimo : ℕ → ℕ
unfolding tamanio_minimo_desde
tamanio_minimo size_msg = if size_msg == 1 then 1 else tamanio_minimo_desde size_msg size_msg 2

-- `crearParticion` takes an id from the counter, and each half then takes another.
unfoldable pub generar_particion_bs : Particion → Memoria → Option Memoria
unfolding crear_particion get_id_particion obtener_posicion
generar_particion_bs inicial m =
    let half_size = inicial.size / 2 in
    let (izquierda, m1) = crear_particion m inicial.posicion_inicial half_size false in
    let (id_izquierda, m2) = get_id_particion m1 in
    let (derecha, m3) =
      crear_particion m2 (inicial.posicion_inicial + inicial.size / 2) half_size false in
    let (id_derecha, m4) = get_id_particion m3 in
    do
      posicion ← obtener_posicion inicial m4.tabla
      some (record m4 {
        tabla =
            insert_at
              (insert_at (remove_at m4.tabla posicion) posicion
                (record derecha { id = id_derecha }))
              posicion (record izquierda { id = id_izquierda });
      })

unfoldable pub particion_candidata_bs : ℕ → Particion → Bool
particion_candidata_bs tamanio_minimo p = not p.ocupada && tamanio_minimo == p.size

unfoldable pub hay_particiones_candidatas_bs : ℕ → List Particion → Bool
unfolding filtrar particion_candidata_bs
hay_particiones_candidatas_bs size_msg tabla =
    not (length (filtrar (particion_candidata_bs size_msg) 0 tabla) == 0)

-- The filter of `getParticionBS` is `particionCandidata`, which takes larger partitions too.
unfoldable pub get_particion_bs : ℕ → List Particion → Option (ℕ × Particion)
unfolding primera filtrar particion_candidata
get_particion_bs tamanio_minimo tabla =
    primera (filtrar (particion_candidata tamanio_minimo) 0 tabla)

-- `a ^ b` of C on numbers of so many bits.
unfoldable pub o_exclusivo : ℕ → ℕ → ℕ → ℕ
o_exclusivo zero a b = 0
o_exclusivo (suc bits) a b = (a + b) % 2 + 2 * o_exclusivo bits (a / 2) (b / 2)

unfoldable pub son_buddies : Particion → Particion → Bool
unfolding o_exclusivo
son_buddies p a =
    p.size == a.size
    && p.posicion_inicial == o_exclusivo 31 a.posicion_inicial p.size
    && a.posicion_inicial == o_exclusivo 31 p.posicion_inicial p.size

-- The first half of `consolidarParticionBS`: the partition before, and the index after it.
unfoldable pub consolidar_izquierda : List Particion → ℕ → Option (List Particion × ℕ)
unfolding son_buddies
consolidar_izquierda tabla zero = some (tabla, zero)
consolidar_izquierda tabla (suc anterior) = do
  p ← get_elem? tabla (suc anterior)
  a ← get_elem? tabla anterior
  (let unida = record p { posicion_inicial = a.posicion_inicial; size = p.size + a.size } in
      if not a.ocupada && son_buddies p a
      then some (
        insert_at (remove_at (remove_at (set tabla (suc anterior) unida) (suc anterior)) anterior)
            anterior unida,
        anterior,
      )
      else some (tabla, suc anterior))

-- `a == b - c` on integers is written `a + c == b`.
unfoldable pub es_buddy_derecha : Particion → Particion → Bool
unfolding o_exclusivo
es_buddy_derecha p d =
    p.size == d.size
    && d.posicion_inicial == o_exclusivo 31 p.posicion_inicial p.size
    && p.posicion_inicial + p.size == d.posicion_inicial

-- The second half: the partition after.
unfoldable pub consolidar_derecha : List Particion → ℕ → Option (List Particion)
unfolding es_buddy_derecha
consolidar_derecha tabla posicion = if suc posicion == length tabla then some tabla else (do
  p ← get_elem? tabla posicion
  d ← get_elem? tabla (suc posicion)
  (let unida = record p { posicion_final = d.posicion_final; size = p.size + d.size } in
      if not d.ocupada && es_buddy_derecha p d
      then some (
          insert_at (remove_at (remove_at (set tabla posicion unida) (suc posicion)) posicion)
            posicion unida)
      else some tabla))

unfoldable pub consolidar_particion_bs : List Particion → ℕ → Option (List Particion)
unfolding consolidar_izquierda consolidar_derecha
consolidar_particion_bs tabla posicion = do
  (tabla', posicion') ← consolidar_izquierda tabla posicion
  consolidar_derecha tabla' posicion'

unfoldable pub algoritmo_liberacion_bs : Reemplazo → Memoria → Option Memoria
unfolding liberar_con consolidar_particion_bs
algoritmo_liberacion_bs = liberar_con consolidar_particion_bs

unfoldable pub guardar_bs : Mensaje → ℕ → Memoria → Option Memoria
unfolding get_particion_bs guardar_mensaje
guardar_bs mensaje tamanio m = do
  (i, p) ← get_particion_bs tamanio m.tabla
  guardar_mensaje mensaje i m

unfoldable pub partir_primera : ℕ → Memoria → Option Memoria
unfolding get_particion_first_fit generar_particion_bs
partir_primera tamanio m = do
  (i, p) ← get_particion_first_fit tamanio m.tabla
  generar_particion_bs p m

-- The inner loop of `algoritmoBuddySystem` and the store behind it. The fuel counts the rounds.
unfoldable pub partir_y_guardar : ℕ → Mensaje → ℕ → Memoria → Resultado
unfolding hay_particiones_candidatas_bs guardar_bs partir_primera o_fallo
partir_y_guardar zero mensaje tamanio m = sin_combustible
partir_y_guardar (suc f) mensaje tamanio m = elim (hay_particiones_candidatas_bs tamanio m.tabla) [
  | true ↦ o_fallo (guardar_bs mensaje tamanio m)
  | false ↦ elim (partir_primera tamanio m) [
    | none ↦ fallo
    | some m' ↦ partir_y_guardar f mensaje tamanio m'
  ]
]

-- What stays the same over the rounds of the outer loop.
pub record PedidoBs : Type 0 where
  pub mensaje : Mensaje
  pub reemplazo : Reemplazo
  pub tamanio : ℕ
  pub cant_elementos : ℕ

-- The outer loop.
unfoldable pub buscar_bs : PedidoBs → ℕ → ℕ → Memoria → Resultado
buscar_bs c zero liberadas m = sin_combustible
buscar_bs c (suc f) liberadas m = elim (leb liberadas c.cant_elementos) [
  | false ↦ sin_lugar m
  | true ↦ elim (hay_particiones_candidatas_bs c.tamanio m.tabla) [
    | true ↦ o_fallo (guardar_bs c.mensaje c.tamanio m)
    | false ↦ elim (hay_particiones_candidatas c.tamanio m.tabla) [
      | true ↦ partir_y_guardar (suc (total m.tabla)) c.mensaje c.tamanio m
      | false ↦ elim (algoritmo_liberacion_bs c.reemplazo m) [
        | none ↦ fallo
        | some m' ↦ buscar_bs c f (suc liberadas) m'
      ]
    ]
  ]
]

unfoldable pub tamanio_pedido_bs : ℕ → ℕ → ℕ
unfolding tamanio_minimo
tamanio_pedido_bs size_min_particion size_msg =
    let tamanio = tamanio_minimo size_msg in
    if ltb tamanio size_min_particion then size_min_particion else tamanio

unfoldable pub algoritmo_buddy_system : ℕ → Mensaje → Reemplazo → Memoria → Resultado
unfolding buscar_bs tamanio_pedido_bs
algoritmo_buddy_system size_min_particion mensaje reemplazo m =
    buscar_bs
      (record {
        mensaje = mensaje;
        reemplazo = reemplazo;
        tamanio = tamanio_pedido_bs size_min_particion mensaje.size_msg;
        cant_elementos = length m.tabla;
      })
      (length m.tabla + 2) 0 m
