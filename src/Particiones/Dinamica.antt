-- ===== src/Particiones/Dinamica.antt =====
-- Broker/src/Particiones.c: `generarParticionDinamica`, `guardarMensaje` and
-- `algoritmoParticionDinamica`, by which a message is stored under dynamic partitions.
pub mod Justa
pub mod Guardar
pub mod Ronda
pub mod Pasos
pub mod Total
use sistemas_operativos_utn.Base.{
  ℕ, zero, suc, ◌+◌, ◌-◌, Bool, true, false, Option, none, some, List, ltb, leb, ◌==◌,
  if◌then◌else◌, length, get_elem?, set, remove_at, insert_at, ◌>>=◌, ℤ, pos, negsuc, es_igual,
}
use sistemas_operativos_utn.Particiones.Tabla.{
  Particion, Memoria, Mensaje, get_id_particion, crear_particion, obtener_posicion, ocupar,
}
use sistemas_operativos_utn.Particiones.Ajuste.{
  hay_particiones_candidatas, get_particion_first_fit, get_particion_best_fit,
}
use sistemas_operativos_utn.Particiones.Liberacion.{
  Reemplazo, algoritmo_liberacion, algoritmo_compactacion,
}

-- `algoritmoParticionLibre`; the last is any other number.
pub data Ajuste : Type 0 where
  ff bf otro_ajuste : Ajuste

-- What the function leaves. `fallo` is a read through NULL, `sin_lugar` and `no_implementado` the
-- two messages on the console, and `sin_combustible` is no outcome of the C code: the fuel of the
-- loop ran out.
pub data Resultado : Type 0 where
  guardado sin_lugar no_implementado : Memoria → Resultado
  fallo sin_combustible : Resultado

unfoldable pub generar_particion_dinamica : Particion → ℕ → Memoria → Option Memoria
unfolding crear_particion obtener_posicion
generar_particion_dinamica original size_msg m =
    let (primera, m1) = crear_particion m original.posicion_inicial size_msg false in
    let (segunda, m2) =
      crear_particion m1 (original.posicion_inicial + size_msg) (original.size - primera.size)
        false in
    do
      posicion ← obtener_posicion original m2.tabla
      some (record m2 {
        tabla =
            insert_at (insert_at (remove_at m2.tabla posicion) posicion segunda) posicion primera;
      })

-- The pointer is the index `i`.
unfoldable pub guardar_mensaje : Mensaje → ℕ → Memoria → Option Memoria
unfolding get_id_particion ocupar
guardar_mensaje mensaje i m = do
  p ← get_elem? m.tabla i
  (let (nuevo, m') = get_id_particion m in
      some (record m' { tabla = set m.tabla i (ocupar mensaje nuevo p) }))

-- The cases FF and BF, which differ in the choice.
unfoldable pub guardar_en :
    (ℕ → List Particion → Option (ℕ × Particion)) → Mensaje → ℕ → Memoria → Option Memoria
unfolding generar_particion_dinamica guardar_mensaje
guardar_en elegir mensaje tamanio m = do
  (i, p) ← elegir tamanio m.tabla
  if p.size == tamanio then guardar_mensaje mensaje i m else (do
    m' ← generar_particion_dinamica p tamanio m
    (j, q) ← elegir tamanio m'.tabla
    guardar_mensaje mensaje j m')

unfoldable pub o_fallo : Option Memoria → Resultado
o_fallo none = fallo
o_fallo (some m) = guardado m

unfoldable pub guardar_segun : Ajuste → Mensaje → ℕ → Memoria → Resultado
unfolding o_fallo guardar_en get_particion_first_fit get_particion_best_fit
guardar_segun ff mensaje tamanio m = o_fallo (guardar_en get_particion_first_fit mensaje tamanio m)
guardar_segun bf mensaje tamanio m = o_fallo (guardar_en get_particion_best_fit mensaje tamanio m)
guardar_segun otro_ajuste mensaje tamanio m = no_implementado m

-- `case -1`, `case 0 || 1` (whose value is 1) and `default` of the switch on the frequency.
unfoldable pub toca_compactar : ℤ → ℕ → Bool
toca_compactar (negsuc zero) liberadas = false
toca_compactar (pos (suc zero)) liberadas = true
toca_compactar frecuencia liberadas = es_igual liberadas frecuencia

unfoldable pub compactar_si_toca : ℤ → ℕ → Memoria → Option Memoria
unfolding toca_compactar algoritmo_compactacion
compactar_si_toca frecuencia liberadas m =
    if toca_compactar frecuencia liberadas then algoritmo_compactacion m else some m

unfoldable pub tamanio_pedido : ℕ → Mensaje → ℕ
tamanio_pedido size_min_particion mensaje =
    if ltb mensaje.size_msg size_min_particion then size_min_particion else mensaje.size_msg

-- What stays the same over the rounds of the loop of `algoritmoParticionDinamica`.
pub record Pedido : Type 0 where
  pub mensaje : Mensaje
  pub frecuencia : ℤ
  pub reemplazo : Reemplazo
  pub ajuste : Ajuste
  pub tamanio : ℕ
  pub cant_elementos : ℕ

-- The loop. The fuel counts the rounds; `liberadas` grows in every round that does not end it.
unfoldable pub buscar : Pedido → ℕ → ℕ → Memoria → Resultado
buscar c zero liberadas m = sin_combustible
buscar c (suc f) liberadas m = elim (leb liberadas c.cant_elementos) [
  | false ↦ sin_lugar m
  | true ↦ elim (hay_particiones_candidatas c.tamanio m.tabla) [
    | true ↦ guardar_segun c.ajuste c.mensaje c.tamanio m
    | false ↦
        elim (algoritmo_liberacion c.reemplazo m
          >>= compactar_si_toca c.frecuencia (suc liberadas)) [
            | none ↦ fallo
            | some m' ↦ buscar c f (suc liberadas) m'
          ]
  ]
]

unfoldable pub algoritmo_particion_dinamica :
    ℕ → Mensaje → ℤ → Reemplazo → Ajuste → Memoria → Resultado
unfolding buscar tamanio_pedido
algoritmo_particion_dinamica size_min_particion mensaje frecuencia reemplazo ajuste m =
    buscar
      (record {
        mensaje = mensaje;
        frecuencia = frecuencia;
        reemplazo = reemplazo;
        ajuste = ajuste;
        tamanio = tamanio_pedido size_min_particion mensaje;
        cant_elementos = length m.tabla;
      })
      (length m.tabla + 2) 0 m
