-- ===== src/Team/Marcha.antt =====
-- team/src/team.c and `avanzar` of utils.c: how a trainer walks to its pokemon, to the end or for a
-- quantum. Reading through a NULL `pokemon_destino` is `none` or `sin_destino`. What follows on
-- arrival (`capturar_pokemon`), the semaphores and the pauses are left out.
pub mod Llegada
pub mod Turnos
use sistemas_operativos_utn.Base.{
  ℕ, zero, suc, ◌+◌, ◌-◌, Bool, true, false, ◌&&◌, Option, none, some, List, [], ◌∷◌, ◌++◌, ltb,
  ◌==◌, if◌then◌else◌, ℤ, pos, negsuc, ◌>>=◌,
}
use sistemas_operativos_utn.Universo.{Posicion}
use sistemas_operativos_utn.Team.Entrenador.{PokemonTeam, Entrenador, EstadoCode, ready}
use sistemas_operativos_utn.Team.Cercania.{get_distancia_entre_puntos}

-- The sum of a coordinate and a displacement. `ejecuta` steps down only towards a smaller
-- coordinate, so that none goes below 0.
abbrev pub desplazar : ℕ → ℤ → ℕ
desplazar x (pos n) = x + n
desplazar x (negsuc n) = x - suc n

unfoldable pub avanzar : Posicion → ℤ → ℤ → Posicion
avanzar posicion pos_x pos_y = record {
  x = desplazar posicion.x pos_x;
  y = desplazar posicion.y pos_y;
}

-- One step, first along x and then along y.
unfoldable pub ejecuta : Entrenador → Option Entrenador
unfolding avanzar
ejecuta e = do
  d ← e.pokemon_destino
  (let e' = record e { ciclos = suc e.ciclos; cantidad_ejecutada = suc e.cantidad_ejecutada } in
      if ltb d.posicion.x e.posicion.x
      then some (record e' { posicion = avanzar e.posicion (negsuc 0) (pos 0) })
      else if ltb e.posicion.x d.posicion.x
      then some (record e' { posicion = avanzar e.posicion (pos 1) (pos 0) })
      else if ltb d.posicion.y e.posicion.y
      then some (record e' { posicion = avanzar e.posicion (pos 0) (negsuc 0) })
      else if ltb e.posicion.y d.posicion.y
      then some (record e' { posicion = avanzar e.posicion (pos 0) (pos 1) })
      else some e')

unfoldable pub en_destino : Posicion → Posicion → Bool
en_destino a b = a.x == b.x && a.y == b.y

-- How a walk ends. `sin_combustible` is no outcome of the C code.
pub data Marcha : Type 0 where
  llega : Entrenador → Marcha
  sin_destino sin_combustible : Marcha

-- The loop of `ejecutar_fifo`. The fuel counts the rounds.
unfoldable pub caminar : ℕ → Entrenador → Marcha
caminar zero e = sin_combustible
caminar (suc f) e = elim e.pokemon_destino [
  | none ↦ sin_destino
  | some d ↦ elim (en_destino e.posicion d.posicion) [
    | true ↦ llega e
    | false ↦ elim (ejecuta e) [ none ↦ sin_destino | some e' ↦ caminar f e' ]
  ]
]

unfoldable pub ejecutar_fifo : Entrenador → Marcha
unfolding caminar get_distancia_entre_puntos
ejecutar_fifo e = elim e.pokemon_destino [
  | none ↦ sin_destino
  | some d ↦ caminar (suc (get_distancia_entre_puntos e.posicion d.posicion)) e
]

-- The loop of `ejecutar_rr`.
unfoldable pub mover_veces : ℕ → Entrenador → Option Entrenador
unfolding ejecuta
mover_veces zero e = some e
mover_veces (suc n) e = do e' ← ejecuta e; mover_veces n e'

-- The end of a turn: the quantum is over and the trainer is the last of the queue, or it arrives.
pub data Turno : Type 0 where
  vuelve_a_ready : Entrenador → List Entrenador → Turno
  captura : Entrenador → Turno

unfoldable pub fin_de_turno : List Entrenador → PokemonTeam → Entrenador → Turno
unfolding get_distancia_entre_puntos
fin_de_turno cola_ready d e =
    let e' = record e { estado = ready } in
    if ltb 0 (get_distancia_entre_puntos e.posicion d.posicion)
    then vuelve_a_ready e' (cola_ready ++ (e' ∷ []))
    else captura e

unfoldable pub ejecutar_rr : ℕ → List Entrenador → Entrenador → Option Turno
unfolding mover_veces fin_de_turno get_distancia_entre_puntos
ejecutar_rr quantum cola_ready e = do
  d ← e.pokemon_destino
  (let cantidad_a_moverse = get_distancia_entre_puntos e.posicion d.posicion in
      do
        e' ← mover_veces (if ltb cantidad_a_moverse quantum then cantidad_a_moverse else quantum) e
        some (fin_de_turno cola_ready d e'))
