-- ===== src/Team/Marcha/Turnos.antt =====
-- team/src/team.c: what a trainer has done at the end of `ejecutar_fifo` and `ejecutar_rr`.
use sistemas_operativos_utn.Base.{
  ℕ, suc, ◌≡◌, ◌≤◌, ◌<◌, refl, ◌∙◌, true, false, Option, some, List, [], ◌∷◌, ◌++◌, arith, ltb,
  Bool-cases, inl, inr, ◌⊎◌, if◌then◌else◌,
}
use sistemas_operativos_utn.Team.Entrenador.{PokemonTeam, Entrenador, ready}
use sistemas_operativos_utn.Team.Cercania.{get_distancia_entre_puntos}
use sistemas_operativos_utn.Team.Marcha.{
  Marcha, llega, caminar, ejecutar_fifo, mover_veces, Turno, vuelve_a_ready, captura, fin_de_turno,
  ejecutar_rr,
}
use sistemas_operativos_utn.Team.Marcha.Llegada.{Movido, caminar-Camino, mover_veces-Camino}

-- The walk ends at the place of the pokemon, after as many steps as the distance.
pub record Llegado (d : PokemonTeam) (e : Entrenador) (r : Marcha) : Type 0 where
  pub e' : Entrenador
  pub hecho : r ≡ llega e'
  pub en_x : e'.posicion.x ≡ d.posicion.x
  pub en_y : e'.posicion.y ≡ d.posicion.y
  pub movido : Movido (get_distancia_entre_puntos e.posicion d.posicion) d e e'

ejecutar_fifo_lem :
    (d : PokemonTeam) (e : Entrenador)
    → e.pokemon_destino ≡ some d
    → ejecutar_fifo e ≡ caminar (suc (get_distancia_entre_puntos e.posicion d.posicion)) e
unfolding ejecutar_fifo
ejecutar_fifo_lem d e h = ground arith

ejecutar_rr_lem :
    (n quantum : ℕ) (cola_ready : List Entrenador) (d : PokemonTeam) (e e' : Entrenador) (t : Turno)
    → e.pokemon_destino ≡ some d
    → (let lejos = get_distancia_entre_puntos e.posicion d.posicion in
        (if ltb lejos quantum then lejos else quantum) ≡ n)
    → mover_veces n e ≡ some e'
    → fin_de_turno cola_ready d e' ≡ t
    → ejecutar_rr quantum cola_ready e ≡ some t
unfolding ejecutar_rr
ejecutar_rr_lem n quantum cola_ready d e e' t h en r et = ground arith

-- A trainer with a pokemon to go for arrives: the loop of `ejecutar_fifo` ends at the pokemon's
-- place, and its count of steps has grown by the distance.
pub ejecutar_fifo-Llegado :
    (d : PokemonTeam) (e : Entrenador) → e.pokemon_destino ≡ some d → Llegado d e (ejecutar_fifo e)
unfolding get_distancia_entre_puntos
ejecutar_fifo-Llegado d e h =
    let c = caminar-Camino (get_distancia_entre_puntos e.posicion d.posicion) d e h refl in
    record {
      e' = c.e';
      hecho = ejecutar_fifo_lem d e h ∙ c.llegado;
      en_x = omega (arith, c.movido.mas_cerca);
      en_y = omega (arith, c.movido.mas_cerca);
      movido = c.movido;
    }

-- A turn that is not the last: the trainer is one quantum nearer, ready, and last in the queue.
pub record Vuelve (quantum : ℕ) (cola_ready : List Entrenador) (d : PokemonTeam) (e : Entrenador)
    (r : Option Turno) : Type 0 where
  pub e' : Entrenador
  pub lejos : quantum < get_distancia_entre_puntos e.posicion d.posicion
  pub hecho : r ≡ some (vuelve_a_ready e' (cola_ready ++ (e' ∷ [])))
  pub listo : e'.estado ≡ ready
  pub movido : Movido quantum d e e'

-- The last turn: the trainer is at the place of its pokemon.
pub record Captura (quantum : ℕ) (d : PokemonTeam) (e : Entrenador) (r : Option Turno)
    : Type 0 where
  pub e' : Entrenador
  pub cerca : get_distancia_entre_puntos e.posicion d.posicion ≤ quantum
  pub hecho : r ≡ some (captura e')
  pub movido : Movido (get_distancia_entre_puntos e.posicion d.posicion) d e e'

fin_de_turno-lejos :
    (cola_ready : List Entrenador) (d : PokemonTeam) (e : Entrenador)
    → ltb 0 (get_distancia_entre_puntos e.posicion d.posicion) ≡ true
    → fin_de_turno cola_ready d e
      ≡ vuelve_a_ready
          (record e { estado = ready })
          (cola_ready ++ (record e { estado = ready } ∷ []))
unfolding fin_de_turno
fin_de_turno-lejos cola_ready d e h = rw h

fin_de_turno-cerca :
    (cola_ready : List Entrenador) (d : PokemonTeam) (e : Entrenador)
    → ltb 0 (get_distancia_entre_puntos e.posicion d.posicion) ≡ false
    → fin_de_turno cola_ready d e ≡ captura e
unfolding fin_de_turno
fin_de_turno-cerca cola_ready d e h = rw h

-- A turn of `ejecutar_rr` either ends at the pokemon's place, where that is within the quantum, or
-- takes exactly the quantum of steps and puts the trainer, ready, at the end of the queue.
pub ejecutar_rr-turno :
    (quantum : ℕ) (cola_ready : List Entrenador) (d : PokemonTeam) (e : Entrenador)
    → e.pokemon_destino ≡ some d
    → Captura quantum d e (ejecutar_rr quantum cola_ready e)
      ⊎ Vuelve quantum cola_ready d e (ejecutar_rr quantum cola_ready e)
ejecutar_rr-turno quantum cola_ready d e h =
    let lejos = get_distancia_entre_puntos e.posicion d.posicion in
    elim (Bool-cases (ltb quantum lejos)) [
      | inl k ↦
          let c = mover_veces-Camino quantum d e h (ground arith) in
          inr (record {
            e' = record c.e' { estado = ready };
            lejos = ground arith;
            hecho =
                ejecutar_rr_lem quantum quantum cola_ready d e c.e' _ h (ground arith) c.llegado
                  (fin_de_turno-lejos cola_ready d c.e' (ground (arith, c.movido.mas_cerca)));
            listo = refl;
            movido = record {
              destino = c.movido.destino;
              mas_cerca = c.movido.mas_cerca;
              ciclos = c.movido.ciclos;
              ejecutada = c.movido.ejecutada;
            };
          })
      | inr k ↦
          let c = mover_veces-Camino lejos d e h (omega arith) in
          inl (record {
            e' = c.e';
            cerca = ground arith;
            hecho =
                ejecutar_rr_lem lejos quantum cola_ready d e c.e' _ h (ground arith) c.llegado
                  (fin_de_turno-cerca cola_ready d c.e' (ground (arith, c.movido.mas_cerca)));
            movido = c.movido;
          })
    ]
