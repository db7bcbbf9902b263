-- ===== src/Team/Deadlock.antt =====
-- team/src/team.c: which trainers are in deadlock, and whether a deadlock was found before. A
-- deadlock is the list of the ids of its trainers.
pub mod Detectado
use sistemas_operativos_utn.Base.{
  ℕ, Bool, true, false, not, ◌&&◌, Option, none, some, List, [], ◌∷◌, length, ◌==◌, if◌then◌else◌,
}
use sistemas_operativos_utn.Team.Entrenador.{
  PokemonTeam, Entrenador, EstadoCode, new, ready, blocked, exec, exit,
}
use sistemas_operativos_utn.Team.Pokemones.{puede_capturar_pokemones}
use sistemas_operativos_utn.Team.Objetivos.{
  cumplio_objetivo, pokemones_de_mas, objetivos_pendientes, pokemon_que_sirve,
}

unfoldable pub es_blocked : EstadoCode → Bool
es_blocked blocked = true
es_blocked new = false
es_blocked ready = false
es_blocked exec = false
es_blocked exit = false

unfoldable pub hay_alguno : Option PokemonTeam → Bool
hay_alguno none = false
hay_alguno (some p) = true

-- `estan_unidos`: the next trainer has something that the first needs.
unfoldable pub estan_unidos : (List ℕ → List ℕ → Bool) → Entrenador → Entrenador → Bool
unfolding hay_alguno pokemon_que_sirve
estan_unidos igual actual siguiente = hay_alguno (pokemon_que_sirve igual actual siguiente)

module _ (igual : List ℕ → List ℕ → Bool) (sin_iniciar : PokemonTeam) (nuevo : Entrenador) where
  -- The trainer goes with the answer: `cumplio_objetivo` sums up its list, where it is asked.
  unfoldable pub esta_en_deadlock : Entrenador → Bool × Entrenador
  unfolding es_blocked cumplio_objetivo puede_capturar_pokemones
  esta_en_deadlock e =
      let (cumplio, e') = cumplio_objetivo igual sin_iniciar e in
      if es_blocked e.estado && not e.ocupado
      then (if cumplio then (false, e') else (not (puede_capturar_pokemones e'), e'))
      else (false, e)

  -- `nuevo` is what the block of `malloc` holds; three of its fields are written. The trainers as
  -- the test leaves them go with the answer.
  unfoldable pub entrenadores_en_deadlock : List Entrenador → List Entrenador × List Entrenador
  unfolding esta_en_deadlock pokemones_de_mas objetivos_pendientes
  entrenadores_en_deadlock [] = ([], [])
  entrenadores_en_deadlock (e ∷ es) =
      let (resto, es') = entrenadores_en_deadlock es in
      let (en_deadlock, actual) = esta_en_deadlock e in
      let copia = record nuevo {
        id = actual.id;
        pokemones = pokemones_de_mas igual actual;
        objetivo = objetivos_pendientes igual actual;
      } in
      (if en_deadlock then copia ∷ resto else resto, actual ∷ es')

-- The inner loop of `deadlock_ya_detectado`, which answers true at the last entry.
unfoldable pub mismos_procesos : List ℕ → List ℕ → Bool
mismos_procesos [] qs = false
mismos_procesos (p ∷ ps) [] = false
mismos_procesos (p ∷ []) (q ∷ qs) = p == q
mismos_procesos (p ∷ (r ∷ ps)) (q ∷ qs) =
    let resto = mismos_procesos (r ∷ ps) qs in if p == q then resto else false

unfoldable pub deadlock_ya_detectado : List (List ℕ) → List ℕ → Bool
unfolding mismos_procesos
deadlock_ya_detectado [] deadlock = false
deadlock_ya_detectado (dl ∷ dls) deadlock =
    let resto = deadlock_ya_detectado dls deadlock in
    if length dl == length deadlock
    then if mismos_procesos deadlock dl then true else resto
    else resto
