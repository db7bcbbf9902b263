-- ===== src/Team/Objetivos/Pendientes.antt =====
-- team/src/utils.c: `cumplio_objetivo` against `objetivos_pendientes`, and the trade of a pokemon.
use sistemas_operativos_utn.Base.{
  ℕ, ◌≡◌, ◌≤◌, refl, ap, Bool, true, false, Option, none, some, List, [], ◌∷◌, ◌++◌, ltb, leb, ◌==◌,
  ◌&&◌, arith, Bool-cases, Option-cases, inl, inr, ◌⊎◌, ◌<◌, length, Todas,
}
use sistemas_operativos_utn.Team.Entrenador.{PokemonTeam, Entrenador}
use sistemas_operativos_utn.Team.Pokemones.{
  get_cantidad_by_nombre_pokemon, get_pokemon_by_nombre, sumarizar_pokemones,
}
use sistemas_operativos_utn.Team.Objetivos.{
  alcanza_objetivo, cumplio_objetivo, excedentes, objetivos_pendientes, pokemones_de_mas, o_sino,
  primero_que_esta, pokemon_que_sirve_intercambio,
}

module _ (igual : List ℕ → List ℕ → Bool) where
  -- Of no goal is there more than asked.
  unfoldable pub sin_de_mas : List PokemonTeam → List PokemonTeam → Bool
  unfolding get_cantidad_by_nombre_pokemon
  sin_de_mas ps [] = true
  sin_de_mas ps (o ∷ os) =
      leb (get_cantidad_by_nombre_pokemon igual o.nombre.texto ps) o.cantidad && sin_de_mas ps os

  alcanza-excedentes :
      (ps os : List PokemonTeam)
      → alcanza_objetivo igual ps os ≡ (length (excedentes igual ps os) == 0 && sin_de_mas ps os)
  unfolding alcanza_objetivo excedentes sin_de_mas
  alcanza-excedentes ps [] = refl
  alcanza-excedentes ps (o ∷ os) = ground (arith, alcanza-excedentes ps os)

  -- `cumplio_objetivo` answers true exactly when, by the list of pokemon that it leaves, no goal is
  -- pending and of no goal the trainer has more than it asks for.
  pub cumplio_objetivo-objetivos_pendientes :
      (sin_iniciar : PokemonTeam) (e : Entrenador)
      → (cumplio_objetivo igual sin_iniciar e).0 ≡ (
          length (objetivos_pendientes igual (cumplio_objetivo igual sin_iniciar e).1) == 0
          && sin_de_mas (cumplio_objetivo igual sin_iniciar e).1.pokemones e.objetivo)
  unfolding cumplio_objetivo objetivos_pendientes
  cumplio_objetivo-objetivos_pendientes sin_iniciar e =
      alcanza-excedentes (sumarizar_pokemones igual sin_iniciar e.pokemones) e.objetivo

  -- A pokemon that does not serve for a goal: it has another name, or its trainer, with the goals
  -- given, has no more of it than it is to have.
  abbrev pub NoSirve : List PokemonTeam → PokemonTeam → PokemonTeam → Type 0
  NoSirve os o q =
      (igual o.nombre.texto q.nombre.texto ≡ false)
      ⊎ (q.cantidad ≤ get_cantidad_by_nombre_pokemon igual q.nombre.texto os)

  -- The first pokemon of a list that serves for a goal.
  pub record Sobrante (os ps : List PokemonTeam) (o p : PokemonTeam) : Type 0 where
    pub antes : List PokemonTeam
    pub despues : List PokemonTeam
    pub forma : ps ≡ antes ++ (p ∷ despues)
    pub otros : Todas (NoSirve os o) antes
    pub nombre : igual o.nombre.texto p.nombre.texto ≡ true
    pub sobra : get_cantidad_by_nombre_pokemon igual p.nombre.texto os < p.cantidad

  abbrev DeUno : List PokemonTeam → List PokemonTeam → PokemonTeam → Option PokemonTeam → Type 0
  DeUno os ps o none = Todas (NoSirve os o) ps
  DeUno os ps o (some p) = Sobrante os ps o p

  saltar :
      (os ps : List PokemonTeam) (o q : PokemonTeam) (r : Option PokemonTeam)
      → NoSirve os o q
      → DeUno os ps o r
      → DeUno os (q ∷ ps) o r
  saltar os ps o q none n h = (n, h)
  saltar os ps o q (some p) n h = record {
    antes = q ∷ h.antes;
    despues = h.despues;
    forma = ap (λ x. q ∷ x) h.forma;
    otros = (n, h.otros);
    nombre = h.nombre;
    sobra = h.sobra;
  }

  por_nombre-DeUno :
      (os ps : List PokemonTeam) (o : PokemonTeam)
      → DeUno os ps o (get_pokemon_by_nombre igual o.nombre.texto (excedentes igual os ps))
  unfolding get_pokemon_by_nombre excedentes
  por_nombre-DeUno os [] o = tt
  por_nombre-DeUno os (q ∷ ps) o =
      let h = por_nombre-DeUno os ps o in
      elim (Bool-cases (ltb (get_cantidad_by_nombre_pokemon igual q.nombre.texto os) q.cantidad)) [
        | inl e ↦ elim (Bool-cases (igual o.nombre.texto q.nombre.texto)) [
          | inl k ↦
              rw (e, k)
                (record {
                  antes = [];
                  despues = ps;
                  forma = refl;
                  otros = tt;
                  nombre = k;
                  sobra = ground arith;
                })
          | inr k ↦ rw (e, k) (saltar os ps o q _ (inl k) h)
        ]
        | inr e ↦ rw e (saltar os ps o q _ (inr (ground arith)) h)
      ]

  -- The first goal for which a pokemon of the list serves, with the first pokemon that does.
  pub record Elegido (metas os ps : List PokemonTeam) (p : PokemonTeam) : Type 0 where
    pub antes : List PokemonTeam
    pub meta : PokemonTeam
    pub despues : List PokemonTeam
    pub forma : metas ≡ antes ++ (meta ∷ despues)
    pub otras : Todas (λ o. Todas (NoSirve os o) ps) antes
    pub sobrante : Sobrante os ps meta p

  -- What is answered to a trainer with the goals `metas` by one with the goals `os` and the pokemon
  -- `ps`: NULL where no pokemon serves for any goal, and else the first for the first goal.
  abbrev pub Intercambio :
      List PokemonTeam → List PokemonTeam → List PokemonTeam → Option PokemonTeam → Type 0
  Intercambio metas os ps none = Todas (λ o. Todas (NoSirve os o) ps) metas
  Intercambio metas os ps (some p) = Elegido metas os ps p

  saltar_meta :
      (metas os ps : List PokemonTeam) (o : PokemonTeam) (r : Option PokemonTeam)
      → Todas (NoSirve os o) ps
      → Intercambio metas os ps r
      → Intercambio (o ∷ metas) os ps r
  saltar_meta metas os ps o none n h = (n, h)
  saltar_meta metas os ps o (some p) n h = record {
    antes = o ∷ h.antes;
    meta = h.meta;
    despues = h.despues;
    forma = ap (λ x. o ∷ x) h.forma;
    otras = (n, h.otras);
    sobrante = h.sobrante;
  }

  primero_que_esta-Intercambio :
      (metas os ps : List PokemonTeam)
      → Intercambio metas os ps (primero_que_esta igual (excedentes igual os ps) metas)
  unfolding primero_que_esta o_sino
  primero_que_esta-Intercambio [] os ps = tt
  primero_que_esta-Intercambio (o ∷ metas) os ps =
      let h = primero_que_esta-Intercambio metas os ps in
      let u = por_nombre-DeUno os ps o in
      elim (Option-cases (get_pokemon_by_nombre igual o.nombre.texto (excedentes igual os ps))) [
        | inl k ↦
            let n : Todas (NoSirve os o) ps = rw k at u in rw k (saltar_meta metas os ps o _ n h)
        | inr (p, k) ↦
            let s : Sobrante os ps o p = rw k at u in
            rw k (record {
              antes = [];
              meta = o;
              despues = metas;
              forma = refl;
              otras = tt;
              sobrante = s;
            })
      ]

  -- `pokemon_que_sirve_intercambio` answers NULL only if, for every goal of the first trainer, each
  -- pokemon of the second has another name or is no surplus of the second: the trainer has no more
  -- of it than among its own goals. Else it answers, for the first goal of the first trainer for
  -- which there is one, the first pokemon of the second trainer with that name and in surplus.
  pub pokemon_que_sirve_intercambio-Intercambio :
      (e1 e2 : Entrenador)
      → Intercambio e1.objetivo e2.objetivo e2.pokemones (pokemon_que_sirve_intercambio igual e1 e2)
  unfolding pokemon_que_sirve_intercambio pokemones_de_mas
  pokemon_que_sirve_intercambio-Intercambio e1 e2 =
      primero_que_esta-Intercambio e1.objetivo e2.objetivo e2.pokemones
