-- ===== src/Team/Marcha/Llegada.antt =====
-- team/src/team.c: every step brings the trainer one nearer, so that it arrives after as many steps
-- as the distance, or comes nearer by the quantum.
use sistemas_operativos_utn.Base.{
  ℕ, zero, suc, ◌+◌, ◌-◌, ◌≡◌, ◌≤◌, ◌<◌, refl, ◌∙◌, true, false, some, arith, ltb, Bool-cases, inl,
  inr,
}
use sistemas_operativos_utn.Universo.{Posicion}
use sistemas_operativos_utn.Team.Entrenador.{PokemonTeam, Entrenador}
use sistemas_operativos_utn.Team.Cercania.{get_distancia_entre_puntos}
use sistemas_operativos_utn.Team.Marcha.{avanzar, ejecuta, en_destino, llega, caminar, mover_veces}

-- A trainer after so many steps towards its pokemon.
pub record Movido (n : ℕ) (d : PokemonTeam) (e e' : Entrenador) : Type 0 where
  pub destino : e'.pokemon_destino ≡ some d
  pub mas_cerca :
      get_distancia_entre_puntos e'.posicion d.posicion + n
      ≡ get_distancia_entre_puntos e.posicion d.posicion
  pub ciclos : e'.ciclos ≡ e.ciclos + n
  pub ejecutada : e'.cantidad_ejecutada ≡ e.cantidad_ejecutada + n

seguir-Movido :
    {n k m : ℕ} {d : PokemonTeam} {e e' e'' : Entrenador}
    → m ≡ n + k
    → Movido n d e e'
    → Movido k d e' e''
    → Movido m d e e''
seguir-Movido em a b = record {
  destino = b.destino;
  mas_cerca = omega (arith, a.mas_cerca, b.mas_cerca);
  ciclos = omega (arith, a.ciclos, b.ciclos);
  ejecutada = omega (arith, a.ejecutada, b.ejecutada);
}

quieto-Movido : {d : PokemonTeam} {e : Entrenador} → e.pokemon_destino ≡ some d → Movido 0 d e e
quieto-Movido h = record {
  destino = h;
  mas_cerca = omega arith;
  ciclos = omega arith;
  ejecutada = omega arith;
}

-- The trainer one step on, at a place.
abbrev hacia : Entrenador → ℕ → ℕ → Entrenador
hacia e x y = record e {
  ciclos = suc e.ciclos;
  cantidad_ejecutada = suc e.cantidad_ejecutada;
  posicion = record { x = x; y = y };
}

-- The trainer after one step.
record Paso (d : PokemonTeam) (e : Entrenador) : Type 0 where
  e' : Entrenador
  hecho : ejecuta e ≡ some e'
  movido : Movido 1 d e e'

hacia-Paso :
    {d : PokemonTeam} {e : Entrenador} (x y : ℕ)
    → e.pokemon_destino ≡ some d
    → ejecuta e ≡ some (hacia e x y)
    → suc (get_distancia_entre_puntos (record { x = x; y = y }) d.posicion)
      ≡ get_distancia_entre_puntos e.posicion d.posicion
    → Paso d e
hacia-Paso {d} {e} x y h r m = record {
  e' = hacia e x y;
  hecho = r;
  movido = record {
    destino = h;
    mas_cerca = omega (arith, m);
    ciclos = omega arith;
    ejecutada = omega arith;
  };
}

ejecuta-Paso :
    (d : PokemonTeam) (e : Entrenador)
    → e.pokemon_destino ≡ some d
    → 0 < get_distancia_entre_puntos e.posicion d.posicion
    → Paso d e
unfolding ejecuta avanzar get_distancia_entre_puntos
ejecuta-Paso d e h k =
    let x = e.posicion.x in
    let y = e.posicion.y in
    elim (Bool-cases (ltb d.posicion.x x)) [
      | inl a ↦ hacia-Paso (x - 1) (y + 0) h (rw (h, a)) (ground arith)
      | inr a ↦ elim (Bool-cases (ltb x d.posicion.x)) [
        | inl b ↦ hacia-Paso (x + 1) (y + 0) h (rw (h, a, b)) (ground arith)
        | inr b ↦ elim (Bool-cases (ltb d.posicion.y y)) [
          | inl c ↦ hacia-Paso (x + 0) (y - 1) h (rw (h, a, b, c)) (ground arith)
          | inr c ↦ elim (Bool-cases (ltb y d.posicion.y)) [
            | inl f ↦ hacia-Paso (x + 0) (y + 1) h (rw (h, a, b, c, f)) (ground arith)
            | inr f ↦ absurd (ground arith)
          ]
        ]
      ]
    ]

-- The trainer after so many steps.
pub record Camino (n : ℕ) (d : PokemonTeam) (e : Entrenador) (hecho : Entrenador → Type 0)
    : Type 0 where
  pub e' : Entrenador
  pub llegado : hecho e'
  pub movido : Movido n d e e'

en_destino-lejos : (a b : Posicion) → en_destino a b ≡ ltb (get_distancia_entre_puntos a b) 1
unfolding en_destino get_distancia_entre_puntos
en_destino-lejos a b = ground arith

caminar-llega :
    (f : ℕ) (d : PokemonTeam) (e : Entrenador)
    → e.pokemon_destino ≡ some d
    → en_destino e.posicion d.posicion ≡ true
    → caminar (suc f) e ≡ llega e
unfolding caminar
caminar-llega f d e h k = ground arith

caminar-sigue :
    (f : ℕ) (d : PokemonTeam) (e e' : Entrenador)
    → e.pokemon_destino ≡ some d
    → en_destino e.posicion d.posicion ≡ false
    → ejecuta e ≡ some e'
    → caminar (suc f) e ≡ caminar f e'
unfolding caminar
caminar-sigue f d e e' h k r = ground arith

pub caminar-Camino :
    (n : ℕ) (d : PokemonTeam) (e : Entrenador)
    → e.pokemon_destino ≡ some d
    → get_distancia_entre_puntos e.posicion d.posicion ≡ n
    → Camino n d e (λ e'. caminar (suc n) e ≡ llega e')
caminar-Camino zero d e h k = record {
  e' = e;
  llegado = caminar-llega zero d e h (ground (arith, en_destino-lejos e.posicion d.posicion));
  movido = quieto-Movido h;
}
caminar-Camino (suc n) d e h k =
    let p = ejecuta-Paso d e h (omega (arith, k)) in
    let c = caminar-Camino n d p.e' p.movido.destino (omega (arith, k, p.movido.mas_cerca)) in
    record {
      e' = c.e';
      llegado =
          caminar-sigue (suc n) d e p.e' h (ground (arith, en_destino-lejos e.posicion d.posicion))
            p.hecho
          ∙ c.llegado;
      movido = seguir-Movido (omega arith) p.movido c.movido;
    }

pub mover_veces-Camino :
    (n : ℕ) (d : PokemonTeam) (e : Entrenador)
    → e.pokemon_destino ≡ some d
    → n ≤ get_distancia_entre_puntos e.posicion d.posicion
    → Camino n d e (λ e'. mover_veces n e ≡ some e')
unfolding mover_veces
mover_veces-Camino zero d e h k = record { e' = e; llegado = refl; movido = quieto-Movido h }
mover_veces-Camino (suc n) d e h k =
    let p = ejecuta-Paso d e h (omega (arith, k)) in
    let c = mover_veces-Camino n d p.e' p.movido.destino (omega (arith, k, p.movido.mas_cerca)) in
    record {
      e' = c.e';
      llegado = rw p.hecho c.llegado;
      movido = seguir-Movido (omega arith) p.movido c.movido;
    }
