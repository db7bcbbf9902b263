-- ===== src/Team/Cercania/Minimo.antt =====
-- team/src/utils.c: the loop that both searches for the nearest share finds the first of the
-- nearest entries that may be chosen.
use sistemas_operativos_utn.Base.{
  ℕ, ◌≡◌, ◌<◌, ◌≤◌, refl, sym, ◌∙◌, ap, Bool, true, false, Option, none, some, List, [], ◌∷◌, ◌++◌,
  arith, append-nil, append_assoc, subst, if◌then◌else◌, Bool-cases, inl, inr, ltb,
}
use sistemas_operativos_utn.Universo.{Posicion}
use sistemas_operativos_utn.Team.Entrenador.{PokemonTeam, Entrenador}
use sistemas_operativos_utn.Base.{Todas, Todas-append, Todas-map}
use sistemas_operativos_utn.Team.Cercania.{
  acercar, mas_cercano_desde, sin_distancia, es_planificable, get_distancia_entre_puntos,
  get_entrenador_planificable_mas_cercano, se_busca, get_pokemon_necesario_mas_cercano,
}

module _ {A : Type 0} (sirve : A → Bool) (lejos : A → ℕ) where
  -- Where the entry `a` stands: it may be chosen, those before it that may be are farther away, and
  -- those after it are not nearer.
  pub record PrimerMinimo (a : A) (xs : List A) : Type 0 where
    pub antes : List A
    pub despues : List A
    pub partes : xs ≡ antes ++ (a ∷ despues)
    pub elegible : sirve a ≡ true
    pub mas_lejos : Todas (λ b. sirve b ≡ true → lejos a < lejos b) antes
    pub no_mas_cerca : Todas (λ b. sirve b ≡ true → lejos a ≤ lejos b) despues

  -- What a search may answer: no entry, where none may be chosen, or the first of the nearest.
  abbrev pub MasCercano : Option A → List A → Type 0
  MasCercano none xs = Todas (λ b. sirve b ≡ false) xs
  MasCercano (some a) xs = PrimerMinimo a xs

  abbrev Hallado : Option (ℕ × A) → List A → Type 0
  Hallado none xs = MasCercano none xs
  Hallado (some (d, a)) xs = (d ≡ lejos a) × MasCercano (some a) xs

  abbrev siguiente : A → Option (ℕ × A) → Option (ℕ × A)
  siguiente a hallado = if sirve a then acercar (lejos a) a hallado else hallado

  seguir :
      (c : A) {a : A} {xs : List A}
      → (sirve c ≡ true → lejos a ≤ lejos c)
      → PrimerMinimo a xs
      → PrimerMinimo a (xs ++ (c ∷ []))
  seguir c {a} k m = record {
    antes = m.antes;
    despues = m.despues ++ (c ∷ []);
    partes = ap (λ zs. zs ++ (c ∷ [])) m.partes ∙ append_assoc m.antes (a ∷ m.despues) (c ∷ []);
    elegible = m.elegible;
    mas_lejos = m.mas_lejos;
    no_mas_cerca = Todas-append _ m.despues (c ∷ []) m.no_mas_cerca (k, tt);
  }

  cambiar :
      (c : A) (xs : List A)
      → sirve c ≡ true
      → Todas (λ b. sirve b ≡ true → lejos c < lejos b) xs
      → PrimerMinimo c (xs ++ (c ∷ []))
  cambiar c xs e m = record {
    antes = xs;
    despues = [];
    partes = refl;
    elegible = e;
    mas_lejos = m;
    no_mas_cerca = tt;
  }

  todos_lejos :
      (c : A) {a : A} {xs : List A}
      → lejos c < lejos a
      → PrimerMinimo a xs
      → Todas (λ b. sirve b ≡ true → lejos c < lejos b) xs
  todos_lejos c {a} k m = subst (Todas (λ b. sirve b ≡ true → lejos c < lejos b)) (sym m.partes) (
      Todas-append _ m.antes (a ∷ m.despues)
        (Todas-map _ _ m.antes (λ b h e. omega (arith, h e)) m.mas_lejos)
        (λ e. k, Todas-map _ _ m.despues (λ b h e. omega (arith, h e)) m.no_mas_cerca))

  paso :
      (c : A) (h : Option (ℕ × A)) (xs : List A)
      → Hallado h xs
      → Hallado (siguiente c h) (xs ++ (c ∷ []))
  unfolding acercar
  paso c none xs v = elim (Bool-cases (sirve c)) [
    | inl e ↦ rw e (refl, cambiar c xs e (Todas-map _ _ xs (λ b n s. ground arith) v))
    | inr e ↦ rw e (Todas-append _ xs (c ∷ []) v (e, tt))
  ]
  paso c (some (d, a)) xs (ed, m) = elim (Bool-cases (sirve c)) [
    | inl e ↦ elim (Bool-cases (ltb (lejos c) d)) [
      | inl k ↦ rw (e, k) (refl, cambiar c xs e (todos_lejos c (ground arith) m))
      | inr k ↦ rw (e, k) (ed, seguir c (λ s. ground arith) m)
    ]
    | inr e ↦ rw e (ed, seguir c (λ s. ground arith) m)
  ]

  mas_cercano_desde-Hallado :
      (h : Option (ℕ × A)) (xs ys : List A)
      → Hallado h xs
      → Hallado (mas_cercano_desde sirve lejos h ys) (xs ++ ys)
  unfolding mas_cercano_desde
  mas_cercano_desde-Hallado h xs [] v = subst (Hallado h) (sym (append-nil xs)) v
  mas_cercano_desde-Hallado h xs (y ∷ ys) v =
      subst (Hallado (mas_cercano_desde sirve lejos (siguiente y h) ys))
        (append_assoc xs (y ∷ []) ys)
        (mas_cercano_desde-Hallado (siguiente y h) (xs ++ (y ∷ [])) ys (paso y h xs v))

  sin_distancia-MasCercano :
      (h : Option (ℕ × A)) (xs : List A) → Hallado h xs → MasCercano (sin_distancia h) xs
  unfolding sin_distancia
  sin_distancia-MasCercano none xs v = v
  sin_distancia-MasCercano (some (d, a)) xs (e, v) = v

  hallado-MasCercano :
      (xs : List A) → MasCercano (sin_distancia (mas_cercano_desde sirve lejos none xs)) xs
  hallado-MasCercano xs =
      sin_distancia-MasCercano (mas_cercano_desde sirve lejos none xs) xs
        (mas_cercano_desde-Hallado none [] xs tt)

-- `get_entrenador_planificable_mas_cercano` answers NULL only if no trainer can be planned, and
-- else the first of those nearest to the pokemon.
pub get_entrenador_planificable_mas_cercano-MasCercano :
    (es : List Entrenador) (pos : Posicion)
    → MasCercano es_planificable
        (λ e. get_distancia_entre_puntos e.posicion pos)
        (get_entrenador_planificable_mas_cercano es pos)
        es
unfolding get_entrenador_planificable_mas_cercano
get_entrenador_planificable_mas_cercano-MasCercano es pos =
    hallado-MasCercano es_planificable (λ e. get_distancia_entre_puntos e.posicion pos) es

-- `get_pokemon_necesario_mas_cercano` answers NULL only if no located pokemon that may be planned
-- is needed, and else the first of those nearest to the trainer.
pub get_pokemon_necesario_mas_cercano-MasCercano :
    (igual : List ℕ → List ℕ → Bool) (sin_iniciar : PokemonTeam) (es : List Entrenador)
    (objetivo_global ubicados : List PokemonTeam) (pos : Posicion)
    → MasCercano
        (se_busca igual sin_iniciar es objetivo_global)
        (λ p. get_distancia_entre_puntos pos p.posicion)
        (get_pokemon_necesario_mas_cercano igual sin_iniciar es objetivo_global ubicados pos)
        ubicados
unfolding get_pokemon_necesario_mas_cercano
get_pokemon_necesario_mas_cercano-MasCercano igual sin_iniciar es objetivo_global ubicados pos =
    hallado-MasCercano (se_busca igual sin_iniciar es objetivo_global)
      (λ p. get_distancia_entre_puntos pos p.posicion) ubicados
