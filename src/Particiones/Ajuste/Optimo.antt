-- ===== src/Particiones/Ajuste/Optimo.antt =====
-- `getParticionBestFit`: the smallest candidate of the table.
use sistemas_operativos_utn.Base.{
  ℕ, suc, ◌≤◌, ◌≡◌, true, false, List, [], ◌∷◌, ◌++◌, length, arith, some, Bool-cases, inl, inr,
  ne→==,
}
use sistemas_operativos_utn.Particiones.Tabla.{Particion, particion_candidata, filtrar}
use sistemas_operativos_utn.Particiones.Forma.{Lugar}
use sistemas_operativos_utn.Base.{Todas}
use sistemas_operativos_utn.Particiones.Punteros.{Pasa, filtrar-Pasa, filtrar-append}
use sistemas_operativos_utn.Particiones.Ajuste.{hay_particiones_candidatas, get_particion_best_fit}
use sistemas_operativos_utn.Particiones.Ajuste.Eleccion.{EsEleccion, hay-ne-nil, candidata_justa}
use sistemas_operativos_utn.Particiones.Ajuste.Mejor.{
  SinExacta, Caben, mejor_de_exacta, Todas-antes, Optima, mejor_de-Optima,
}

filtrar-Caben : (s k : ℕ) (ps : List Particion) → Caben s (filtrar (particion_candidata s) k ps)
unfolding filtrar particion_candidata
filtrar-Caben s k [] = tt
filtrar-Caben s k (p ∷ ps) = ground (arith, filtrar-Caben s (suc k) ps)

filtrar_candidata :
    (s k : ℕ) (p : Particion) (ps : List Particion)
    → particion_candidata s p ≡ true
    → filtrar (particion_candidata s) k (p ∷ ps)
      ≡ (k, p) ∷ filtrar (particion_candidata s) (suc k) ps
unfolding filtrar
filtrar_candidata s k p ps h = rw h

candidatas-Optima :
    (s : ℕ) (tabla : List Particion)
    → hay_particiones_candidatas s tabla ≡ true
    → Optima s (Pasa (particion_candidata s) tabla) (filtrar (particion_candidata s) 0 tabla)
candidatas-Optima s tabla h =
    mejor_de-Optima s (Pasa (particion_candidata s) tabla) _
      (filtrar-Pasa (particion_candidata s) tabla) (filtrar-Caben s 0 tabla) (hay-ne-nil s tabla h)

-- The sizes of the free entries that are large enough are at least `j`.
abbrev pub DesdeTamanio : ℕ → ℕ → List Particion → Type 0
DesdeTamanio s j = Todas (λ (p : Particion). particion_candidata s p ≡ true → j ≤ p.size)

filtrar-DesdeTamanio :
    (s j k : ℕ) (ps : List Particion)
    → Caben j (filtrar (particion_candidata s) k ps)
    → DesdeTamanio s j ps
unfolding filtrar
filtrar-DesdeTamanio s j k [] h = tt
filtrar-DesdeTamanio s j k (p ∷ ps) h = elim (Bool-cases (particion_candidata s p)) [
  | inl e ↦ let h' = rw (e, filtrar) at h in (λ _. h'.0, filtrar-DesdeTamanio s j (suc k) ps h'.1)
  | inr e ↦ (λ f. cc (e, f), filtrar-DesdeTamanio s j (suc k) ps (rw (e, filtrar) at h))
]

-- What Best Fit chooses where there is a candidate: a candidate of the least size.
pub record MejorAjuste (s : ℕ) (tabla : List Particion) : Type 0 where
  pub i : ℕ
  pub p : Particion
  pub lugar : Lugar tabla i p
  pub hecho : get_particion_best_fit s tabla ≡ some (i, p)
  pub candidata : particion_candidata s p ≡ true
  pub minima : DesdeTamanio s p.size tabla

-- Where a free partition is large enough, Best Fit chooses one of the least size among them.
pub get_particion_best_fit-MejorAjuste :
    (s : ℕ) (tabla : List Particion)
    → hay_particiones_candidatas s tabla ≡ true
    → MejorAjuste s tabla
unfolding get_particion_best_fit
get_particion_best_fit-MejorAjuste s tabla h =
    let o = candidatas-Optima s tabla h in
    record {
      i = o.c.0;
      p = o.c.1;
      lugar = o.cumple.0;
      hecho = o.hecho;
      candidata = o.cumple.1;
      minima = filtrar-DesdeTamanio s o.c.1.size 0 tabla o.minima;
    }

best_fit_al_partir :
    (s i : ℕ) (xs ys : List Particion) (p a b : Particion)
    → i ≡ length xs
    → a.ocupada ≡ false
    → a.size ≡ s
    → SinExacta s (filtrar (particion_candidata s) 0 (xs ++ (p ∷ ys)))
    → get_particion_best_fit s (xs ++ (a ∷ (b ∷ ys))) ≡ some (i, a)
unfolding get_particion_best_fit
best_fit_al_partir s i xs ys p a b e la ea n =
    rw
      (
        filtrar-append (particion_candidata s) 0 i xs (a ∷ (b ∷ ys)) (omega (arith, e)),
        filtrar_candidata s i a (b ∷ ys) (candidata_justa s a la ea),
      )
      (mejor_de_exacta s (filtrar (particion_candidata s) 0 xs) (i, a)
        (filtrar (particion_candidata s) (suc i) (b ∷ ys))
        (Todas-antes _ (filtrar (particion_candidata s) 0 xs)
          (filtrar (particion_candidata s) i (p ∷ ys))
          (rw (filtrar-append (particion_candidata s) 0 i xs (p ∷ ys) (omega (arith, e))) at n))
        (ground arith))

pub get_particion_best_fit-EsEleccion : EsEleccion get_particion_best_fit
get_particion_best_fit-EsEleccion = record {
  elige = λ s tabla h.
      let o = candidatas-Optima s tabla h in
      let l = o.cumple.0 in
      record {
        i = o.c.0;
        p = o.c.1;
        lugar = l;
        hecho = unfold get_particion_best_fit in o.hecho;
        candidata = o.cumple.1;
        al_partir = λ a b la ea distinta.
            best_fit_al_partir s o.c.0 l.antes l.despues o.c.1 a b l.indice la ea
              (rw l.partes at (o.sin_exacta (ne→== o.c.1.size s distinta)));
      };
}
