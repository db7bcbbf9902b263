-- ===== src/Team/Deadlock/Detectado.antt =====
-- team/src/team.c: `deadlock_ya_detectado` finds exactly the deadlocks of the list.
use sistemas_operativos_utn.Base.{
  ℕ, ◌≡◌, ◌↔◌, ap, ap₂, sym, ◌∙◌, ◌&&◌, ◌||◌, true, List, [], ◌∷◌, ◌++◌, length, ◌==◌, arith,
  Bool-cases, inl, inr, ==-refl,
}
use sistemas_operativos_utn.Team.Deadlock.{mismos_procesos, deadlock_ya_detectado}

-- The deadlock stands in the list.
pub record Esta (d : List ℕ) (dls : List (List ℕ)) : Type 0 where
  pub antes : List (List ℕ)
  pub despues : List (List ℕ)
  pub partes : dls ≡ antes ++ (d ∷ despues)

mismos_procesos_iguales :
    (ps qs : List ℕ) → length qs ≡ length ps → mismos_procesos ps qs ≡ true → ps ≡ qs
unfolding mismos_procesos
mismos_procesos_iguales [] qs e h = ground arith
mismos_procesos_iguales (p ∷ ps) [] e h = ground arith
mismos_procesos_iguales (p ∷ []) (q ∷ []) e h = ap (λ x. x ∷ []) (ground arith)
mismos_procesos_iguales (p ∷ []) (q ∷ (r ∷ qs)) e h = absurd (omega (arith, e))
mismos_procesos_iguales (p ∷ (r ∷ ps)) (q ∷ qs) e h =
    ap₂ (λ x xs. x ∷ xs) (ground arith)
      (mismos_procesos_iguales (r ∷ ps) qs (omega (arith, e)) (ground arith))

mismos_procesos_refl : (p : ℕ) (ps : List ℕ) → mismos_procesos (p ∷ ps) (p ∷ ps) ≡ true
unfolding mismos_procesos
mismos_procesos_refl p [] = ==-refl p
mismos_procesos_refl p (r ∷ ps) = ground (arith, ==-refl p, mismos_procesos_refl r ps)

-- One further in the list.
despues-Esta : {d dl : List ℕ} {dls : List (List ℕ)} → Esta d dls → Esta d (dl ∷ dls)
despues-Esta {d} {dl} e = record {
  antes = dl ∷ e.antes;
  despues = e.despues;
  partes = ap (◌∷◌ dl) e.partes;
}

ya_detectado_cabeza :
    (dl : List ℕ) (dls : List (List ℕ)) (d : List ℕ)
    → deadlock_ya_detectado (dl ∷ dls) d
      ≡ ((length dl == length d && mismos_procesos d dl) || deadlock_ya_detectado dls d)
unfolding deadlock_ya_detectado
ya_detectado_cabeza dl dls d = ground arith

ya_detectado-Esta :
    (dls : List (List ℕ)) (d : List ℕ) → deadlock_ya_detectado dls d ≡ true → Esta d dls
unfolding deadlock_ya_detectado
ya_detectado-Esta [] d h = ground arith
ya_detectado-Esta (dl ∷ dls) d h =
    elim (Bool-cases (length dl == length d && mismos_procesos d dl)) [
      | inl k ↦ record {
        antes = [];
        despues = dls;
        partes =
            ap (λ x. x ∷ dls)
              (sym (mismos_procesos_iguales d dl (ground (arith, k)) (ground (arith, k))));
      }
      | inr k ↦
          despues-Esta
            (ya_detectado-Esta dls d (ground (arith, k, h, ya_detectado_cabeza dl dls d)))
    ]

Esta-ya_detectado :
    (xs ys : List (List ℕ)) (p : ℕ) (ps : List ℕ)
    → deadlock_ya_detectado (xs ++ ((p ∷ ps) ∷ ys)) (p ∷ ps) ≡ true
Esta-ya_detectado [] ys p ps = ground (
  arith,
  ya_detectado_cabeza (p ∷ ps) ys (p ∷ ps),
  mismos_procesos_refl p ps,
  ==-refl (length (p ∷ ps)),
)
Esta-ya_detectado (x ∷ xs) ys p ps =
    ground
      (arith, ya_detectado_cabeza x (xs ++ ((p ∷ ps) ∷ ys)) (p ∷ ps), Esta-ya_detectado xs ys p ps)

-- A deadlock with at least one trainer counts as found before exactly if the same list of ids
-- stands among those found.
pub deadlock_ya_detectado-Esta :
    (dls : List (List ℕ)) (p : ℕ) (ps : List ℕ)
    → (deadlock_ya_detectado dls (p ∷ ps) ≡ true) ↔ Esta (p ∷ ps) dls
deadlock_ya_detectado-Esta dls p ps = (
  ya_detectado-Esta dls (p ∷ ps),
  λ e.
      ap (λ l. deadlock_ya_detectado l (p ∷ ps)) e.partes
      ∙ Esta-ya_detectado e.antes e.despues p ps,
)
