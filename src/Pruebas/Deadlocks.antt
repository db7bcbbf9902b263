-- ===== src/Pruebas/Deadlocks.antt =====
-- The deadlocks found so far are that of the trainers 1 and 4 and that of the trainers 2 and 3.
use sistemas_operativos_utn.Base.{ℕ, ◌≡◌, ◌↔◌, refl, true, false, List, [], ◌∷◌}
use sistemas_operativos_utn.Team.Deadlock.{deadlock_ya_detectado, mismos_procesos}
use sistemas_operativos_utn.Team.Deadlock.Detectado.{Esta, deadlock_ya_detectado-Esta}

abbrev detectados : List (List ℕ)
detectados = (1 ∷ (4 ∷ [])) ∷ ((2 ∷ (3 ∷ [])) ∷ [])

otro_comienzo : deadlock_ya_detectado detectados (1 ∷ (3 ∷ [])) ≡ false
unfolding deadlock_ya_detectado mismos_procesos
otro_comienzo = refl

deadlock_ya_detectado-Esta_example :
    (deadlock_ya_detectado detectados (2 ∷ (3 ∷ [])) ≡ true) ↔ Esta (2 ∷ (3 ∷ [])) detectados
deadlock_ya_detectado-Esta_example = deadlock_ya_detectado-Esta detectados 2 (3 ∷ [])
