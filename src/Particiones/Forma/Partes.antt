-- ===== src/Particiones/Forma/Partes.antt =====
-- How the views of a table of partitions go over its parts.
use sistemas_operativos_utn.Base.{
  ℕ, ◌+◌, ◌≡◌, refl, subst, append-nil, ap, false, not, ◌&&◌, List, [], ◌∷◌, ◌++◌, arith, ◌⊎◌, inl,
  inr,
}
use sistemas_operativos_utn.Particiones.Tabla.{Particion}
use sistemas_operativos_utn.Particiones.Forma.{
  total, Contigua, libre_al_inicio, libre_al_final, Separadas, mensajes,
}

pub total-append : (xs ys : List Particion) → total (xs ++ ys) ≡ total xs + total ys
total-append [] ys = omega arith
total-append (x ∷ xs) ys = omega (arith, total-append xs ys)

pub mensajes-append : (xs ys : List Particion) → mensajes (xs ++ ys) ≡ mensajes xs ++ mensajes ys
mensajes-append [] ys = refl
mensajes-append (x ∷ xs) ys = ground (arith, mensajes-append xs ys)

pub Contigua-split :
    (i : ℕ) (xs ys : List Particion)
    → Contigua i (xs ++ ys)
    → Contigua i xs × Contigua (i + total xs) ys
Contigua-split i [] ys c = (tt, rw (← e) c)
  where
    e : i ≡ i + 0
    e = omega arith
Contigua-split i (x ∷ xs) ys (a, b, p, c) =
    let (h, t) = Contigua-split (i + x.size) xs ys c in ((a, b, p, h), rw (← e) t)
  where
    e : i + x.size + total xs ≡ i + (x.size + total xs)
    e = omega arith

pub Contigua-join :
    (i j : ℕ) (xs ys : List Particion)
    → j ≡ i + total xs
    → Contigua i xs
    → Contigua j ys
    → Contigua i (xs ++ ys)
Contigua-join i j [] ys e cx cy = rw e' at cy
  where
    e' : j ≡ i
    e' = omega arith
Contigua-join i j (x ∷ xs) ys e (a, b, p, c) cy =
    (a, b, p, Contigua-join (i + x.size) j xs ys (omega arith) c cy)

pub libre_al_inicio-append :
    (x : Particion) (xs ys : List Particion)
    → libre_al_inicio ((x ∷ xs) ++ ys) ≡ libre_al_inicio (x ∷ xs)
libre_al_inicio-append x xs ys = refl

pub Separadas-split :
    (xs ys : List Particion)
    → Separadas (xs ++ ys)
    → Separadas xs × Separadas ys × ((libre_al_final xs && libre_al_inicio ys) ≡ false)
Separadas-split [] ys s = (tt, s, refl)
Separadas-split (x ∷ []) ys s = ground arith
Separadas-split (x ∷ (y ∷ xs)) ys (h, s) =
    let (a, b, c) = Separadas-split (y ∷ xs) ys s in ((h, a), b, c)

pub Separadas-join :
    (xs ys : List Particion)
    → Separadas xs
    → Separadas ys
    → (libre_al_final xs && libre_al_inicio ys) ≡ false
    → Separadas (xs ++ ys)
Separadas-join [] ys a b c = b
Separadas-join (x ∷ []) ys a b c = (c, b)
Separadas-join (x ∷ (y ∷ xs)) ys (h, a) b c = (h, Separadas-join (y ∷ xs) ys a b c)

-- The last entry of a table.
pub snoc_cases :
    (xs : List Particion)
    → (xs ≡ []) ⊎ ((ys : List Particion) × (y : Particion) × (xs ≡ ys ++ (y ∷ [])))
snoc_cases [] = inl refl
snoc_cases (x ∷ xs) = elim (snoc_cases xs) [
  | inl e ↦ inr ([], x, ap (◌∷◌ x) e)
  | inr (ys, y, e) ↦ inr (x ∷ ys, y, ap (◌∷◌ x) e)
]

pub libre_al_final-snoc :
    (xs : List Particion) (y : Particion) → libre_al_final (xs ++ (y ∷ [])) ≡ not y.ocupada
libre_al_final-snoc [] y = refl
libre_al_final-snoc (x ∷ []) y = refl
libre_al_final-snoc (x ∷ (z ∷ xs)) y = libre_al_final-snoc (z ∷ xs) y

pub Contigua-at : {i j : ℕ} (ys : List Particion) → i ≡ j → Contigua i ys → Contigua j ys
Contigua-at ys e c = subst (λ k. Contigua k ys) e c

-- A free entry holds no message.
pub mensajes-snoc_libre :
    (zs : List Particion) (a : Particion)
    → a.ocupada ≡ false
    → mensajes (zs ++ (a ∷ [])) ≡ mensajes zs
mensajes-snoc_libre zs a h = ground (arith, mensajes-append zs (a ∷ []), append-nil (mensajes zs))
