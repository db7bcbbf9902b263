-- ===== src/Particiones/Punteros.antt =====
-- Broker/src/Particiones.c: `list_filter` and `obtenerPosicion` hand over entries that stand in
-- the table, at the index that goes with them.
use sistemas_operativos_utn.Base.{
  Todas, ℕ, suc, ◌+◌, ◌≡◌, refl, sym, ap, ◌∙◌, Bool, true, false, List, [], ◌∷◌, ◌++◌, length,
  arith, inl, inr, some, Bool-cases, append_assoc, length-append, ==-refl,
}
use sistemas_operativos_utn.Particiones.Tabla.{
  Particion, filtrar, obtener_posicion, obtener_posicion_desde,
}
use sistemas_operativos_utn.Particiones.Forma.{Contigua, Lugar, total}

-- No entry passes the test.
abbrev pub Ninguna : (Particion → Bool) → List Particion → Type 0
Ninguna test = Todas (λ p. test p ≡ false)

-- The filter over a table in two parts.
pub filtrar-append :
    (test : Particion → Bool) (k j : ℕ) (xs ys : List Particion)
    → j ≡ k + length xs
    → filtrar test k (xs ++ ys) ≡ filtrar test k xs ++ filtrar test j ys
unfolding filtrar
filtrar-append test k j [] ys e = ap (λ i. filtrar test i ys) (omega arith)
filtrar-append test k j (x ∷ xs) ys e =
    ground (arith, filtrar-append test (suc k) j xs ys (omega arith))

abbrev pub Pasa : (Particion → Bool) → List Particion → ℕ × Particion → Type 0
Pasa test tabla c = Lugar tabla c.0 c.1 × (test c.1 ≡ true)

filtrar-Pasa_desde :
    (test : Particion → Bool) (tabla antes ps : List Particion) (k : ℕ)
    → tabla ≡ antes ++ ps
    → k ≡ length antes
    → Todas (Pasa test tabla) (filtrar test k ps)
unfolding filtrar
filtrar-Pasa_desde test tabla antes [] k e ek = tt
filtrar-Pasa_desde test tabla antes (p ∷ ps) k e ek =
    let resto : Todas (Pasa test tabla) (filtrar test (suc k) ps) =
      filtrar-Pasa_desde test tabla (antes ++ (p ∷ [])) ps (suc k)
        (e ∙ sym (append_assoc antes (p ∷ []) ps)) (omega (arith, length-append antes (p ∷ []))) in
    elim (Bool-cases (test p)) [
      | inl h ↦ rw h ((record { antes = antes; despues = ps; partes = e; indice = ek }, h), resto)
      | inr h ↦ rw h resto
    ]

-- What the filter keeps stands in the table and passes the test.
pub filtrar-Pasa :
    (test : Particion → Bool) (tabla : List Particion)
    → Todas (Pasa test tabla) (filtrar test 0 tabla)
filtrar-Pasa test tabla = filtrar-Pasa_desde test tabla [] tabla 0 refl refl

-- In a contiguous table an entry begins where the entries before it end.
pub Contigua-inicio :
    (p : Particion) (j : ℕ) (xs ys : List Particion)
    → Contigua j (xs ++ (p ∷ ys))
    → p.posicion_inicial ≡ j + total xs
Contigua-inicio p j [] ys c = omega arith
Contigua-inicio p j (x ∷ xs) ys c = omega (arith, Contigua-inicio p (j + x.size) xs ys c.3)

obtener_posicion_desde-Contigua :
    (p : Particion) (j k : ℕ) (xs ys : List Particion)
    → Contigua j (xs ++ (p ∷ ys))
    → obtener_posicion_desde p k (xs ++ (p ∷ ys)) ≡ some (k + length xs)
unfolding obtener_posicion_desde
obtener_posicion_desde-Contigua p j k [] ys c =
    ground (arith, ==-refl p.id, ==-refl p.posicion_inicial)
obtener_posicion_desde-Contigua p j k (x ∷ xs) ys c = ground (
  arith,
  Contigua-inicio p (j + x.size) xs ys c.3,
  obtener_posicion_desde-Contigua p (j + x.size) (suc k) xs ys c.3,
)

-- In a contiguous table `obtenerPosicion` finds the index of the entry that it is given.
pub obtener_posicion-Lugar :
    {tabla : List Particion} {i : ℕ} {p : Particion}
    → Contigua 0 tabla
    → Lugar tabla i p
    → obtener_posicion p tabla ≡ some i
unfolding obtener_posicion
obtener_posicion-Lugar {tabla} {i} {p} c l =
    rw (l.partes, l.indice)
      (obtener_posicion_desde-Contigua p 0 0 l.antes l.despues (rw l.partes at c)
        ∙ ap some (omega arith))
