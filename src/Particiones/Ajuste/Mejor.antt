-- ===== src/Particiones/Ajuste/Mejor.antt =====
-- The loop of `getParticionBestFit` over a list of candidates.
use sistemas_operativos_utn.Base.{
  ℕ, ◌≤◌, ◌≡◌, ◌≢◌, refl, ap, sym, subst, true, false, List, [], ◌∷◌, ◌++◌, arith, some, ◌==◌,
  if◌then◌else◌, ltb, Bool-cases, inl, inr,
}
use sistemas_operativos_utn.Particiones.Tabla.{Particion}
use sistemas_operativos_utn.Base.{Todas}
use sistemas_operativos_utn.Particiones.Ajuste.{mejor_ajuste, mejor_de}

-- None of the candidates fits exactly.
abbrev pub SinExacta : ℕ → List (ℕ × Particion) → Type 0
SinExacta s = Todas (λ c. (c.1.size == s) ≡ false)

abbrev pub Caben : ℕ → List (ℕ × Particion) → Type 0
Caben s = Todas (λ c. s ≤ c.1.size)

mejor_ajuste-Todas {ℓ} :
    (P : ℕ × Particion → Type ℓ) (s : ℕ) (m : ℕ × Particion) (cs : List (ℕ × Particion))
    → P m
    → Todas P cs
    → P (mejor_ajuste s m cs)
unfolding mejor_ajuste
mejor_ajuste-Todas P s m [] h hs = h
mejor_ajuste-Todas P s m (c ∷ cs) h hs = elim (Bool-cases (c.1.size == s)) [
  | inl e ↦ rw e hs.0
  | inr e ↦ rw e (elim (Bool-cases (ltb c.1.size m.1.size)) [
    | inl l ↦ rw l (mejor_ajuste-Todas P s c cs hs.0 hs.1)
    | inr l ↦ rw l (mejor_ajuste-Todas P s m cs h hs.1)
  ])
]

mejor_ajuste_si :
    (s : ℕ) (m c : ℕ × Particion) (cs : List (ℕ × Particion))
    → (c.1.size == s) ≡ true
    → mejor_ajuste s m (c ∷ cs) ≡ c
unfolding mejor_ajuste
mejor_ajuste_si s m c cs e = rw e

mejor_ajuste_sigue :
    (s : ℕ) (m c : ℕ × Particion) (cs : List (ℕ × Particion))
    → (c.1.size == s) ≡ false
    → mejor_ajuste s m (c ∷ cs) ≡ mejor_ajuste s (if ltb c.1.size m.1.size then c else m) cs
unfolding mejor_ajuste
mejor_ajuste_sigue s m c cs e = rw e

Caben-justa : (j k : ℕ) (cs : List (ℕ × Particion)) → j ≡ k → Caben k cs → Caben j cs
Caben-justa j k cs e d = rw e d

-- The loop finds the least size.
mejor_ajuste-le :
    (s : ℕ) (m : ℕ × Particion) (cs : List (ℕ × Particion))
    → s ≤ m.1.size
    → Caben s cs
    → ((mejor_ajuste s m cs).1.size ≤ m.1.size) × Caben (mejor_ajuste s m cs).1.size cs
mejor_ajuste-le s m [] h hs = unfold mejor_ajuste in (omega arith, tt)
mejor_ajuste-le s m (c ∷ cs) h hs = elim (Bool-cases (c.1.size == s)) [
  | inl e ↦
      subst (λ (d : ℕ × Particion). (d.1.size ≤ m.1.size) × Caben d.1.size (c ∷ cs))
        (sym (mejor_ajuste_si s m c cs e))
        (ground arith, (omega arith, Caben-justa c.1.size s cs (ground arith) hs.1))
  | inr e ↦
      let (a, b) =
        mejor_ajuste-le s (if ltb c.1.size m.1.size then c else m) cs (ground arith) hs.1 in
      subst (λ (d : ℕ × Particion). (d.1.size ≤ m.1.size) × Caben d.1.size (c ∷ cs))
        (sym (mejor_ajuste_sigue s m c cs e)) (ground (arith, a), (ground (arith, a), b))
]

-- A choice that is not exact shows that none of the candidates is; an exact one is found.
mejor_ajuste-SinExacta :
    (s : ℕ) (m : ℕ × Particion) (cs : List (ℕ × Particion))
    → ((mejor_ajuste s m cs).1.size == s) ≡ false
    → SinExacta s cs
unfolding mejor_ajuste
mejor_ajuste-SinExacta s m [] h = tt
mejor_ajuste-SinExacta s m (c ∷ cs) h = elim (Bool-cases (c.1.size == s)) [
  | inl e ↦ cc (e, rw (e, mejor_ajuste) at h)
  | inr e ↦ (
    e,
    mejor_ajuste-SinExacta s (if ltb c.1.size m.1.size then c else m) cs
        (rw (e, mejor_ajuste) at h),
  )
]

mejor_ajuste_exacta :
    (s : ℕ) (m : ℕ × Particion) (cs : List (ℕ × Particion)) (c : ℕ × Particion)
    (ds : List (ℕ × Particion))
    → SinExacta s cs
    → (c.1.size == s) ≡ true
    → mejor_ajuste s m (cs ++ (c ∷ ds)) ≡ c
unfolding mejor_ajuste
mejor_ajuste_exacta s m [] c ds n e = rw e
mejor_ajuste_exacta s m (b ∷ cs) c ds n e =
    rw n.0 (mejor_ajuste_exacta s (if ltb b.1.size m.1.size then b else m) cs c ds n.1 e)

pub mejor_de_exacta :
    (s : ℕ) (cs : List (ℕ × Particion)) (c : ℕ × Particion) (ds : List (ℕ × Particion))
    → SinExacta s cs
    → (c.1.size == s) ≡ true
    → mejor_de s (cs ++ (c ∷ ds)) ≡ some c
unfolding mejor_de
mejor_de_exacta s [] c ds n e = rw e
mejor_de_exacta s (b ∷ cs) c ds n e = rw n.0 (ap some (mejor_ajuste_exacta s b cs c ds n.1 e))

pub Todas-antes {ℓ} :
    (P : ℕ × Particion → Type ℓ) (cs ds : List (ℕ × Particion)) → Todas P (cs ++ ds) → Todas P cs
Todas-antes P [] ds h = tt
Todas-antes P (c ∷ cs) ds h = (h.0, Todas-antes P cs ds h.1)

-- What `mejor_de` finds in a list of candidates that fit.
pub record Optima (s : ℕ) (P : ℕ × Particion → Type 0) (cs : List (ℕ × Particion)) : Type 0 where
  pub c : ℕ × Particion
  pub hecho : mejor_de s cs ≡ some c
  pub cumple : P c
  pub minima : Caben c.1.size cs
  pub sin_exacta : (c.1.size == s) ≡ false → SinExacta s cs

pub mejor_de-Optima :
    (s : ℕ) (P : ℕ × Particion → Type 0) (cs : List (ℕ × Particion))
    → Todas P cs
    → Caben s cs
    → cs ≢ []
    → Optima s P cs
unfolding mejor_de
mejor_de-Optima s P [] h k e = absurd (e refl)
mejor_de-Optima s P (c ∷ cs) h k e = elim (Bool-cases (c.1.size == s)) [
  | inl x ↦ record {
    c = c;
    hecho = rw x;
    cumple = h.0;
    minima = (omega arith, Caben-justa c.1.size s cs (ground arith) k.1);
    sin_exacta = λ f. cc (x, f);
  }
  | inr x ↦
      let (a, b) = mejor_ajuste-le s c cs k.0 k.1 in
      record {
        c = mejor_ajuste s c cs;
        hecho = rw x;
        cumple = mejor_ajuste-Todas P s c cs h.0 h.1;
        minima = (a, b);
        sin_exacta = λ f. (x, mejor_ajuste-SinExacta s c cs f);
      }
]
