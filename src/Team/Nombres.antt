-- ===== src/Team/Nombres.antt =====
-- Names that are the same, but for the case of their letters, pass the same tests.
use sistemas_operativos_utn.Base.{
  ℕ, ◌≡◌, sym, ◌∙◌, Bool, true, List, arith, if◌then◌else◌, Bool-cases, inl, inr,
}
use sistemas_operativos_utn.Team.Entrenador.{EsIgualdad}

abbrev pub uno : Bool → ℕ
uno b = if b then 1 else 0

module _ (igual : List ℕ → List ℕ → Bool) (ei : EsIgualdad igual) where
  pub igual_mismo : (n a b : List ℕ) → igual a b ≡ true → igual n a ≡ igual n b
  igual_mismo n a b e = elim (Bool-cases (igual n a)) [
    | inl h ↦ h ∙ sym (ei.transitiva n a b h e)
    | inr h ↦ elim (Bool-cases (igual n b)) [
      | inl k ↦ ground (arith, h, ei.transitiva n b a k (ei.simetrica a b e))
      | inr k ↦ h ∙ sym k
    ]
  ]

  pub igual_vuelta : (a b : List ℕ) → igual a b ≡ igual b a
  igual_vuelta a b = elim (Bool-cases (igual a b)) [
    | inl h ↦ h ∙ sym (ei.simetrica a b h)
    | inr h ↦ elim (Bool-cases (igual b a)) [
      | inl k ↦ ground (arith, h, ei.simetrica b a k)
      | inr k ↦ h ∙ sym k
    ]
  ]
