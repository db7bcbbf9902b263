-- ===== src/Particiones/Ajuste/Primero.antt =====
-- `getParticionFirstFit`: the first candidate of the table.
use sistemas_operativos_utn.Base.{
  ℕ, suc, ◌+◌, ◌≡◌, ◌≢◌, refl, ap, ◌∙◌, Bool, true, List, [], ◌∷◌, ◌++◌, length, arith, some,
  Bool-cases, inl, inr,
}
use sistemas_operativos_utn.Particiones.Tabla.{Particion, particion_candidata, filtrar}
use sistemas_operativos_utn.Particiones.Forma.{Lugar}
use sistemas_operativos_utn.Particiones.Punteros.{Ninguna}
use sistemas_operativos_utn.Particiones.Ajuste.{
  hay_particiones_candidatas, get_particion_first_fit, primera,
}
use sistemas_operativos_utn.Particiones.Ajuste.Eleccion.{EsEleccion, hay-ne-nil, candidata_justa}

pub primera-filtrar :
    (test : Particion → Bool) (i k : ℕ) (xs : List Particion) (p : Particion) (ys : List Particion)
    → Ninguna test xs
    → test p ≡ true
    → i ≡ k + length xs
    → primera (filtrar test k (xs ++ (p ∷ ys))) ≡ some (i, p)
unfolding primera filtrar
primera-filtrar test i k [] p ys n h e = rw h (ap (λ j. some (j, p)) (omega arith))
primera-filtrar test i k (x ∷ xs) p ys n h e =
    rw n.0 (primera-filtrar test i (suc k) xs p ys n.1 h (omega arith))

-- The first entry that passes a test.
record Inicial (test : Particion → Bool) (tabla : List Particion) : Type 0 where
  xs : List Particion
  p : Particion
  ys : List Particion
  partes : tabla ≡ xs ++ (p ∷ ys)
  ninguna : Ninguna test xs
  pasa : test p ≡ true

filtrar-Inicial :
    (test : Particion → Bool) (k : ℕ) (ps : List Particion)
    → filtrar test k ps ≢ []
    → Inicial test ps
unfolding filtrar
filtrar-Inicial test k [] h = absurd (h refl)
filtrar-Inicial test k (p ∷ ps) h = elim (Bool-cases (test p)) [
  | inl e ↦ record { xs = []; p = p; ys = ps; partes = refl; ninguna = tt; pasa = e }
  | inr e ↦
      let r = filtrar-Inicial test (suc k) ps (rw (e, filtrar) at h) in
      record {
        xs = p ∷ r.xs;
        p = r.p;
        ys = r.ys;
        partes = ap (◌∷◌ p) r.partes;
        ninguna = (e, r.ninguna);
        pasa = r.pasa;
      }
]

-- Where there is a candidate First Fit chooses one, and every entry before it is occupied or too
-- small.
pub record PrimerAjuste (s : ℕ) (tabla : List Particion) : Type 0 where
  pub i : ℕ
  pub p : Particion
  pub lugar : Lugar tabla i p
  pub hecho : get_particion_first_fit s tabla ≡ some (i, p)
  pub candidata : particion_candidata s p ≡ true
  pub primero : Ninguna (particion_candidata s) lugar.antes

pub get_particion_first_fit-PrimerAjuste :
    (s : ℕ) (tabla : List Particion)
    → hay_particiones_candidatas s tabla ≡ true
    → PrimerAjuste s tabla
unfolding get_particion_first_fit
get_particion_first_fit-PrimerAjuste s tabla h =
    let r = filtrar-Inicial (particion_candidata s) 0 tabla (hay-ne-nil s tabla h) in
    record {
      i = length r.xs;
      p = r.p;
      lugar = record { antes = r.xs; despues = r.ys; partes = r.partes; indice = refl };
      hecho =
          ap (λ t. primera (filtrar (particion_candidata s) 0 t)) r.partes
          ∙ primera-filtrar (particion_candidata s) (length r.xs) 0 r.xs r.p r.ys r.ninguna r.pasa
              (omega arith);
      candidata = r.pasa;
      primero = r.ninguna;
    }

pub get_particion_first_fit-EsEleccion : EsEleccion get_particion_first_fit
unfolding get_particion_first_fit
get_particion_first_fit-EsEleccion = record {
  elige = λ s tabla h.
      let f = get_particion_first_fit-PrimerAjuste s tabla h in
      record {
        i = f.i;
        p = f.p;
        lugar = f.lugar;
        hecho = f.hecho;
        candidata = f.candidata;
        al_partir = λ a b la ea ne.
            primera-filtrar (particion_candidata s) f.i 0 f.lugar.antes a (b ∷ f.lugar.despues)
              f.primero (candidata_justa s a la ea) (omega (arith, f.lugar.indice));
      };
}
