-- ===== src/Particiones/Liberacion/Victima.antt =====
-- `algoritmoFIFO` and `algoritmoLRU`: the occupied partition of the least id.
use sistemas_operativos_utn.Base.{
  ℕ, suc, ◌≤◌, ◌≡◌, ◌≢◌, refl, true, List, [], ◌∷◌, arith, inl, inr, some, none, Option,
  if◌then◌else◌, Bool-cases, ltb,
}
use sistemas_operativos_utn.Particiones.Tabla.{Particion, filtrar, particion_candidata_victima}
use sistemas_operativos_utn.Particiones.Forma.{Guardado, mensajes, Lugar}
use sistemas_operativos_utn.Base.{Todas}
use sistemas_operativos_utn.Particiones.Punteros.{Pasa, filtrar-Pasa}
use sistemas_operativos_utn.Particiones.Ajuste.{menor_id, menor_de, algoritmo_fifo, algoritmo_lru}

abbrev DesdeId : ℕ → List (ℕ × Particion) → Type 0
DesdeId k = Todas (λ c. k ≤ c.1.id)

DesdeId-le : {j k : ℕ} (cs : List (ℕ × Particion)) → j ≤ k → DesdeId k cs → DesdeId j cs
DesdeId-le [] h d = tt
DesdeId-le (c ∷ cs) h d = (omega arith, DesdeId-le cs h d.1)

-- The loop keeps to its list and finds the least id of it.
menor_id-le :
    (v : ℕ × Particion) (cs : List (ℕ × Particion))
    → ((menor_id v cs).1.id ≤ v.1.id) × DesdeId (menor_id v cs).1.id cs
unfolding menor_id
menor_id-le v [] = (omega arith, tt)
menor_id-le v (c ∷ cs) =
    let (a, b) = menor_id-le (if ltb c.1.id v.1.id then c else v) cs in
    (ground (arith, a), (ground (arith, a), b))

menor_id-Todas {ℓ} :
    (P : ℕ × Particion → Type ℓ) (v : ℕ × Particion) (cs : List (ℕ × Particion))
    → P v
    → Todas P cs
    → P (menor_id v cs)
unfolding menor_id
menor_id-Todas P v [] h hs = h
menor_id-Todas P v (c ∷ cs) h hs = elim (Bool-cases (ltb c.1.id v.1.id)) [
  | inl e ↦ rw e (menor_id-Todas P c cs hs.0 hs.1)
  | inr e ↦ rw e (menor_id-Todas P v cs h hs.1)
]

-- The ids of the occupied entries are those of the messages.
mensajes-DesdeId :
    (k i : ℕ) (ps : List Particion)
    → DesdeId k (filtrar particion_candidata_victima i ps)
    → Todas (λ (g : Guardado). k ≤ g.id) (mensajes ps)
unfolding filtrar particion_candidata_victima
mensajes-DesdeId k i [] d = tt
mensajes-DesdeId k i (p ∷ ps) d = elim (Bool-cases p.ocupada) [
  | inl e ↦
      let d' = rw (e, filtrar, particion_candidata_victima) at d in
      rw e (d'.0, mensajes-DesdeId k (suc i) ps d'.1)
  | inr e ↦ rw e (mensajes-DesdeId k (suc i) ps (rw (e, filtrar, particion_candidata_victima) at d))
]

-- A victim: an occupied entry of the table, of the least id in it.
pub record Victima (tabla : List Particion) (r : Option (ℕ × Particion)) : Type 0 where
  pub i : ℕ
  pub p : Particion
  pub elegida : r ≡ some (i, p)
  pub lugar : Lugar tabla i p
  pub ocupada : p.ocupada ≡ true
  pub minima : Todas (λ (g : Guardado). p.id ≤ g.id) (mensajes tabla)

-- No entry is occupied exactly where there is no message.
mensajes-nil :
    (i : ℕ) (ps : List Particion) → filtrar particion_candidata_victima i ps ≡ [] → mensajes ps ≡ []
unfolding filtrar particion_candidata_victima
mensajes-nil i [] e = refl
mensajes-nil i (p ∷ ps) e = ground (arith, mensajes-nil (suc i) ps)

filtrar-nil :
    (i : ℕ) (ps : List Particion) → mensajes ps ≡ [] → filtrar particion_candidata_victima i ps ≡ []
unfolding filtrar particion_candidata_victima
filtrar-nil i [] e = refl
filtrar-nil i (p ∷ ps) e = ground (arith, filtrar-nil (suc i) ps)

elegir-Victima :
    (tabla : List Particion) (cs : List (ℕ × Particion))
    → Todas (Pasa particion_candidata_victima tabla) cs
    → ((k : ℕ) → DesdeId k cs → Todas (λ (g : Guardado). k ≤ g.id) (mensajes tabla))
    → cs ≢ []
    → Victima tabla (menor_de cs)
unfolding menor_de particion_candidata_victima
elegir-Victima tabla [] a m e = absurd (e refl)
elegir-Victima tabla (c ∷ cs) a m e =
    let v = menor_id c cs in
    let (j, k) = menor_id-le c cs in
    let b = menor_id-Todas (Pasa particion_candidata_victima tabla) c cs a.0 a.1 in
    record {
      i = v.0;
      p = v.1;
      elegida = refl;
      lugar = b.0;
      ocupada = b.1;
      minima = m v.1.id (j, k);
    }

-- There is a victim where there is a message, and none where there is no message.
menor_de-Victima :
    (tabla : List Particion)
    → mensajes tabla ≢ []
    → Victima tabla (menor_de (filtrar particion_candidata_victima 0 tabla))
menor_de-Victima tabla h =
    elegir-Victima tabla (filtrar particion_candidata_victima 0 tabla) (filtrar-Pasa _ tabla)
      (λ k. mensajes-DesdeId k 0 tabla) (λ e. h (mensajes-nil 0 tabla e))

pub algoritmo_fifo-Victima :
    (tabla : List Particion) → mensajes tabla ≢ [] → Victima tabla (algoritmo_fifo tabla)
unfolding algoritmo_fifo
algoritmo_fifo-Victima tabla h = menor_de-Victima tabla h

pub algoritmo_lru-Victima :
    (tabla : List Particion) → mensajes tabla ≢ [] → Victima tabla (algoritmo_lru tabla)
unfolding algoritmo_lru
algoritmo_lru-Victima tabla h = menor_de-Victima tabla h

pub algoritmo_fifo-none :
    (tabla : List Particion) → mensajes tabla ≡ [] → algoritmo_fifo tabla ≡ none
unfolding algoritmo_fifo menor_de
algoritmo_fifo-none tabla h = rw (filtrar-nil 0 tabla h)

pub algoritmo_lru-none : (tabla : List Particion) → mensajes tabla ≡ [] → algoritmo_lru tabla ≡ none
unfolding algoritmo_lru menor_de
algoritmo_lru-none tabla h = rw (filtrar-nil 0 tabla h)
