-- ===== src/Particiones/Consolidacion/Union.antt =====
-- `consolidarParticion` on a free entry of a contiguous table, in its two halves and as a whole.
use sistemas_operativos_utn.Base.{
  suc, ◌+◌, ◌≡◌, refl, sym, ap, true, false, not, List, [], ◌∷◌, ◌++◌, length, arith, inl, inr,
  some, Bool-cases, append_assoc, length-append, get_elem?-append, set-append, remove_at-append,
}
use sistemas_operativos_utn.Particiones.Tabla.{Particion}
use sistemas_operativos_utn.Particiones.Forma.{
  Contigua, total, mensajes, Separadas, libre_al_inicio, libre_al_final,
}
use sistemas_operativos_utn.Particiones.Forma.Partes.{
  total-append, Contigua-split, Contigua-join, Separadas-split, Contigua-at, mensajes-snoc_libre,
  snoc_cases, libre_al_final-snoc,
}
use sistemas_operativos_utn.Particiones.Consolidacion.{consolidar_anterior, consolidar_siguiente}

-- The free entry between `xs` and `ys` after the first half: what is before it now, and the entry.
pub record Anterior (xs : List Particion) (p : Particion) (ys : List Particion) : Type 0 where
  pub izq : List Particion
  pub q : Particion
  pub hecho : consolidar_anterior (xs ++ (p ∷ ys)) (length xs) ≡ some (izq ++ (q ∷ ys), length izq)
  pub seguidas : Contigua 0 (izq ++ (q ∷ ys))
  pub suma : total izq + q.size ≡ total xs + p.size
  pub iguales : mensajes izq ≡ mensajes xs
  pub libre : q.ocupada ≡ false
  pub separadas : Separadas izq
  pub final : libre_al_final izq ≡ false

pub anterior_ocupada :
    (zs : List Particion) (a p : Particion) (ys : List Particion)
    → a.ocupada ≡ true
    → consolidar_anterior (zs ++ (a ∷ (p ∷ ys))) (suc (length zs))
      ≡ some (zs ++ (a ∷ (p ∷ ys)), suc (length zs))
unfolding consolidar_anterior
anterior_ocupada zs a p ys h = ground (
  arith,
  get_elem?-append zs (a ∷ (p ∷ ys)) (suc (length zs)) 1,
  get_elem?-append zs (a ∷ (p ∷ ys)) (length zs) 0,
)

abbrev unida_atras : Particion → Particion → Particion
unida_atras a p = record p { posicion_inicial = a.posicion_inicial; size = p.size + a.size }

anterior_libre :
    (zs : List Particion) (a p : Particion) (ys : List Particion)
    → a.ocupada ≡ false
    → consolidar_anterior (zs ++ (a ∷ (p ∷ ys))) (suc (length zs))
      ≡ some (zs ++ (unida_atras a p ∷ ys), length zs)
unfolding consolidar_anterior
anterior_libre zs a p ys h = ground (
  arith,
  get_elem?-append zs (a ∷ (p ∷ ys)) (suc (length zs)) 1,
  get_elem?-append zs (a ∷ (p ∷ ys)) (length zs) 0,
  set-append zs (a ∷ (p ∷ ys)) (suc (length zs)) 1 (unida_atras a p),
  remove_at-append zs (a ∷ (unida_atras a p ∷ ys)) (length zs) 0,
)

Anterior-snoc :
    (zs : List Particion) (a p : Particion) (ys : List Particion)
    → Contigua 0 (zs ++ (a ∷ (p ∷ ys)))
    → Separadas (zs ++ (a ∷ []))
    → p.ocupada ≡ false
    → Anterior (zs ++ (a ∷ [])) p ys
Anterior-snoc zs a p ys c s h =
    let largo : length (zs ++ (a ∷ [])) ≡ suc (length zs) =
      omega (arith, length-append zs (a ∷ [])) in
    let (cz, ca) = Contigua-split 0 zs (a ∷ (p ∷ ys)) c in
    let (sz, sa, sf) = Separadas-split zs (a ∷ []) s in
    elim (Bool-cases a.ocupada) [
      | inl o ↦ record {
        izq = zs ++ (a ∷ []);
        q = p;
        hecho = rw (largo, append_assoc zs (a ∷ []) (p ∷ ys)) (anterior_ocupada zs a p ys o);
        seguidas = rw (append_assoc zs (a ∷ []) (p ∷ ys)) c;
        suma = refl;
        iguales = refl;
        libre = h;
        separadas = s;
        final = rw libre_al_final-snoc (ap not o);
      }
      | inr l ↦ record {
        izq = zs;
        q = unida_atras a p;
        hecho = rw (largo, append_assoc zs (a ∷ []) (p ∷ ys)) (anterior_libre zs a p ys l);
        seguidas =
            Contigua-join 0 (0 + total zs) zs (unida_atras a p ∷ ys) refl cz
              (ca.0, omega arith, omega arith, Contigua-at ys (omega arith) ca.3.3);
        suma = omega (arith, total-append zs (a ∷ []));
        iguales = sym (mensajes-snoc_libre zs a l);
        libre = h;
        separadas = sz;
        final = ground arith;
      }
    ]

pub anterior_lem :
    (xs : List Particion) (p : Particion) (ys : List Particion)
    → Contigua 0 (xs ++ (p ∷ ys))
    → Separadas xs
    → p.ocupada ≡ false
    → Anterior xs p ys
anterior_lem xs p ys c s h = elim (snoc_cases xs) [
  | inl e ↦ rw e (record {
    izq = [];
    q = p;
    hecho = unfold consolidar_anterior in refl;
    seguidas = rw e at c;
    suma = refl;
    iguales = refl;
    libre = h;
    separadas = tt;
    final = refl;
  })
  | inr (zs, a, e) ↦
      rw e (Anterior-snoc zs a p ys (rw (e, append_assoc zs (a ∷ []) (p ∷ ys)) at c) (rw e at s) h)
]

abbrev pub unida_adelante : Particion → Particion → Particion
unida_adelante q s = record q { posicion_final = s.posicion_final; size = q.size + s.size }

siguiente_fin :
    (izq : List Particion) (q : Particion)
    → consolidar_siguiente (izq ++ (q ∷ [])) (length izq) ≡ some (izq ++ (q ∷ []))
unfolding consolidar_siguiente
siguiente_fin izq q = ground (arith, length-append izq (q ∷ []))

siguiente_ocupada :
    (izq : List Particion) (q s : Particion) (rs : List Particion)
    → s.ocupada ≡ true
    → consolidar_siguiente (izq ++ (q ∷ (s ∷ rs))) (length izq) ≡ some (izq ++ (q ∷ (s ∷ rs)))
unfolding consolidar_siguiente
siguiente_ocupada izq q s rs h = ground (
  arith,
  length-append izq (q ∷ (s ∷ rs)),
  get_elem?-append izq (q ∷ (s ∷ rs)) (length izq) 0,
  get_elem?-append izq (q ∷ (s ∷ rs)) (suc (length izq)) 1,
)

pub siguiente_libre :
    (izq : List Particion) (q s : Particion) (rs : List Particion)
    → s.ocupada ≡ false
    → consolidar_siguiente (izq ++ (q ∷ (s ∷ rs))) (length izq)
      ≡ some (izq ++ (unida_adelante q s ∷ rs))
unfolding consolidar_siguiente
siguiente_libre izq q s rs h = ground (
  arith,
  length-append izq (q ∷ (s ∷ rs)),
  get_elem?-append izq (q ∷ (s ∷ rs)) (length izq) 0,
  get_elem?-append izq (q ∷ (s ∷ rs)) (suc (length izq)) 1,
  set-append izq (q ∷ (s ∷ rs)) (length izq) 0 (unida_adelante q s),
  remove_at-append izq (unida_adelante q s ∷ (s ∷ rs)) (suc (length izq)) 1,
)

-- The second half: the entry is joined with a free entry behind it.
pub record Siguiente (izq : List Particion) (q : Particion) (ys : List Particion) : Type 0 where
  pub u : Particion
  pub der : List Particion
  pub hecho : consolidar_siguiente (izq ++ (q ∷ ys)) (length izq) ≡ some (izq ++ (u ∷ der))
  pub seguidas : Contigua 0 (izq ++ (u ∷ der))
  pub suma : u.size + total der ≡ q.size + total ys
  pub iguales : mensajes der ≡ mensajes ys
  pub libre : u.ocupada ≡ false
  pub separadas : Separadas der
  pub inicio : libre_al_inicio der ≡ false

pub siguiente_lem :
    (izq : List Particion) (q : Particion) (ys : List Particion)
    → Contigua 0 (izq ++ (q ∷ ys))
    → Separadas ys
    → q.ocupada ≡ false
    → Siguiente izq q ys
siguiente_lem izq q [] c s h = record {
  u = q;
  der = [];
  hecho = siguiente_fin izq q;
  seguidas = c;
  suma = refl;
  iguales = refl;
  libre = h;
  separadas = tt;
  inicio = refl;
}
siguiente_lem izq q (r ∷ rs) c s h =
    let (ci, cq) = Contigua-split 0 izq (q ∷ (r ∷ rs)) c in
    elim (Bool-cases r.ocupada) [
      | inl o ↦ record {
        u = q;
        der = r ∷ rs;
        hecho = siguiente_ocupada izq q r rs o;
        seguidas = c;
        suma = refl;
        iguales = refl;
        libre = h;
        separadas = s;
        inicio = ap not o;
      }
      | inr l ↦ record {
        u = unida_adelante q r;
        der = rs;
        hecho = siguiente_libre izq q r rs l;
        seguidas =
            Contigua-join 0 (0 + total izq) izq (unida_adelante q r ∷ rs) refl ci
              (cq.0, omega arith, omega arith, Contigua-at rs (omega arith) cq.3.3);
        suma = omega arith;
        iguales = rw l;
        libre = h;
        separadas = s.1;
        inicio = ground arith;
      }
    ]
