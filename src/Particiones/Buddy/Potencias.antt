-- ===== src/Particiones/Buddy/Potencias.antt =====
-- Broker/src/Particiones.c: `tamanioMinimo` finds the least power of two in which a message fits.
use sistemas_operativos_utn.Base.{
  ℕ, zero, suc, ◌+◌, ◌≡◌, ◌≤◌, ◌<◌, ◌*◌, ◌%◌, ◌^◌, refl, subst, arith, ◌==◌, ltb, Bool-cases, inl,
  inr,
}
use sistemas_operativos_utn.Particiones.Buddy.{
  tamanio_minimo, tamanio_minimo_desde, menor_con_signo,
}

-- 2 to a power, by doubling.
abbrev pub potencia : ℕ → ℕ
potencia zero = 1
potencia (suc k) = potencia k + potencia k

pub potencia-pos : (k : ℕ) → 0 < potencia k
potencia-pos zero = omega arith
potencia-pos (suc k) = omega (arith, potencia-pos k)

pub potencia-le : (j k : ℕ) → j ≤ k → potencia j ≤ potencia k
potencia-le zero k h = omega (arith, potencia-pos k)
potencia-le (suc j) zero h = omega arith
potencia-le (suc j) (suc k) h = omega (arith, potencia-le j k (omega arith))

-- A power of two in which the size fits, and no larger than any other.
pub record MenorPotencia (size r : ℕ) : Type 0 where
  pub k : ℕ
  pub es : r ≡ potencia k
  pub cabe : size ≤ r
  pub menor : (j : ℕ) → size ≤ potencia j → r ≤ potencia j

menor_con_signo-ltb : (a b : ℕ) → a < 2 ^ 31 → b < 2 ^ 31 → menor_con_signo a b ≡ ltb a b
unfolding menor_con_signo
menor_con_signo-ltb a b h k =
    let sin_vuelta_a : (a + 2 ^ 31) % 2 ^ 32 ≡ a + 2 ^ 31 = omega arith in
    let sin_vuelta_b : (b + 2 ^ 31) % 2 ^ 32 ≡ b + 2 ^ 31 = omega arith in
    rw (sin_vuelta_a, sin_vuelta_b) (ground arith)

desde-MenorPotencia :
    (f size k : ℕ)
    → size ≤ 2 ^ 30
    → potencia k < 2 ^ 31
    → size ≤ potencia k + f
    → ((j : ℕ) → size ≤ potencia j → k ≤ j)
    → MenorPotencia size (tamanio_minimo_desde f size (potencia k))
unfolding tamanio_minimo_desde
desde-MenorPotencia zero size k c30 c31 h m = record {
  k = k;
  es = refl;
  cabe = omega arith;
  menor = λ j c. potencia-le k j (m j c);
}
desde-MenorPotencia (suc f) size k c30 c31 h m =
    let signo = menor_con_signo-ltb (potencia k) size c31 (omega arith) in
    elim (Bool-cases (ltb (potencia k) size)) [
      | inl e ↦
          let menos : potencia k < size = ground arith in
          let doble : potencia (suc k) ≡ potencia k * 2 % 2 ^ 32 = omega arith in
          rw (signo, e)
            (subst (λ r. MenorPotencia size (tamanio_minimo_desde f size r)) doble
              (desde-MenorPotencia f size (suc k) c30 (omega arith) (omega (arith, potencia-pos k))
                (λ j c. siguiente j c (m j c) menos)))
      | inr e ↦
          rw (signo, e)
            (record {
              k = k;
              es = refl;
              cabe = ground arith;
              menor = λ j c. potencia-le k j (m j c);
            })
    ]
  where
    siguiente : (j : ℕ) → size ≤ potencia j → k ≤ j → potencia k < size → suc k ≤ j
    siguiente j c l g = elim (Bool-cases (ltb k j)) [
      | inl e ↦ ground arith
      | inr e ↦
          let ig : j ≡ k = ground arith in
          let c' : size ≤ potencia k = subst (λ i. size ≤ potencia i) ig c in omega arith
    ]

-- For a message that is not empty and of at most 2 ^ 30 bytes the loop of `tamanioMinimo` ends, in
-- numbers of 32 bits, and its answer is the least power of two that is not smaller than the message.
pub tamanio_minimo-MenorPotencia :
    (size_msg : ℕ)
    → 0 < size_msg
    → size_msg ≤ 2 ^ 30
    → MenorPotencia size_msg (tamanio_minimo size_msg)
unfolding tamanio_minimo
tamanio_minimo-MenorPotencia size h c = elim (Bool-cases (size == 1)) [
  | inl e ↦ rw e (record {
    k = 0;
    es = refl;
    cabe = ground arith;
    menor = λ j c. omega (arith, potencia-pos j);
  })
  | inr e ↦ rw e (
      desde-MenorPotencia size size 1 c (omega arith) (omega arith)
        (λ j d. uno_o_mas j d (ground arith)))
]
  where
    uno_o_mas : (j : ℕ) → size ≤ potencia j → 1 < size → 1 ≤ j
    uno_o_mas zero c g = omega arith
    uno_o_mas (suc j) c g = omega arith
