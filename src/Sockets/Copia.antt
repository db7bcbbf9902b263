-- ===== src/Sockets/Copia.antt =====
-- The serializations fill their block exactly: the copies stay inside it and leave none of its old
-- bytes. And what `recv` reads back from such a block.
use sistemas_operativos_utn.Base.{
  ℕ, zero, suc, ◌+◌, ◌^◌, ◌<◌, ◌≤◌, ◌≡◌, refl, sym, ap, ◌∙◌, some, List, [], ◌∷◌, ◌++◌, length,
  arith, length-append, append_assoc, le→leb,
}
use sistemas_operativos_utn.Sockets.Bytes.{
  take, drop, bytes_de, entero_de, memcpy, copiar, recv, recv_entero,
}
use sistemas_operativos_utn.Sockets.Serializacion.{Paquete, campos_paquete, serializar_campos}

abbrev pub juntar : List (List ℕ) → List ℕ
juntar [] = []
juntar (b ∷ bs) = b ++ juntar bs

pub juntar-append : (bs cs : List (List ℕ)) → juntar (bs ++ cs) ≡ juntar bs ++ juntar cs
juntar-append [] cs = refl
juntar-append (b ∷ bs) cs =
    ap (◌++◌ b) (juntar-append bs cs) ∙ sym (append_assoc b (juntar bs) (juntar cs))

take-append : (n : ℕ) (xs ys : List ℕ) → n ≡ length xs → take n (xs ++ ys) ≡ xs
take-append zero [] ys e = refl
take-append (suc n) [] ys e = absurd (omega arith)
take-append zero (x ∷ xs) ys e = absurd (omega arith)
take-append (suc n) (x ∷ xs) ys e = ap (◌∷◌ x) (take-append n xs ys (omega arith))

pub take_todo : (n : ℕ) (xs : List ℕ) → n ≡ length xs → take n xs ≡ xs
take_todo zero [] e = refl
take_todo (suc n) [] e = refl
take_todo zero (x ∷ xs) e = absurd (omega arith)
take_todo (suc n) (x ∷ xs) e = ap (◌∷◌ x) (take_todo n xs (omega arith))

drop-append : (n k : ℕ) (xs ys : List ℕ) → n ≡ length xs + k → drop n (xs ++ ys) ≡ drop k ys
drop-append n k [] ys e = ap (λ j. drop j ys) (omega arith)
drop-append zero k (x ∷ xs) ys e = absurd (omega arith)
drop-append (suc n) k (x ∷ xs) ys e = drop-append n k xs ys (omega arith)

length-drop : (n : ℕ) (xs : List ℕ) → n ≤ length xs → length (drop n xs) + n ≡ length xs
length-drop zero xs h = omega arith
length-drop (suc n) [] h = absurd (omega arith)
length-drop (suc n) (x ∷ xs) h = omega (arith, length-drop n xs (omega arith))

memcpy-append :
    (pre viejo b : List ℕ) (d : ℕ)
    → d ≡ length pre
    → length b ≤ length viejo
    → memcpy (pre ++ viejo) d b ≡ some ((pre ++ b) ++ drop (length b) viejo)
unfolding memcpy
memcpy-append pre viejo b d e h = rw (
  le→leb (d + length b) (length (pre ++ viejo)) (omega (arith, length-append pre viejo)),
  take-append d pre viejo e,
  drop-append (d + length b) (length b) pre viejo (omega arith),
  append_assoc pre b (drop (length b) viejo),
)

-- Copies that fit leave the block with their bytes in place of the old ones.
copiar_lem :
    (bs : List (List ℕ)) (pre viejo : List ℕ) (d : ℕ)
    → d ≡ length pre
    → length (juntar bs) ≡ length viejo
    → copiar bs d (pre ++ viejo) ≡ some (pre ++ juntar bs)
unfolding copiar
copiar_lem [] pre [] d e h = refl
copiar_lem [] pre (v ∷ viejo) d e h = absurd (omega arith)
copiar_lem (b ∷ bs) pre viejo d e h =
    let cabe : length b ≤ length viejo = omega (arith, length-append b (juntar bs)) in
    rw (memcpy-append pre viejo b d e cabe) (
      copiar_lem bs (pre ++ b) (drop (length b) viejo) (d + length b)
        (omega (arith, length-append pre b))
        (omega (arith, length-append b (juntar bs), length-drop (length b) viejo cabe))
      ∙ ap some (append_assoc pre b (juntar bs)))

pub length-bytes_de : (n : ℕ) → length (bytes_de n) ≡ 4
unfolding bytes_de
length-bytes_de n = refl

-- The bytes of a packet: its header, then its fields.
abbrev pub imagen : Paquete → List (List ℕ) → List ℕ
imagen p campos = juntar (campos_paquete p ++ campos)

pub length-imagen :
    (p : Paquete) (campos : List (List ℕ)) → length (imagen p campos) ≡ 12 + length (juntar campos)
unfolding bytes_de
length-imagen p campos = omega arith

pub serializar_campos_lem :
    (malloc : ℕ → List ℕ) (p : Paquete) (bytes : ℕ) (campos : List (List ℕ))
    → length (malloc bytes) ≡ bytes
    → bytes ≡ 12 + length (juntar campos)
    → serializar_campos malloc p bytes campos ≡ some (imagen p campos, bytes)
unfolding serializar_campos
serializar_campos_lem malloc p bytes campos h e = rw (
    copiar_lem (campos_paquete p ++ campos) [] (malloc bytes) 0 refl
      (omega (arith, length-imagen p campos)))

pub recv-append : (n : ℕ) (xs ys : List ℕ) → n ≡ length xs → recv n (xs ++ ys) ≡ some (xs, ys)
unfolding recv
recv-append n xs ys e = rw (
  le→leb n (length (xs ++ ys)) (omega (arith, length-append xs ys)),
  take-append n xs ys e,
  drop-append n 0 xs ys (omega arith),
)

entero_de-bytes_de : (n : ℕ) → n < 2 ^ 32 → entero_de (bytes_de n) ≡ some n
unfolding entero_de bytes_de
entero_de-bytes_de n h = ap some (omega arith)

-- An `int32_t` comes back from its four bytes.
pub recv_entero-bytes_de :
    (n : ℕ) (ys : List ℕ) → n < 2 ^ 32 → recv_entero (bytes_de n ++ ys) ≡ some (n, ys)
unfolding recv_entero
recv_entero-bytes_de n ys h =
    rw (recv-append 4 (bytes_de n) ys (omega (arith, length-bytes_de n)), entero_de-bytes_de n h)
