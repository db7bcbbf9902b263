-- ===== src/Sockets/Bytes.antt =====
-- OurLibraries/Sockets/sockets.c: what its functions use of the machine: `memcpy` into a block of
-- the heap, `recv` with MSG_WAITALL, and the four bytes of an `int32_t`, the lowest first.
--
-- A write past the end of the block, a read past the end of a name and a connection that ends
-- before the bytes asked have come are `none`.
use sistemas_operativos_utn.Base.{
  ℕ, zero, suc, ◌+◌, ◌*◌, ◌/◌, ◌%◌, Option, none, some, List, [], ◌∷◌, ◌++◌, length, leb,
  if◌then◌else◌, ◌>>=◌,
}

abbrev pub take : ℕ → List ℕ → List ℕ
take zero xs = []
take (suc n) [] = []
take (suc n) (x ∷ xs) = x ∷ take n xs

abbrev pub drop : ℕ → List ℕ → List ℕ
drop zero xs = xs
drop (suc n) [] = []
drop (suc n) (x ∷ xs) = drop n xs

unfoldable pub bytes_de : ℕ → List ℕ
bytes_de n = n % 256 ∷ (n / 256 % 256 ∷ (n / 65536 % 256 ∷ (n / 16777216 % 256 ∷ [])))

unfoldable pub entero_de : List ℕ → Option ℕ
entero_de (a ∷ (b ∷ (c ∷ (d ∷ [])))) = some (a + 256 * b + 65536 * c + 16777216 * d)
entero_de _ = none

-- `memcpy(stream + desplazamiento, bytes, length bytes)`.
unfoldable pub memcpy : List ℕ → ℕ → List ℕ → Option (List ℕ)
memcpy stream desplazamiento bytes =
    if leb (desplazamiento + length bytes) (length stream)
    then some (take desplazamiento stream ++ (bytes ++ drop (desplazamiento + length bytes) stream))
    else none

-- The copies of a serialization, one behind the other: `desplazamiento` grows by what was copied.
unfoldable pub copiar : List (List ℕ) → ℕ → List ℕ → Option (List ℕ)
unfolding memcpy
copiar [] desplazamiento stream = some stream
copiar (b ∷ bs) desplazamiento stream = do
  stream' ← memcpy stream desplazamiento b
  copiar bs (desplazamiento + length b) stream'

-- `recv(socket, buffer, n, MSG_WAITALL)` on what is still to come: the bytes, and what stays.
unfoldable pub recv : ℕ → List ℕ → Option (List ℕ × List ℕ)
recv n s = if leb n (length s) then some (take n s, drop n s) else none

unfoldable pub recv_entero : List ℕ → Option (ℕ × List ℕ)
unfolding recv entero_de
recv_entero s = do (b, resto) ← recv 4 s; n ← entero_de b; some (n, resto)
