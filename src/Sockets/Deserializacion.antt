-- ===== src/Sockets/Deserializacion.antt =====
-- OurLibraries/Sockets/sockets.c: `deserializar_paquete_*`, on the bytes that are still to come on
-- the connection; the value is the payload with the bytes that stay.
use sistemas_operativos_utn.Base.{ℕ, zero, suc, Option, some, List, [], ◌∷◌, ◌>>=◌}
use sistemas_operativos_utn.Universo.{
  Posicion, Pokemon, New, Localized, Get, Appeared, Catch, Caught,
}
use sistemas_operativos_utn.Sockets.Bytes.{recv, recv_entero}

-- The header, as the servers read it: the operation, the size and the id, three `int32_t`.
unfoldable pub recibir_cabecera : List ℕ → Option ((ℕ × ℕ × ℕ) × List ℕ)
unfolding recv_entero
recibir_cabecera s = do
  (operacion, s1) ← recv_entero s
  (tamanio, s2) ← recv_entero s1
  (id_mensaje, s3) ← recv_entero s2
  some ((operacion, tamanio, id_mensaje), s3)

unfoldable pub recibir_pokemon : List ℕ → Option (Pokemon × List ℕ)
unfolding recv_entero recv
recibir_pokemon s = do
  (size_nombre, s1) ← recv_entero s
  (nombre, s2) ← recv size_nombre s1
  some (record { size_nombre = size_nombre; nombre = nombre }, s2)

unfoldable pub recibir_posicion : List ℕ → Option (Posicion × List ℕ)
unfolding recv_entero
recibir_posicion s = do
  (x, s1) ← recv_entero s
  (y, s2) ← recv_entero s1
  some (record { x = x; y = y }, s2)

unfoldable pub deserializar_paquete_new : List ℕ → Option (New × List ℕ)
unfolding recibir_pokemon recibir_posicion recv_entero
deserializar_paquete_new s = do
  (pokemon, s1) ← recibir_pokemon s
  (posicion, s2) ← recibir_posicion s1
  (cant, s3) ← recv_entero s2
  some (record { pokemon = pokemon; posicion = posicion; cant = cant }, s3)

unfoldable pub deserializar_paquete_appeared : List ℕ → Option (Appeared × List ℕ)
unfolding recibir_pokemon recibir_posicion
deserializar_paquete_appeared s = do
  (pokemon, s1) ← recibir_pokemon s
  (posicion, s2) ← recibir_posicion s1
  some (record { pokemon = pokemon; posicion = posicion }, s2)

unfoldable pub deserializar_paquete_catch : List ℕ → Option (Catch × List ℕ)
unfolding recibir_pokemon recibir_posicion
deserializar_paquete_catch s = do
  (pokemon, s1) ← recibir_pokemon s
  (posicion, s2) ← recibir_posicion s1
  some (record { pokemon = pokemon; posicion = posicion }, s2)

unfoldable pub deserializar_paquete_get : List ℕ → Option (Get × List ℕ)
unfolding recibir_pokemon
deserializar_paquete_get s = do
  (pokemon, s1) ← recibir_pokemon s
  some (record { pokemon = pokemon }, s1)

unfoldable pub deserializar_paquete_caught : List ℕ → Option (Caught × List ℕ)
unfolding recv_entero
deserializar_paquete_caught s = do
  (fue_atrapado, s1) ← recv_entero s
  some (record { fue_atrapado = fue_atrapado }, s1)

-- The loop of `deserializar_paquete_localized`. One `t_posicion` is reserved before it: each round
-- writes the position read into that one, and adds its pointer to the list. The state is the
-- content of that one and the number of pointers in the list.
unfoldable pub recibir_posiciones : ℕ → Posicion → ℕ → List ℕ → Option ((Posicion × ℕ) × List ℕ)
unfolding recibir_posicion
recibir_posiciones zero posicion punteros s = some ((posicion, punteros), s)
recibir_posiciones (suc n) posicion punteros s = do
  (leida, s1) ← recibir_posicion s
  recibir_posiciones n leida (suc punteros) s1

abbrev pub replicate {ℓ} : {A : Type ℓ} → ℕ → A → List A
replicate zero a = []
replicate (suc n) a = a ∷ replicate n a

-- What the list shows: every pointer leads to the one position.
unfoldable pub deserializar_paquete_localized : Posicion → List ℕ → Option (Localized × List ℕ)
unfolding recibir_pokemon recv_entero recibir_posiciones
deserializar_paquete_localized sin_iniciar s = do
  (pokemon, s1) ← recibir_pokemon s
  (cant_a_recibir, s2) ← recv_entero s1
  ((posicion, punteros), s3) ← recibir_posiciones cant_a_recibir sin_iniciar 0 s2
  some (record { pokemon = pokemon; lista_posiciones = replicate punteros posicion }, s3)

-- A whole message, as a server takes it: the header, then the payload of its kind.
unfoldable pub recibir :
    {A : Type 0} → (List ℕ → Option (A × List ℕ)) → List ℕ → Option (((ℕ × ℕ × ℕ) × A) × List ℕ)
unfolding recibir_cabecera
recibir deserializar s = do
  (cabecera, s1) ← recibir_cabecera s
  (carga, s2) ← deserializar s1
  some ((cabecera, carga), s2)
