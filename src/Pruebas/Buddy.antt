-- ===== src/Pruebas/Buddy.antt =====
-- The buddy system at a memory of 64 bytes: 32 free bytes, a message of 16 bytes, and 16 free
-- bytes.
use sistemas_operativos_utn.Base.{ℕ, ◌≡◌, refl, true, false, none, some, [], ◌∷◌, arith}
use sistemas_operativos_utn.Sockets.Codigos.{new_pokemon, catch_pokemon}
use sistemas_operativos_utn.Particiones.Tabla.{Particion, Memoria, Mensaje}
use sistemas_operativos_utn.Particiones.Forma.{EsContigua}
use sistemas_operativos_utn.Base.{Todas}
use sistemas_operativos_utn.Particiones.Ajuste.{hay_particiones_candidatas}
use sistemas_operativos_utn.Particiones.Liberacion.{lru}
use sistemas_operativos_utn.Particiones.Dinamica.{guardado, o_fallo}
use sistemas_operativos_utn.Particiones.Buddy.{
  tamanio_minimo, tamanio_pedido_bs, algoritmo_buddy_system, o_exclusivo, consolidar_particion_bs,
  hay_particiones_candidatas_bs, guardar_bs,
}
use sistemas_operativos_utn.Particiones.Buddy.Potencias.{
  MenorPotencia, tamanio_minimo-MenorPotencia, potencia,
}
use sistemas_operativos_utn.Particiones.Buddy.Partir.{EsPotencia}
use sistemas_operativos_utn.Particiones.Buddy.Bucle.{algoritmo_buddy_system-GuardadaBs}
use sistemas_operativos_utn.Particiones.Buddy.Guardar.{GuardadaBs}

abbrev libre : ℕ → ℕ → ℕ → Particion
libre inicio final size = record {
  codigo_operacion = none;
  posicion_inicial = inicio;
  posicion_final = final;
  size = size;
  ocupada = false;
  id_mensaje = 0;
  id = 0;
}

abbrev con_mensaje : Particion
con_mensaje = record {
  codigo_operacion = some new_pokemon;
  posicion_inicial = 32;
  posicion_final = 47;
  size = 16;
  ocupada = true;
  id_mensaje = 7;
  id = 5;
}

abbrev memoria_bs : Memoria
memoria_bs = record {
  tabla = libre 0 31 32 ∷ (con_mensaje ∷ (libre 48 63 16 ∷ []));
  id_particion = 5;
}

abbrev mensaje_de : ℕ → Mensaje
mensaje_de n = record { op_code = catch_pokemon; id_mensaje = 20; size_msg = n }

-- A message of 9 bytes asks for 16. The free partition of 16 bytes is there, and the message takes
-- the one of 32 bytes before it.
toma_la_mayor :
    algoritmo_buddy_system 4 (mensaje_de 9) lru memoria_bs
    ≡ guardado (record {
      tabla =
          record (libre 0 31 32) {
            codigo_operacion = some catch_pokemon;
            ocupada = true;
            id_mensaje = 20;
            id = 6;
          }
          ∷ (con_mensaje ∷ (libre 48 63 16 ∷ []));
      id_particion = 6;
    })
unfolding algoritmo_buddy_system hay_particiones_candidatas_bs o_fallo guardar_bs
toma_la_mayor = refl

-- Once the middle partition is free it is joined with its buddy, and the 32 bytes that this leaves
-- are not joined with theirs.
queda_partida :
    consolidar_particion_bs (libre 0 31 32 ∷ (libre 32 47 16 ∷ (libre 48 63 16 ∷ []))) 1
    ≡ some (libre 0 31 32 ∷ (libre 32 63 32 ∷ []))
unfolding consolidar_particion_bs
queda_partida = refl

exclusivo : o_exclusivo 31 48 16 ≡ 32
unfolding o_exclusivo
exclusivo = refl

tamanio_minimo-MenorPotencia_example : MenorPotencia 9 (tamanio_minimo 9)
tamanio_minimo-MenorPotencia_example = tamanio_minimo-MenorPotencia 9 (omega arith) (omega arith)

memoria_bs-EsContigua : EsContigua 64 memoria_bs.tabla
memoria_bs-EsContigua = omega arith

memoria_bs-Todas : Todas EsPotencia memoria_bs.tabla
memoria_bs-Todas = ((5, refl), ((4, refl), ((4, refl), tt)))

hay_lugar : hay_particiones_candidatas (tamanio_pedido_bs (potencia 2) 5) memoria_bs.tabla ≡ true
unfolding hay_particiones_candidatas tamanio_pedido_bs
hay_lugar = refl

algoritmo_buddy_system-GuardadaBs_example :
    GuardadaBs 64
      (mensaje_de 5)
      (tamanio_pedido_bs (potencia 2) 5)
      memoria_bs
      (algoritmo_buddy_system (potencia 2) (mensaje_de 5) lru memoria_bs)
algoritmo_buddy_system-GuardadaBs_example =
    algoritmo_buddy_system-GuardadaBs 64 2 (mensaje_de 5) lru memoria_bs memoria_bs-EsContigua
      memoria_bs-Todas (omega arith) (omega arith) hay_lugar
