-- ===== src/Pruebas/Memoria.antt =====
-- The memory of the Broker at a memory of 64 bytes: a message of 16 bytes, 16 free bytes, and a
-- message of 32 bytes.
use sistemas_operativos_utn.Base.{
  ℕ, ◌≡◌, ◌≢◌, refl, true, false, none, some, List, [], ◌∷◌, arith, pos, negsuc,
}
use sistemas_operativos_utn.Sockets.Codigos.{new_pokemon, get_pokemon, catch_pokemon}
use sistemas_operativos_utn.Particiones.Tabla.{Particion, Memoria, Mensaje, obtener_posicion}
use sistemas_operativos_utn.Particiones.Forma.{EsContigua, EsValida, Lugar}
use sistemas_operativos_utn.Particiones.Punteros.{obtener_posicion-Lugar}
use sistemas_operativos_utn.Particiones.Ajuste.{hay_particiones_candidatas, get_particion_best_fit}
use sistemas_operativos_utn.Particiones.Ajuste.Primero.{
  PrimerAjuste, get_particion_first_fit-PrimerAjuste,
}
use sistemas_operativos_utn.Particiones.Ajuste.Optimo.{
  MejorAjuste, get_particion_best_fit-MejorAjuste, get_particion_best_fit-EsEleccion,
}
use sistemas_operativos_utn.Particiones.Consolidacion.Validez.{
  Consolidada, consolidar_particion-EsValida,
}
use sistemas_operativos_utn.Particiones.Liberacion.{
  fifo, lru, otro_reemplazo, algoritmo_liberacion, algoritmo_compactacion,
}
use sistemas_operativos_utn.Particiones.Liberacion.Desalojo.{
  Liberada, algoritmo_liberacion-Liberada,
}
use sistemas_operativos_utn.Particiones.Liberacion.Compactacion.{
  Compactada, algoritmo_compactacion-Compactada,
}
use sistemas_operativos_utn.Particiones.Dinamica.{
  guardado, sin_combustible, ff, bf, guardar_en, algoritmo_particion_dinamica, tamanio_pedido,
  guardar_segun, compactar_si_toca,
}
use sistemas_operativos_utn.Particiones.Dinamica.Guardar.{guardar_en-Guardada}
use sistemas_operativos_utn.Particiones.Dinamica.Justa.{Guardada}
use sistemas_operativos_utn.Particiones.Dinamica.Ronda.{Almacena}
use sistemas_operativos_utn.Particiones.Dinamica.Pasos.{
  algoritmo_particion_dinamica-ne-sin_combustible,
}
use sistemas_operativos_utn.Particiones.Dinamica.Total.{algoritmo_particion_dinamica-Almacena}

abbrev primera_ocupada : Particion
primera_ocupada = record {
  codigo_operacion = some new_pokemon;
  posicion_inicial = 0;
  posicion_final = 15;
  size = 16;
  ocupada = true;
  id_mensaje = 7;
  id = 5;
}

abbrev hueco : Particion
hueco = record {
  codigo_operacion = none;
  posicion_inicial = 16;
  posicion_final = 31;
  size = 16;
  ocupada = false;
  id_mensaje = 0;
  id = 0;
}

abbrev segunda_ocupada : Particion
segunda_ocupada = record {
  codigo_operacion = some get_pokemon;
  posicion_inicial = 32;
  posicion_final = 63;
  size = 32;
  ocupada = true;
  id_mensaje = 8;
  id = 3;
}

abbrev tabla : List Particion
tabla = primera_ocupada ∷ (hueco ∷ (segunda_ocupada ∷ []))

abbrev memoria : Memoria
memoria = record { tabla = tabla; id_particion = 9 }

abbrev pedido : ℕ → Mensaje
pedido n = record { op_code = catch_pokemon; id_mensaje = 20; size_msg = n }

tabla-EsValida : EsValida 64 tabla
tabla-EsValida = ground arith

tabla-EsContigua : EsContigua 64 tabla
tabla-EsContigua = omega arith

hay_hueco : hay_particiones_candidatas 10 tabla ≡ true
unfolding hay_particiones_candidatas
hay_hueco = refl

lugar_hueco : Lugar tabla 1 hueco
lugar_hueco = record {
  antes = primera_ocupada ∷ [];
  despues = segunda_ocupada ∷ [];
  partes = refl;
  indice = refl;
}

-- A request of 10 bytes splits the free partition: 10 bytes at 16, and 6 free bytes behind them.
guarda_en_hueco :
    algoritmo_particion_dinamica 4 (pedido 10) (negsuc 0) fifo ff memoria
    ≡ guardado (record {
      tabla =
          primera_ocupada
          ∷ (record {
            codigo_operacion = some catch_pokemon;
            posicion_inicial = 16;
            posicion_final = 25;
            size = 10;
            ocupada = true;
            id_mensaje = 20;
            id = 12;
          }
              ∷ (record hueco { posicion_inicial = 26; size = 6; id = 11 }
                  ∷ (segunda_ocupada ∷ [])));
      id_particion = 12;
    })
unfolding algoritmo_particion_dinamica hay_particiones_candidatas guardar_segun
guarda_en_hueco = refl

-- A frequency of 0 never compacts: `case 0 || 1` is `case 1`.
frecuencia_cero : compactar_si_toca (pos 0) 1 memoria ≡ some memoria
unfolding compactar_si_toca
frecuencia_cero = refl

algoritmo_particion_dinamica-Almacena_example :
    Almacena 64
      (pedido 40)
      40
      memoria
      (algoritmo_particion_dinamica 4 (pedido 40) (negsuc 0) lru bf memoria)
unfolding tamanio_pedido
algoritmo_particion_dinamica-Almacena_example =
    algoritmo_particion_dinamica-Almacena 64 4 (pedido 40) (negsuc 0) lru bf memoria (λ e. cc)
      (λ e. cc) (omega arith) (omega arith) tabla-EsValida

ne-sin_combustible_example :
    algoritmo_particion_dinamica 4 (pedido 65) (pos 3) otro_reemplazo ff memoria ≢ sin_combustible
ne-sin_combustible_example =
    algoritmo_particion_dinamica-ne-sin_combustible 4 (pedido 65) (pos 3) otro_reemplazo ff memoria

algoritmo_liberacion-Liberada_example : Liberada 64 memoria (algoritmo_liberacion lru memoria)
algoritmo_liberacion-Liberada_example =
    algoritmo_liberacion-Liberada 64 lru memoria (λ e. cc) tabla-EsValida (λ e. cc)

algoritmo_compactacion-Compactada_example : Compactada 64 memoria (algoritmo_compactacion memoria)
algoritmo_compactacion-Compactada_example =
    algoritmo_compactacion-Compactada 64 memoria tabla-EsContigua

consolidar_particion-EsValida_example : Consolidada 64 tabla 1
unfolding lugar_hueco
consolidar_particion-EsValida_example =
    consolidar_particion-EsValida 64 lugar_hueco tabla-EsContigua refl (refl, tt) (refl, tt)

guardar_en-Guardada_example :
    Guardada 64 (pedido 10) 10 memoria (guardar_en get_particion_best_fit (pedido 10) 10 memoria)
guardar_en-Guardada_example =
    guardar_en-Guardada 64 (pedido 10) 10 get_particion_best_fit-EsEleccion memoria (omega arith)
      tabla-EsValida hay_hueco

get_particion_best_fit-MejorAjuste_example : MejorAjuste 10 tabla
get_particion_best_fit-MejorAjuste_example = get_particion_best_fit-MejorAjuste 10 tabla hay_hueco

get_particion_first_fit-PrimerAjuste_example : PrimerAjuste 10 tabla
get_particion_first_fit-PrimerAjuste_example =
    get_particion_first_fit-PrimerAjuste 10 tabla hay_hueco

obtener_posicion-Lugar_example : obtener_posicion hueco tabla ≡ some 1
obtener_posicion-Lugar_example = obtener_posicion-Lugar tabla-EsContigua.seguidas lugar_hueco
