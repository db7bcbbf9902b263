-- ===== src/Pruebas/Medidas.antt =====
-- Posts and a repeated id at concrete messages of the Broker.
use sistemas_operativos_utn.Base.{suc, ◌≡◌, refl, none, some, [], ◌∷◌, ◌++◌, arith, true, ◌≤◌}
use sistemas_operativos_utn.Universo.{Posicion, Pokemon, New}
use sistemas_operativos_utn.Sockets.Codigos.{new_pokemon, suscripcion_new, ack}
use sistemas_operativos_utn.Particiones.Tabla.{Particion}
use sistemas_operativos_utn.Broker.Estado.{
  cola_new, mensaje_de, suscripcion_de, InfoMensaje, de_new,
}
use sistemas_operativos_utn.Broker.Consultas.{get_mensajes_a_enviar}
use sistemas_operativos_utn.Broker.Recepcion.{posts}
use sistemas_operativos_utn.Broker.Medidas.{cantidad_suscriptos, posts-cantidad_suscriptos}
use sistemas_operativos_utn.Broker.Duplicados.{get_mensajes_a_enviar-duplicado}
use sistemas_operativos_utn.Pruebas.Difusion.{mew, proceso_9}

abbrev origen : Posicion
origen = record { x = 0; y = 0 }

posts-cantidad_suscriptos_example :
    (posts suscripcion_new [] ≡ 1)
    × ((posts suscripcion_new ((proceso_9 ∷ []) ++ (proceso_9 ∷ []))
          ≡ suc (cantidad_suscriptos suscripcion_new (proceso_9 ∷ [])))
        × (cantidad_suscriptos suscripcion_new ((proceso_9 ∷ []) ++ (proceso_9 ∷ []))
            ≤ posts suscripcion_new ((proceso_9 ∷ []) ++ (proceso_9 ∷ []))))
posts-cantidad_suscriptos_example =
    posts-cantidad_suscriptos suscripcion_new (proceso_9 ∷ []) proceso_9

abbrev mew_pokemon : Pokemon
mew_pokemon = record { size_nombre = 4; nombre = mew ++ (0 ∷ []) }

abbrev mew_new : New
mew_new = record { pokemon = mew_pokemon; posicion = origen; cant = 3 }

-- The same message twice, as if both threads had read the same id.
abbrev repetido : InfoMensaje
repetido = record {
  op_code = new_pokemon;
  id_mensaje = 2;
  id_mensaje_correlativo = 0;
  process_id = 7;
  mensaje = de_new mew_new;
  size_msg = 19;
  suscriptores_a_los_que_se_envio = [];
  suscriptores_que_recibieron = [];
}

abbrev particion_2 : Particion
particion_2 = record {
  codigo_operacion = some new_pokemon;
  posicion_inicial = 0;
  posicion_final = 18;
  size = 19;
  ocupada = true;
  id_mensaje = 2;
  id = 0;
}

get_mensajes_a_enviar-duplicado_example :
    get_mensajes_a_enviar ack
      (suscripcion_de cola_new)
      9
      (repetido ∷ (repetido ∷ []))
      (particion_2 ∷ [])
    ≡ none
unfolding mensaje_de
get_mensajes_a_enviar-duplicado_example =
    get_mensajes_a_enviar-duplicado ack cola_new 9 0 1 0 (repetido ∷ (repetido ∷ [])) repetido
      repetido (particion_2 ∷ []) particion_2 (omega arith) refl refl refl refl refl refl
