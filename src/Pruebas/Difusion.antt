-- ===== src/Pruebas/Difusion.antt =====
-- The Broker with a memory of 64 bytes: a process subscribes to NEW, another sends a pokemon.
use sistemas_operativos_utn.Base.{
  ap, length, ◌<◌, ◌^◌, Todas, ℕ, zero, suc, ◌≡◌, refl, Option, none, some, List, [], ◌∷◌, ◌++◌,
  arith, pos, ◌-◌, ◌%◌, ◌+◌,
}
use sistemas_operativos_utn.Universo.{New, Posicion}
use sistemas_operativos_utn.Sockets.Codigos.{new_pokemon, suscripcion_new, ack}
use sistemas_operativos_utn.Sockets.Deserializacion.{replicate, deserializar_paquete_new}
use sistemas_operativos_utn.Sockets.Envio.{enviar_new_pokemon, enviar_ack}
use sistemas_operativos_utn.Particiones.Liberacion.{lru}
use sistemas_operativos_utn.Particiones.Dinamica.{ff, guardar_segun, tamanio_pedido}
use sistemas_operativos_utn.Particiones.Ajuste.{hay_particiones_candidatas}
use sistemas_operativos_utn.Broker.Estado.{
  cola_new, mensaje_de, suscripcion_de, Suscriptor, InfoMensaje, particiones, Configuracion, Broker,
  de_new,
}
use sistemas_operativos_utn.Broker.Consultas.{get_mensajes_a_enviar}
use sistemas_operativos_utn.Broker.Recepcion.{manejo_mensaje}
use sistemas_operativos_utn.Broker.Suscripcion.{
  Hilo, espera, termina, falla, sin_combustible, manejo_suscripcion,
}
use sistemas_operativos_utn.Broker.Servidor.{iniciar_broker}
use sistemas_operativos_utn.Broker.Sistema.{
  Sistema, en_reposo, mensaje_nuevo, con_mensaje, cuenta, lee, agrega, avanza, parada, Alcanzable,
}
use sistemas_operativos_utn.Broker.Refinamiento.{manejo_mensaje-Corrida}
use sistemas_operativos_utn.Broker.Coherencia.{ids, Distintas, Respuesta}
use sistemas_operativos_utn.Broker.Alcance.{mensajes_a_enviar_seguros}
use sistemas_operativos_utn.Particiones.Forma.{EsValida}
use sistemas_operativos_utn.Broker.Tamanios.{get_size_mensaje_new}
use sistemas_operativos_utn.Broker.Atencion.{Atendido, entrada_new, manejo_mensaje-Atendido}
use sistemas_operativos_utn.Broker.Enviables.{CargaBien}
use sistemas_operativos_utn.Broker.Envio.{cadena}
use sistemas_operativos_utn.Broker.Segura.{NoFalla, manejo_suscripcion-NoFalla}
use sistemas_operativos_utn.Broker.Entrega.{HiloTras, manejo_suscripcion-HiloTras}
use sistemas_operativos_utn.Broker.Acuse.{tras_ack}

abbrev pub ceros : ℕ → List ℕ
ceros n = replicate n 0

-- One digit, from and to its text.
abbrev pub digito : List ℕ → ℕ
digito [] = 0
digito (c ∷ cs) = (c - 48) % 10

abbrev pub texto : ℕ → List ℕ
texto n = (n % 10 + 48) ∷ []

abbrev pub mew : List ℕ
mew = b'M' ∷ (b'e' ∷ (b'w' ∷ []))

abbrev origen : Posicion
origen = record { x = 0; y = 0 }

abbrev config : Configuracion
config = record {
  size_memoria = 64;
  size_min_particion = 4;
  alg_memoria = particiones;
  alg_reemplazo = lru;
  alg_particion_libre = ff;
  frecuencia_compactacion = pos 3;
}

abbrev bytes_de : Option (List ℕ) → List ℕ
bytes_de none = []
bytes_de (some s) = s

abbrev sin_cabecera : ℕ → List ℕ → List ℕ
sin_cabecera zero s = s
sin_cabecera (suc n) [] = []
sin_cabecera (suc n) (b ∷ bs) = sin_cabecera n bs

-- What the sender puts on the connection behind the header.
abbrev carga_new : List ℕ
carga_new =
    sin_cabecera 12
      (bytes_de (enviar_new_pokemon ceros digito mew (texto 1) (texto 2) (texto 3) (texto 0)))

abbrev inicio : Broker
inicio = iniciar_broker config

abbrev estado_de : Option (Broker × List ℕ) → Broker
estado_de none = inicio
estado_de (some r) = r.0

abbrev recibir_new : Option (Broker × List ℕ)
recibir_new = manejo_mensaje ceros 8 origen config 7 new_pokemon 0 carga_new inicio

abbrev con_new : Broker
con_new = estado_de recibir_new

manejo_new : recibir_new ≡ some (con_new, bytes_de (enviar_ack ceros 1))
unfolding manejo_mensaje enviar_ack enviar_new_pokemon iniciar_broker hay_particiones_candidatas
    guardar_segun
manejo_new = refl

con_new-Alcanzable : Alcanzable config (en_reposo con_new)
con_new-Alcanzable =
    manejo_mensaje-Corrida ceros 8 origen config 7 new_pokemon 0 carga_new inicio con_new
      (bytes_de (enviar_ack ceros 1)) manejo_new

con_new-Distintas : Distintas (ids con_new.list_mensajes)
unfolding manejo_mensaje enviar_new_pokemon iniciar_broker hay_particiones_candidatas guardar_segun
con_new-Distintas = (tt, tt)

abbrev mew_new : New
mew_new = record {
  pokemon = record { size_nombre = 4; nombre = mew ++ (0 ∷ []) };
  posicion = record { x = 1; y = 2 };
  cant = 3;
}

-- Two threads count, both read, and both enter their messages: two messages with the id 2, the case
-- that the theorems on the look-ups leave out.
abbrev contados_dos : Broker
contados_dos = record inicio { id_mensaje_global = 2 }

abbrev mensaje_2 : InfoMensaje
mensaje_2 = mensaje_nuevo (de_new mew_new) 15 2

abbrev con_repetidos : Sistema
con_repetidos = en_reposo (con_mensaje mensaje_2 (con_mensaje mensaje_2 contados_dos))

ids_repetidos : ids con_repetidos.broker.list_mensajes ≡ 2 ∷ (2 ∷ [])
unfolding iniciar_broker
ids_repetidos = refl

con_repetidos-Alcanzable : Alcanzable config con_repetidos
unfolding iniciar_broker
con_repetidos-Alcanzable =
    let s1 : Sistema = record {
      broker = record inicio { id_mensaje_global = 1 };
      contados = 1;
      leidos = [];
    } in
    let s2 : Sistema = record { broker = contados_dos; contados = 2; leidos = [] } in
    let s3 : Sistema = record { broker = contados_dos; contados = 1; leidos = 2 ∷ [] } in
    let s4 : Sistema = record { broker = contados_dos; contados = 0; leidos = 2 ∷ (2 ∷ []) } in
    let s5 : Sistema = record {
      broker = con_mensaje mensaje_2 contados_dos;
      contados = 0;
      leidos = 2 ∷ [];
    } in
    avanza _ s5 _
      (avanza _ s4 _
        (avanza _ s3 _
          (avanza _ s2 _
            (avanza _ s1 _
              (avanza _ (en_reposo inicio) _ (parada (en_reposo inicio))
                (cuenta (en_reposo inicio)))
              (cuenta s1))
            (lee s2 1 refl))
          (lee s3 0 refl))
        (agrega s4 0 2 (de_new mew_new) 15 refl))
      (agrega s5 0 2 (de_new mew_new) 15 refl)

-- Two threads that do not meet in `get_id`: the first reads before the second counts, and the second
-- enters its message first.
abbrev primero_cuenta : Sistema
primero_cuenta = record {
  broker = record inicio { id_mensaje_global = suc inicio.id_mensaje_global };
  contados = 1;
  leidos = [];
}

abbrev primero_lee : Sistema
primero_lee = record {
  broker = primero_cuenta.broker;
  contados = 0;
  leidos = primero_cuenta.broker.id_mensaje_global ∷ [];
}

abbrev segundo_cuenta : Sistema
segundo_cuenta = record primero_lee {
  broker = record primero_lee.broker {
    id_mensaje_global = suc primero_lee.broker.id_mensaje_global;
  };
  contados = 1;
}

abbrev segundo_lee : Sistema
segundo_lee = record segundo_cuenta {
  contados = 0;
  leidos = segundo_cuenta.broker.id_mensaje_global ∷ segundo_cuenta.leidos;
}

abbrev segundo_agrega : Sistema
segundo_agrega = record {
  broker =
      con_mensaje (mensaje_nuevo (de_new mew_new) 15 segundo_cuenta.broker.id_mensaje_global)
        segundo_lee.broker;
  contados = 0;
  leidos = primero_cuenta.broker.id_mensaje_global ∷ [];
}

abbrev dos_mensajes : Sistema
dos_mensajes = en_reposo (
    con_mensaje (mensaje_nuevo (de_new mew_new) 15 primero_cuenta.broker.id_mensaje_global)
      segundo_agrega.broker)

abbrev sin_encuentro : Alcanzable config dos_mensajes
sin_encuentro =
    avanza (en_reposo inicio) segundo_agrega dos_mensajes
      (avanza (en_reposo inicio) segundo_lee segundo_agrega
        (avanza (en_reposo inicio) segundo_cuenta segundo_lee
          (avanza (en_reposo inicio) primero_lee segundo_cuenta
            (avanza (en_reposo inicio) primero_cuenta primero_lee
              (avanza (en_reposo inicio) (en_reposo inicio) primero_cuenta
                (parada (en_reposo inicio)) (cuenta (en_reposo inicio)))
              (lee primero_cuenta 0 refl))
            (cuenta primero_lee))
          (lee segundo_cuenta 0 refl))
        (agrega segundo_lee 0 segundo_cuenta.broker.id_mensaje_global (de_new mew_new) 15 refl))
      (agrega segundo_agrega 0 primero_cuenta.broker.id_mensaje_global (de_new mew_new) 15 refl)

mensajes_a_enviar_seguros_example : Respuesta con_new.list_mensajes new_pokemon 9 (
    get_mensajes_a_enviar ack
      (suscripcion_de cola_new)
      9
      con_new.list_mensajes
      con_new.memoria.tabla)
unfolding mensaje_de
mensajes_a_enviar_seguros_example =
    mensajes_a_enviar_seguros config (en_reposo con_new) ack cola_new 9 con_new-Alcanzable
      con_new-Distintas

-- The answer there: the one message.
a_enviar_new :
    get_mensajes_a_enviar ack suscripcion_new 9 con_new.list_mensajes con_new.memoria.tabla
    ≡ some (0 ∷ [])
unfolding get_mensajes_a_enviar manejo_mensaje enviar_new_pokemon iniciar_broker
    hay_particiones_candidatas guardar_segun
a_enviar_new = refl

abbrev pub proceso_9 : Suscriptor
proceso_9 = record { op_code = suscripcion_new; id = 9 }

abbrev entrada : InfoMensaje
entrada = entrada_new mew_new 1 0 7

-- After the ACK another thread counts its id.
abbrev con_ack : Sistema
con_ack = tras_ack 0 proceso_9 (en_reposo con_new)

abbrev con_ack_y_cuenta : Sistema
con_ack_y_cuenta = record con_ack {
  broker = record con_ack.broker { id_mensaje_global = suc con_ack.broker.id_mensaje_global };
  contados = 1;
}

abbrev respuesta : List ℕ
respuesta = bytes_de (enviar_ack ceros 1)

abbrev hilo_new : Hilo
hilo_new = manejo_suscripcion ceros digito texto 0 ack config cola_new 9 respuesta con_new

manejo_suscripcion-HiloTras_example : HiloTras ceros digito texto 0 config con_new hilo_new
manejo_suscripcion-HiloTras_example =
    manejo_suscripcion-HiloTras ceros digito texto 0 config ack cola_new 9 respuesta con_new

-- What the subscriber of the queue gets: the ACK of its subscription and the message with its id.
abbrev enviado_por : Hilo → List ℕ
enviado_por (espera b enviado) = enviado
enviado_por (termina b enviado) = enviado
enviado_por falla = []
enviado_por sin_combustible = []

entrega_new :
    enviado_por hilo_new
    ≡ bytes_de (enviar_ack ceros 0)
      ++ bytes_de (enviar_new_pokemon ceros digito mew (texto 1) (texto 2) (texto 3) (texto 1))
unfolding manejo_suscripcion get_mensajes_a_enviar manejo_mensaje enviar_new_pokemon iniciar_broker
    hay_particiones_candidatas guardar_segun enviar_ack
entrega_new = refl

pub length-ceros : (n : ℕ) → length (ceros n) ≡ n
length-ceros zero = refl
length-ceros (suc n) = ap suc (length-ceros n)

pub digito-lt : (s : List ℕ) → digito s < 2 ^ 32
digito-lt [] = omega arith
digito-lt (c ∷ cs) = omega arith

nombres_bien : Todas (λ (i : InfoMensaje). CargaBien i.mensaje) con_new.list_mensajes
unfolding manejo_mensaje enviar_new_pokemon iniciar_broker hay_particiones_candidatas guardar_segun
    cadena
nombres_bien = (record { texto = mew; termina_en_cero = refl; corto = omega arith }, tt)

manejo_suscripcion-NoFalla_example : NoFalla hilo_new
manejo_suscripcion-NoFalla_example =
    manejo_suscripcion-NoFalla ceros digito texto 0 length-ceros digito-lt config ack cola_new 9
      respuesta (en_reposo con_new) (omega arith) con_new-Alcanzable con_new-Distintas nombres_bien

llega_new : deserializar_paquete_new carga_new ≡ some (mew_new, [])
unfolding deserializar_paquete_new enviar_new_pokemon
llega_new = refl

inicio-EsValida : EsValida 64 inicio.memoria.tabla
unfolding iniciar_broker
inicio-EsValida = ground arith

manejo_mensaje-Atendido_example :
    Atendido ceros config inicio
      (entrada_new mew_new 1 0 7)
      (manejo_mensaje ceros 8 origen config 7 new_pokemon 0 carga_new inicio)
unfolding tamanio_pedido get_size_mensaje_new iniciar_broker
manejo_mensaje-Atendido_example =
    manejo_mensaje-Atendido ceros length-ceros 8 origen config 7 0 carga_new inicio mew_new []
      llega_new refl (λ e. cc) (λ e. cc) inicio-EsValida (omega arith) (omega arith) (omega arith)
