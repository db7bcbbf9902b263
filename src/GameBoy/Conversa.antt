-- ===== src/GameBoy/Conversa.antt =====
-- Game-Boy/src/Game-Boy.c and Broker/src/Broker.c: the Game-Boy sends a message to the Broker, and
-- each of the two reads what the other sends.
use sistemas_operativos_utn.Base.{
  ℕ, ◌+◌, ◌^◌, ◌<◌, ◌≡◌, refl, subst, Si, Bool, true, false, Option, some, List, [], ◌∷◌, ◌++◌,
  length, arith,
}
use sistemas_operativos_utn.Universo.{New}
use sistemas_operativos_utn.Sockets.Codigos.{OpCode, codigo, new_pokemon, ack}
use sistemas_operativos_utn.Sockets.Deserializacion.{recibir_cabecera, deserializar_paquete_new}
use sistemas_operativos_utn.Sockets.Envio.{pokemon_de, enviar_ack}
use sistemas_operativos_utn.Sockets.Envio.Llegada.{Corto, enviar_new_pokemon-Llega}
use sistemas_operativos_utn.Sockets.Envio.Control.{enviar_control-LlegaCabecera}
use sistemas_operativos_utn.Broker.Servidor.{hilo_mensaje, caso_de, lanzar, atender}
use sistemas_operativos_utn.GameBoy.Cliente.{
  bytes_texto, validar_argc, esperar_ack, enviar_si, enviar_todos, Salida, terminado, con_conexion,
  arg_new, arg_appeared, arg_catch, arg_caught, arg_get, mensajes_broker, modo_broker,
}
use sistemas_operativos_utn.Sockets.Envio.{enviar_handshake}
use sistemas_operativos_utn.GameBoy.Principal.{game_boy}
use sistemas_operativos_utn.GameBoy.Cabeceras.{
  EsRecibido, recibir-Recibido, tras_handshake_lem, atender_mensaje,
}

enviar_todos_primero :
    (c1 c2 c3 c4 c5 : Bool) (m1 m2 m3 m4 m5 : Option (List ℕ)) (e s : List ℕ)
    → c1 ≡ true
    → c2 ≡ false
    → c3 ≡ false
    → c4 ≡ false
    → c5 ≡ false
    → m1 ≡ some e
    → enviar_todos ((c1, m1) ∷ ((c2, m2) ∷ ((c3, m3) ∷ ((c4, m4) ∷ ((c5, m5) ∷ []))))) s
      ≡ some (e ++ [], esperar_ack s)
unfolding enviar_todos enviar_si
enviar_todos_primero c1 c2 c3 c4 c5 m1 m2 m3 m4 m5 e s h1 h2 h3 h4 h5 g =
    rw (h1, h2, h3, h4, h5, g) refl

-- The Game-Boy, which gets the ACK of its handshake and then more, sends bytes from which the
-- Broker answers that ACK, starts the thread of the message, and reads the payload to its end.
pub record Conversacion {A : Type 0} (malloc : ℕ → List ℕ) (cliente : List ℕ → Option Salida)
    (mas : List ℕ) (deserializar : List ℕ → Option (A × List ℕ)) (op : OpCode) (p id : ℕ)
    (valor : A) : Type 0 where
  pub acuse : List ℕ
  pub enviado : List ℕ
  pub carga : List ℕ
  pub es_acuse : enviar_ack malloc 0 ≡ some acuse
  pub termina : cliente (acuse ++ mas) ≡ some (terminado enviado (esperar_ack mas))
  pub atendido : atender malloc enviado ≡ some (acuse, hilo_mensaje op p id carga)
  pub leida : deserializar carga ≡ some (valor, [])

module _ (malloc : ℕ → List ℕ) (atoi : List ℕ → ℕ) (contiene : List ℕ → List ℕ → Bool)
    (m : (n : ℕ) → length (malloc n) ≡ n) (a : (s : List ℕ) → atoi s < 2 ^ 32) where
  -- The mode BROKER where the second argument names NEW_POKEMON alone.
  modo_broker_new :
      (sin_iniciar : ℕ) (argv : List (List ℕ)) (tipo saludo acuse mas e : List ℕ) (size id : ℕ)
      → contiene tipo (bytes_texto "NEW_POKEMON") ≡ true
      → contiene tipo (bytes_texto "APPEARED_POKEMON") ≡ false
      → contiene tipo (bytes_texto "CATCH_POKEMON") ≡ false
      → contiene tipo (bytes_texto "CAUGHT_POKEMON") ≡ false
      → contiene tipo (bytes_texto "GET_POKEMON") ≡ false
      → enviar_handshake malloc 1 ≡ some saludo
      → recibir_cabecera (acuse ++ mas) ≡ some ((codigo ack, size, id), mas)
      → arg_new malloc atoi contiene sin_iniciar argv (some (bytes_texto "0")) ≡ some e
      → modo_broker malloc atoi contiene sin_iniciar argv tipo (acuse ++ mas)
        ≡ some (saludo ++ (e ++ []), esperar_ack mas)
  unfolding modo_broker
  modo_broker_new sin_iniciar argv tipo saludo acuse mas e size id n av ca cu ge hs ak env =
      let cero = bytes_texto "0" in
      rw hs (
        tras_handshake_lem
          (enviar_todos (mensajes_broker malloc atoi contiene sin_iniciar argv tipo)) saludo
          (acuse ++ mas) mas (e ++ []) (esperar_ack mas) size id ak
          (enviar_todos_primero (contiene tipo (bytes_texto "NEW_POKEMON"))
            (contiene tipo (bytes_texto "APPEARED_POKEMON"))
            (contiene tipo (bytes_texto "CATCH_POKEMON"))
            (contiene tipo (bytes_texto "CAUGHT_POKEMON"))
            (contiene tipo (bytes_texto "GET_POKEMON"))
            (arg_new malloc atoi contiene sin_iniciar argv (some cero))
            (arg_appeared malloc atoi contiene sin_iniciar argv)
            (arg_catch malloc atoi contiene sin_iniciar argv (some cero))
            (arg_caught malloc atoi contiene sin_iniciar argv)
            (arg_get malloc atoi contiene sin_iniciar argv (some cero)) e mas n av ca cu ge env))

  -- The Game-Boy with the arguments BROKER and NEW_POKEMON, a short name, a position and an amount:
  -- with the answer of the Broker to its handshake it ends, and what it sent makes the Broker start
  -- the thread of a NEW_POKEMON of the process 1, with the id that "0" stands for, whose payload is
  -- that name, position and amount. `malloc` must return as many bytes as asked, `atoi` an
  -- `int32_t`, and the second argument must contain none of the names of the other kinds.
  pub game_boy-Conversacion :
      (sin_iniciar : ℕ) (pruebas : List Bool) (programa proceso tipo nombre x y cant mas : List ℕ)
      → Corto nombre
      → contiene proceso (bytes_texto "BROKER") ≡ true
      → contiene tipo (bytes_texto "NEW_POKEMON") ≡ true
      → contiene tipo (bytes_texto "APPEARED_POKEMON") ≡ false
      → contiene tipo (bytes_texto "CATCH_POKEMON") ≡ false
      → contiene tipo (bytes_texto "CAUGHT_POKEMON") ≡ false
      → contiene tipo (bytes_texto "GET_POKEMON") ≡ false
      → let new : New = record {
        pokemon = pokemon_de nombre;
        posicion = record { x = atoi x; y = atoi y };
        cant = atoi cant;
      } in
        Conversacion malloc
          (game_boy malloc contiene atoi sin_iniciar true pruebas
            (programa ∷ (proceso ∷ (tipo ∷ (nombre ∷ (x ∷ (y ∷ (cant ∷ []))))))))
          mas
          deserializar_paquete_new
          new_pokemon
          1
          (atoi (bytes_texto "0"))
          new
  unfolding game_boy validar_argc con_conexion modo_broker arg_new enviar_todos enviar_si caso_de
      lanzar
  game_boy-Conversacion sin_iniciar pruebas programa proceso tipo nombre x y cant mas corto b n av
        ca cu ge =
      let cero = bytes_texto "0" in
      let hs = (enviar_control-LlegaCabecera malloc m ack 1 (omega arith)).0 in
      let ak = (enviar_control-LlegaCabecera malloc m ack 0 (omega arith)).2 in
      let l = enviar_new_pokemon-Llega malloc atoi m a nombre x y cant cero corto in
      let recibido =
        subst (Si (EsRecibido deserializar_paquete_new (l.enviado ++ []))) (l.vuelta [])
          (recibir-Recibido deserializar_paquete_new (l.enviado ++ [])) in
      let argv = programa ∷ (proceso ∷ (tipo ∷ (nombre ∷ (x ∷ (y ∷ (cant ∷ [])))))) in
      let modo =
        modo_broker_new sin_iniciar argv tipo hs.enviado ak.enviado mas l.enviado 8 0 n av ca cu ge
          hs.hecho (ak.vuelta mas) l.hecho in
      record {
        acuse = ak.enviado;
        enviado = hs.enviado ++ (l.enviado ++ []);
        carga = recibido.carga;
        es_acuse = ak.hecho;
        termina = rw (b, modo) refl;
        atendido =
            atender_mensaje malloc (hs.enviado ++ (l.enviado ++ [])) (l.enviado ++ [])
              recibido.carga ak.enviado new_pokemon 8 1 (length nombre + 17) (atoi cero)
              (hs.vuelta (l.enviado ++ [])) recibido.cabecera ak.hecho;
        leida = recibido.leida;
      }
