-- ===== src/Broker/Sistema.antt =====
-- Broker/src/Broker.c: the threads of the Broker with the ids that they take. `get_id` adds to the
-- global under its own mutex and reads it after the unlock, and the message with the id enters the
-- list under another mutex: three steps, between which other threads take theirs.
use sistemas_operativos_utn.Base.{ℕ, suc, ◌≡◌, some, List, [], ◌∷◌, ◌++◌, get_elem?, remove_at}
use sistemas_operativos_utn.Broker.Estado.{Carga, mensaje_de, InfoMensaje, Configuracion, Broker}
use sistemas_operativos_utn.Broker.Servidor.{iniciar_broker}
use sistemas_operativos_utn.Broker.Pasos.{cola_de_carga, Paso, Pasos, quieto, luego}

-- The shared state, how many threads are in `get_id` between the unlock and the read, and the ids
-- of the threads that read one and did not enter their message yet.
pub record Sistema : Type 0 where
  pub broker : Broker
  pub contados : ℕ
  pub leidos : List ℕ

-- No thread is taking an id.
abbrev pub en_reposo : Broker → Sistema
en_reposo b = record { broker = b; contados = 0; leidos = [] }

-- The `info_mensaje` that `recibirMensaje*` makes.
abbrev pub mensaje_nuevo : Carga → ℕ → ℕ → InfoMensaje
mensaje_nuevo carga size_msg id = record {
  op_code = mensaje_de (cola_de_carga carga);
  id_mensaje = id;
  id_mensaje_correlativo = 0;
  process_id = 1;
  mensaje = carga;
  size_msg = size_msg;
  suscriptores_a_los_que_se_envio = [];
  suscriptores_que_recibieron = [];
}

abbrev pub con_mensaje : InfoMensaje → Broker → Broker
con_mensaje mensaje b = record b { list_mensajes = b.list_mensajes ++ (mensaje ∷ []) }

-- One step of some thread, with those of the threads that enter a message.
pub data Transicion (c : Configuracion) : Sistema → Sistema → Type 0 where
  escribe :
      (s : Sistema) (b : Broker) → Paso c s.broker b → Transicion c s (record s { broker = b })
  -- `++id_mensaje_global`, under the mutex of the id.
  cuenta :
      (s : Sistema)
      → Transicion c s (record s {
        broker = record s.broker { id_mensaje_global = suc s.broker.id_mensaje_global };
        contados = suc s.contados;
      })
  -- `return id_mensaje_global`, under no mutex.
  lee :
      (s : Sistema) (n : ℕ)
      → s.contados ≡ suc n
      → Transicion c s (record s { contados = n; leidos = s.broker.id_mensaje_global ∷ s.leidos })
  -- `list_add`, under the mutex of the list, by any of the threads that have an id.
  agrega :
      (s : Sistema) (k id : ℕ) (carga : Carga) (size_msg : ℕ)
      → get_elem? s.leidos k ≡ some id
      → Transicion c s (record s {
        broker = con_mensaje (mensaje_nuevo carga size_msg id) s.broker;
        leidos = remove_at s.leidos k;
      })

-- Some steps of the threads, in any order.
pub data Corrida (c : Configuracion) : Sistema → Sistema → Type 0 where
  parada : (s : Sistema) → Corrida c s s
  avanza : (a b d : Sistema) → Corrida c a b → Transicion c b d → Corrida c a d

pub seguir_tras :
    (c : Configuracion) (a b d : Sistema) → Corrida c a b → Corrida c b d → Corrida c a d
seguir_tras c a _ _ ps (parada b) = ps
seguir_tras c a _ _ ps (avanza b d e qs p) = avanza a d e (seguir_tras c a b d ps qs) p

pub Pasos-Corrida :
    (c : Configuracion) (a b : Broker) → Pasos c a b → Corrida c (en_reposo a) (en_reposo b)
Pasos-Corrida c _ _ (quieto b) = parada (en_reposo b)
Pasos-Corrida c _ _ (luego a b d ps p) =
    avanza (en_reposo a) (en_reposo b) (en_reposo d) (Pasos-Corrida c a b ps)
      (escribe (en_reposo b) d p)

-- The threads of a Broker that was just started lead to this state.
abbrev pub Alcanzable : Configuracion → Sistema → Type 0
Alcanzable c s = Corrida c (en_reposo (iniciar_broker c)) s
