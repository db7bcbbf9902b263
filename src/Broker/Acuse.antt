-- ===== src/Broker/Acuse.antt =====
-- Broker/src/Broker.c: a message that a process acknowledged does not go out to it again.
use sistemas_operativos_utn.Base.{ℕ, ◌≡◌, ◌≢◌, true, Option, some, List, get_elem?, Todas}
use sistemas_operativos_utn.Broker.Estado.{Suscriptor, InfoMensaje, Broker}
use sistemas_operativos_utn.Broker.Consultas.{esta_entre}
use sistemas_operativos_utn.Broker.Suscripcion.{con_recepcion}
use sistemas_operativos_utn.Broker.Pasos.{en_mensajes}
use sistemas_operativos_utn.Broker.Sistema.{Sistema}

-- The answer of a search that does not fault and has not this message.
pub record SinReenviar (i : ℕ) (r : Option (List ℕ)) : Type 0 where
  pub indices : List ℕ
  pub hecho : r ≡ some indices
  pub otros : Todas (λ (j : ℕ). j ≢ i) indices

-- The message at the index has the process among those that received it.
pub record Recibio (p i : ℕ) (ms : List InfoMensaje) : Type 0 where
  pub mensaje : InfoMensaje
  pub lugar : get_elem? ms i ≡ some mensaje
  pub esta : esta_entre p mensaje.suscriptores_que_recibieron ≡ true

-- The state after the thread of a subscriber entered the ACK for the message at the index.
abbrev pub tras_ack : ℕ → Suscriptor → Sistema → Sistema
tras_ack i s e = record e { broker = en_mensajes i (con_recepcion s) e.broker }
