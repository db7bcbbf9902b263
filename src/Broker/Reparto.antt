-- ===== src/Broker/Reparto.antt =====
-- Broker/src/Broker.c: where no two threads are between the unlock and the read of `get_id` at the
-- same moment, every thread gets an id of its own.
use sistemas_operativos_utn.Base.{ℕ, ◌+◌, ◌≤◌, List, ◌++◌, Todas}
use sistemas_operativos_utn.Broker.Estado.{Configuracion}
use sistemas_operativos_utn.Broker.Coherencia.{ids, Distintas}
use sistemas_operativos_utn.Broker.Sistema.{Sistema, Corrida, parada, avanza}

-- At every moment of the steps at most one thread is between the unlock and the read.
abbrev pub SinCruce : (c : Configuracion) (s d : Sistema) → Corrida c s d → Type 0
SinCruce c _ _ (parada s) = Unit
SinCruce c _ _ (avanza a b d ps t) = SinCruce c a b ps × (d.contados ≤ 1)

-- The ids that threads hold and those of the messages.
abbrev repartidos : Sistema → List ℕ
repartidos s = s.leidos ++ ids s.broker.list_mensajes

-- The ids given are different, and no larger than the global less the threads that have yet to read.
record Repartidos (s : Sistema) : Type 0 where
  distintos : Distintas (repartidos s)
  dados : Todas (λ x. x + s.contados ≤ s.broker.id_mensaje_global) (repartidos s)
