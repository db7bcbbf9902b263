-- ===== src/Broker/Alcance.antt =====
-- Broker/src/Broker.c: the list of messages and the memory are together in every state that the
-- threads reach, and the look-ups hold where no two ids are equal.
use sistemas_operativos_utn.Base.{
  ℕ, zero, suc, ◌+◌, ◌≡◌, refl, sym, ap, ◌∙◌, subst, some, List, [], ◌∷◌, ◌++◌, arith, length,
  get_elem?, remove_at, Si, Todas, Todas-map, Todas-get, Todas-remove,
}
use sistemas_operativos_utn.Sockets.Codigos.{OpCode}
use sistemas_operativos_utn.Particiones.Tabla.{crear_particion}
use sistemas_operativos_utn.Broker.Estado.{Cola, suscripcion_de, mensaje_de, Configuracion}
use sistemas_operativos_utn.Broker.Consultas.{get_mensajes_a_enviar}
use sistemas_operativos_utn.Broker.Servidor.{iniciar_broker}
use sistemas_operativos_utn.Broker.Coherencia.{
  ids, Distintas, Respuesta, get_mensajes_a_enviar-Respuesta,
}
use sistemas_operativos_utn.Broker.Pasos.{EnRango, EsCoherente}
use sistemas_operativos_utn.Broker.Sistema.{
  Sistema, en_reposo, mensaje_nuevo, Transicion, escribe, cuenta, lee, agrega, Corrida, parada,
  avanza, Alcanzable,
}
use sistemas_operativos_utn.Broker.Avance.{ids-append, con_mensaje-EsCoherente}
use sistemas_operativos_utn.Broker.Mantiene.{Paso-MismosIds}
use sistemas_operativos_utn.Broker.Sostiene.{Paso-EsCoherente}

-- What the threads that take an id add: the global counts them and the messages, and the ids that
-- they hold are among those given so far.
pub record EsCoherenteSistema (s : Sistema) : Type 0 where
  pub broker : EsCoherente s.broker
  pub leidos : Todas (EnRango s.broker.id_mensaje_global) s.leidos
  pub cuenta :
      s.broker.id_mensaje_global
      ≡ length (ids s.broker.list_mensajes) + length s.leidos + s.contados

abbrev Agranda : Sistema → List ℕ → Type 0
Agranda s xs = Todas (EnRango (suc s.broker.id_mensaje_global)) xs

agranda : (s : Sistema) (xs : List ℕ) → Todas (EnRango s.broker.id_mensaje_global) xs → Agranda s xs
agranda s xs = Todas-map _ _ xs (λ id h. (h.0, omega arith))

length-remove_at :
    (xs : List ℕ) (k x : ℕ) → get_elem? xs k ≡ some x → suc (length (remove_at xs k)) ≡ length xs
length-remove_at [] k x e = ground arith
length-remove_at (y ∷ ys) zero x e = refl
length-remove_at (y ∷ ys) (suc k) x e = ap suc (length-remove_at ys k x e)

length-append_uno : (xs : List ℕ) (x : ℕ) → length (xs ++ (x ∷ [])) ≡ suc (length xs)
length-append_uno [] x = refl
length-append_uno (y ∷ ys) x = ap suc (length-append_uno ys x)

Transicion-EsCoherenteSistema :
    (c : Configuracion) (s s' : Sistema)
    → Transicion c s s'
    → EsCoherenteSistema s
    → EsCoherenteSistema s'
Transicion-EsCoherenteSistema c _ _ (escribe s b p) h =
    let i = Paso-MismosIds c s.broker b p in
    record {
      broker = Paso-EsCoherente c s.broker b p h.broker;
      leidos = subst (λ g. Todas (EnRango g) s.leidos) (sym i.global) h.leidos;
      cuenta =
          i.global
          ∙ h.cuenta
          ∙ ap (λ xs. length xs + length s.leidos + s.contados) (sym i.mensajes);
    }
Transicion-EsCoherenteSistema c _ _ (cuenta s) h = record {
  broker = record {
    en_rango = agranda s (ids s.broker.list_mensajes) h.broker.en_rango;
    registrada = h.broker.registrada;
    cargas = h.broker.cargas;
  };
  leidos = agranda s s.leidos h.leidos;
  cuenta = omega (arith, h.cuenta);
}
Transicion-EsCoherenteSistema c _ _ (lee s n e) h = record {
  broker = h.broker;
  leidos = ((omega (arith, h.cuenta), omega arith), h.leidos);
  cuenta = omega (arith, h.cuenta);
}
Transicion-EsCoherenteSistema c _ _ (agrega s k id carga size_msg e) h =
    let m = mensaje_nuevo carga size_msg id in
    let rango : EnRango s.broker.id_mensaje_global id =
      subst (Si (EnRango s.broker.id_mensaje_global)) e
        (Todas-get (EnRango s.broker.id_mensaje_global) s.leidos k h.leidos) in
    let largo : length (ids (s.broker.list_mensajes ++ (m ∷ [])))
        ≡ suc (length (ids s.broker.list_mensajes)) =
      ap length (ids-append s.broker.list_mensajes (m ∷ []))
      ∙ length-append_uno (ids s.broker.list_mensajes) id in
    record {
      broker = con_mensaje-EsCoherente m s.broker refl rango h.broker;
      leidos = Todas-remove (EnRango s.broker.id_mensaje_global) s.leidos k h.leidos;
      cuenta = omega (arith, h.cuenta, largo, length-remove_at s.leidos k id e);
    }

Corrida-EsCoherenteSistema :
    (c : Configuracion) (s s' : Sistema)
    → Corrida c s s'
    → EsCoherenteSistema s
    → EsCoherenteSistema s'
Corrida-EsCoherenteSistema c _ _ (parada s) h = h
Corrida-EsCoherenteSistema c _ _ (avanza a b d ps p) h =
    Transicion-EsCoherenteSistema c b d p (Corrida-EsCoherenteSistema c a b ps h)

inicio-EsCoherenteSistema : (c : Configuracion) → EsCoherenteSistema (en_reposo (iniciar_broker c))
unfolding iniciar_broker crear_particion
inicio-EsCoherenteSistema c = record {
  broker = record { en_rango = tt; registrada = (tt, tt); cargas = tt };
  leidos = tt;
  cuenta = refl;
}

pub pasos_coherentes : (c : Configuracion) (s : Sistema) → Alcanzable c s → EsCoherenteSistema s
pasos_coherentes c s p =
    Corrida-EsCoherenteSistema c (en_reposo (iniciar_broker c)) s p (inicio-EsCoherenteSistema c)

-- In every such state in which no two messages have the same id, `getMensajesAEnviar`, run with no
-- other thread in between, reads through no NULL pointer, and every message that it answers is of
-- the queue asked for and was not acknowledged by the process.
pub mensajes_a_enviar_seguros :
    (c : Configuracion) (s : Sistema) (x : OpCode) (cola : Cola) (p : ℕ)
    → Alcanzable c s
    → Distintas (ids s.broker.list_mensajes)
    → Respuesta s.broker.list_mensajes (mensaje_de cola) p (
        get_mensajes_a_enviar x
          (suscripcion_de cola)
          p
          s.broker.list_mensajes
          s.broker.memoria.tabla)
mensajes_a_enviar_seguros c s x cola p a d =
    get_mensajes_a_enviar-Respuesta x cola p s.broker.list_mensajes s.broker.memoria.tabla d
      (pasos_coherentes c s a).broker.registrada
