-- ===== src/Broker/Mantiene.antt =====
-- Broker/src/Broker.c: what a step of a thread leaves as it was.
use sistemas_operativos_utn.Base.{
  ℕ, suc, ◌≡◌, refl, sym, ap, subst, ◌∙◌, Option, none, some, List, [], ◌∷◌, ◌++◌, arith,
  Bool-cases, Option-cases, inl, inr, Si, ◌==◌,
}
use sistemas_operativos_utn.Sockets.Codigos.{OpCode}
use sistemas_operativos_utn.Particiones.Tabla.{Particion, Memoria, actualizar_ids, actualizar_id}
use sistemas_operativos_utn.Particiones.Rastro.Desalojo.{TodasSanas}
use sistemas_operativos_utn.Broker.Estado.{Suscriptor, InfoMensaje, Configuracion, Broker}
use sistemas_operativos_utn.Broker.Consultas.{proceso_suscripto_a_cola, obtener_suscriptor}
use sistemas_operativos_utn.Broker.Recepcion.{con_correlativo, con_proceso}
use sistemas_operativos_utn.Broker.Envio.{usar, es_lru}
use sistemas_operativos_utn.Broker.Suscripcion.{suscribir, con_envio, con_recepcion}
use sistemas_operativos_utn.Broker.Coherencia.{ids}
use sistemas_operativos_utn.Broker.Pasos.{
  sin_ids, Paso, correlativo, guarda, proceso, suscribe, renueva, anota_envio, anota_ack, semaforos,
  Pasos, quieto, luego,
}
use sistemas_operativos_utn.Broker.Avance.{modificar-ids}

actualizar_ids-sin_ids :
    (id_mensaje contador : ℕ) (t : List Particion)
    → sin_ids (actualizar_ids id_mensaje contador t).0 ≡ sin_ids t
unfolding actualizar_ids
actualizar_ids-sin_ids id_mensaje contador [] = refl
actualizar_ids-sin_ids id_mensaje contador (p ∷ ps) =
    elim (Bool-cases (p.id_mensaje == id_mensaje)) [
      | inl e ↦
          rw e (
            ap (λ x. record p { id = 0 } ∷ x) (actualizar_ids-sin_ids id_mensaje (suc contador) ps))
      | inr e ↦
          rw e (ap (λ x. record p { id = 0 } ∷ x) (actualizar_ids-sin_ids id_mensaje contador ps))
    ]

-- `actualizarID` writes to the ids of the partitions only.
pub usar-sin_ids :
    (c : Configuracion) (mensaje : InfoMensaje) (m : Memoria)
    → sin_ids (usar c mensaje m).tabla ≡ sin_ids m.tabla
unfolding usar actualizar_id
usar-sin_ids c mensaje m = elim (Bool-cases (es_lru c.alg_reemplazo)) [
  | inl e ↦ rw e (actualizar_ids-sin_ids mensaje.id_mensaje m.id_particion m.tabla)
  | inr e ↦ rw e refl
]

con_cero :
    (P : Option OpCode → ℕ → Type 0) (t : List Particion)
    → TodasSanas P t
    → TodasSanas P (sin_ids t)
con_cero P [] h = tt
con_cero P (p ∷ ps) (h, hs) = (h, con_cero P ps hs)

sin_cero :
    (P : Option OpCode → ℕ → Type 0) (t : List Particion)
    → TodasSanas P (sin_ids t)
    → TodasSanas P t
sin_cero P [] h = tt
sin_cero P (p ∷ ps) (h, hs) = (h, sin_cero P ps hs)

-- What is said of the codes and the messages of the partitions does not depend on their ids.
pub sin_ids-TodasSanas :
    (P : Option OpCode → ℕ → Type 0) (t u : List Particion)
    → sin_ids t ≡ sin_ids u
    → TodasSanas P u
    → TodasSanas P t
sin_ids-TodasSanas P t u e h = sin_cero P t (subst (TodasSanas P) (sym e) (con_cero P u h))

abbrev ninguno : Option (Suscriptor × Broker)
ninguno = none

-- Subscribing writes to the list of subscribers only.
pub suscribir-mantiene :
    (P : Broker → Type 0) (x : OpCode) (p : ℕ) (s : Suscriptor) (b b' : Broker)
    → P b
    → ((ss : List Suscriptor) → P (record b { list_suscriptores = ss }))
    → suscribir x p b ≡ some (s, b')
    → P b'
unfolding suscribir
suscribir-mantiene P x p s b b' h k e =
    elim (Bool-cases (proceso_suscripto_a_cola x p b.list_suscriptores)) [
      | inl k1 ↦ elim (Option-cases (obtener_suscriptor p x b.list_suscriptores)) [
        | inl n ↦ let abs : ninguno ≡ some (s, b') = rw (k1, n) at e in ground arith
        | inr (r, n) ↦
            let igual : some (r, b) ≡ some (s, b') = rw (k1, n) at e in
            subst (Si (λ (y : Suscriptor × Broker). P y.1)) igual h
      ]
      | inr k1 ↦
          let igual = rw k1 at e in
          subst (Si (λ (y : Suscriptor × Broker). P y.1)) igual (k (b.list_suscriptores ++ _))
    ]

-- The ids of the messages and the global of the ids.
pub record MismosIds (b b' : Broker) : Type 0 where
  pub mensajes : ids b'.list_mensajes ≡ ids b.list_mensajes
  pub global : b'.id_mensaje_global ≡ b.id_mensaje_global

pub Paso-MismosIds : (c : Configuracion) (b b' : Broker) → Paso c b b' → MismosIds b b'
Paso-MismosIds c _ _ (correlativo i id b) = record {
  mensajes =
      modificar-ids (con_correlativo id)
        (record { op = λ m. refl; id = λ m. refl; carga = λ m. refl }) i b.list_mensajes;
  global = refl;
}
Paso-MismosIds c _ _ (guarda i mensaje m b e g) = record { mensajes = refl; global = refl }
Paso-MismosIds c _ _ (proceso i id b) = record {
  mensajes =
      modificar-ids (con_proceso id) (record { op = λ m. refl; id = λ m. refl; carga = λ m. refl })
        i b.list_mensajes;
  global = refl;
}
Paso-MismosIds c _ _ (suscribe cola p s b b' e) =
    suscribir-mantiene (MismosIds b) _ p s b b' (record { mensajes = refl; global = refl })
      (λ ss. record { mensajes = refl; global = refl }) e
Paso-MismosIds c _ _ (renueva m b e) = record { mensajes = refl; global = refl }
Paso-MismosIds c _ _ (anota_envio i s b) = record {
  mensajes =
      modificar-ids (con_envio s) (record { op = λ m. refl; id = λ m. refl; carga = λ m. refl }) i
        b.list_mensajes;
  global = refl;
}
Paso-MismosIds c _ _ (anota_ack i s b) = record {
  mensajes =
      modificar-ids (con_recepcion s) (record { op = λ m. refl; id = λ m. refl; carga = λ m. refl })
        i b.list_mensajes;
  global = refl;
}
Paso-MismosIds c _ _ (semaforos nuevo primer b) = record { mensajes = refl; global = refl }

-- No step of `Pasos` gives a message another id.
pub Pasos-ids :
    (c : Configuracion) (b b' : Broker) → Pasos c b b' → ids b'.list_mensajes ≡ ids b.list_mensajes
Pasos-ids c _ _ (quieto b) = refl
Pasos-ids c _ _ (luego b d b' ps p) = (Paso-MismosIds c d b' p).mensajes ∙ Pasos-ids c b d ps
