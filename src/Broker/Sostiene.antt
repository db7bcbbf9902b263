-- ===== src/Broker/Sostiene.antt =====
-- Broker/src/Broker.c: every step of `Pasos` keeps the list of messages and the memory together.
use sistemas_operativos_utn.Base.{ℕ, ◌≡◌, refl, subst, some, List, arith, get_elem?, Si}
use sistemas_operativos_utn.Particiones.Tabla.{Memoria}
use sistemas_operativos_utn.Particiones.Dinamica.{
  Resultado, guardado, sin_lugar, no_implementado, fallo, sin_combustible,
}
use sistemas_operativos_utn.Particiones.Rastro.Desalojo.{MemoriaSana}
use sistemas_operativos_utn.Particiones.Rastro.Guardado.{
  Deja, algoritmo_particion_dinamica-Deja, algoritmo_buddy_system-Deja,
}
use sistemas_operativos_utn.Broker.Estado.{
  suscripcion_de, Suscriptor, InfoMensaje, Configuracion, Broker, bs, particiones, AlgoritmoMemoria,
  para_memoria,
}
use sistemas_operativos_utn.Broker.Recepcion.{
  con_correlativo, con_proceso, guardar_mensaje_en_cache, memoria_tras,
}
use sistemas_operativos_utn.Broker.Suscripcion.{con_envio, con_recepcion}
use sistemas_operativos_utn.Broker.Coherencia.{Registrado}
use sistemas_operativos_utn.Broker.Pasos.{
  Paso, correlativo, guarda, proceso, suscribe, renueva, anota_envio, anota_ack, semaforos,
  EsCoherente,
}
use sistemas_operativos_utn.Broker.Avance.{en_mensajes-EsCoherente}
use sistemas_operativos_utn.Broker.Mantiene.{suscribir-mantiene, sin_ids-TodasSanas}

tras-MemoriaSana :
    (P : Memoria → Type 0) (r : Resultado) (m : Memoria) → Deja P r → memoria_tras r ≡ some m → P m
unfolding memoria_tras
tras-MemoriaSana P (guardado n) m d e = subst (Si P) e d
tras-MemoriaSana P (sin_lugar n) m d e = subst (Si P) e d
tras-MemoriaSana P (no_implementado n) m d e = subst (Si P) e d
tras-MemoriaSana P fallo m d e = ground arith
tras-MemoriaSana P sin_combustible m d e = ground arith

guardar-Deja :
    (c : Configuracion) (mensaje : InfoMensaje) (ms : List InfoMensaje) (i : ℕ) (m : Memoria)
    → get_elem? ms i ≡ some mensaje
    → MemoriaSana (Registrado ms) m
    → Deja (MemoriaSana (Registrado ms)) (guardar_mensaje_en_cache c mensaje m)
unfolding guardar_mensaje_en_cache
guardar-Deja c mensaje ms i m e h =
    let nueva : Registrado ms (some mensaje.op_code) mensaje.id_mensaje = record {
      i = i;
      mensaje = mensaje;
      lugar = e;
      es_op = refl;
      es_id = refl;
    } in
    segun c.alg_memoria nueva
  where
    segun :
        (a : AlgoritmoMemoria)
        → Registrado ms (some mensaje.op_code) mensaje.id_mensaje
        → Deja
            (MemoriaSana (Registrado ms))
            (guardar_mensaje_en_cache (record c { alg_memoria = a }) mensaje m)
    segun bs nueva =
        algoritmo_buddy_system-Deja (Registrado ms) (λ n. tt) (para_memoria mensaje) nueva
          c.size_min_particion c.alg_reemplazo m h
    segun particiones nueva =
        algoritmo_particion_dinamica-Deja (Registrado ms) (λ n. tt) (para_memoria mensaje) nueva
          c.size_min_particion c.frecuencia_compactacion c.alg_reemplazo c.alg_particion_libre m h

con_suscriptores :
    (b : Broker) (ss : List Suscriptor)
    → EsCoherente b
    → EsCoherente (record b { list_suscriptores = ss })
con_suscriptores b ss h = record {
  en_rango = h.en_rango;
  registrada = h.registrada;
  cargas = h.cargas;
}

-- A step keeps the state coherent.
pub Paso-EsCoherente :
    (c : Configuracion) (b b' : Broker) → Paso c b b' → EsCoherente b → EsCoherente b'
Paso-EsCoherente c _ _ (correlativo i id b) h =
    en_mensajes-EsCoherente (con_correlativo id)
      (record { op = λ m. refl; id = λ m. refl; carga = λ m. refl }) i b h
Paso-EsCoherente c _ _ (guarda i mensaje m b e g) h = record {
  en_rango = h.en_rango;
  registrada =
      tras-MemoriaSana (MemoriaSana (Registrado b.list_mensajes)) _ m
        (guardar-Deja c mensaje b.list_mensajes i b.memoria e h.registrada) g;
  cargas = h.cargas;
}
Paso-EsCoherente c _ _ (proceso i id b) h =
    en_mensajes-EsCoherente (con_proceso id)
      (record { op = λ m. refl; id = λ m. refl; carga = λ m. refl }) i b h
Paso-EsCoherente c _ _ (suscribe cola p s b b' e) h =
    suscribir-mantiene EsCoherente (suscripcion_de cola) p s b b' h (λ ss. con_suscriptores b ss h)
      e
Paso-EsCoherente c _ _ (renueva m b e) h = record {
  en_rango = h.en_rango;
  registrada =
      sin_ids-TodasSanas (Registrado b.list_mensajes) m.tabla b.memoria.tabla e h.registrada;
  cargas = h.cargas;
}
Paso-EsCoherente c _ _ (anota_envio i s b) h =
    en_mensajes-EsCoherente (con_envio s)
      (record { op = λ m. refl; id = λ m. refl; carga = λ m. refl }) i b h
Paso-EsCoherente c _ _ (anota_ack i s b) h =
    en_mensajes-EsCoherente (con_recepcion s)
      (record { op = λ m. refl; id = λ m. refl; carga = λ m. refl }) i b h
Paso-EsCoherente c _ _ (semaforos nuevo primer b) h = record {
  en_rango = h.en_rango;
  registrada = h.registrada;
  cargas = h.cargas;
}
