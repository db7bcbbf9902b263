-- ===== src/Broker/Enviables.antt =====
-- Broker/src/Broker.c: a payload whose name ends in a 0 can be sent to the subscribers of its queue.
use sistemas_operativos_utn.Base.{ℕ, ◌+◌, ◌^◌, ◌<◌, ◌≡◌, refl, some, List, length, arith, ◌∷◌}
use sistemas_operativos_utn.Universo.{Pokemon, Posicion, Localized, tamanio_localized}
use sistemas_operativos_utn.Sockets.Codigos.{localized_pokemon}
use sistemas_operativos_utn.Sockets.Bytes.{bytes_de, take}
use sistemas_operativos_utn.Sockets.Serializacion.{
  Paquete, campos_posiciones, serializar_paquete_localized,
}
use sistemas_operativos_utn.Sockets.Copia.{serializar_campos_lem, imagen}
use sistemas_operativos_utn.Sockets.Viaje.{PokemonBien, leer_nombre_lem}
use sistemas_operativos_utn.Sockets.Campos.{campos_pokemon, largo_pokemon, largo_entero}
use sistemas_operativos_utn.Sockets.Localizada.{largo_posiciones}
use sistemas_operativos_utn.Sockets.Envio.{send, enviar_localized_pokemon}
use sistemas_operativos_utn.Sockets.Envio.Llegada.{
  Corto, enviar_new_pokemon-Llega, enviar_appeared_pokemon-Llega, enviar_catch_pokemon-Llega,
  enviar_get_pokemon-Llega, enviar_caught_pokemon-Llega,
}
use sistemas_operativos_utn.Broker.Estado.{
  Carga, de_new, de_appeared, de_get, de_localized, de_catch, de_caught, suscripcion_de,
}
use sistemas_operativos_utn.Broker.Envio.{cadena, enviar_carga}
use sistemas_operativos_utn.Broker.Pasos.{cola_de_carga}

-- The block of a name has its final 0, after a text that is short enough.
pub record NombreBien (p : Pokemon) : Type 0 where
  pub texto : List ℕ
  pub termina_en_cero : cadena p.nombre ≡ some texto
  pub corto : Corto texto

abbrev pub CargaBien : Carga → Type 0
CargaBien (de_new new) = NombreBien new.pokemon
CargaBien (de_appeared app) = NombreBien app.pokemon
CargaBien (de_get get) = NombreBien get.pokemon
CargaBien (de_localized loc) = PokemonBien loc.pokemon
CargaBien (de_catch catch) = NombreBien catch.pokemon
CargaBien (de_caught caught) = Unit

module _ (malloc : ℕ → List ℕ) (m : (n : ℕ) → length (malloc n) ≡ n) where
  localized_enviada :
      (pokemon : Pokemon) (posiciones : List Posicion) (id : ℕ)
      → PokemonBien pokemon
      → (enviado : List ℕ) × (enviar_localized_pokemon malloc pokemon posiciones id ≡ some enviado)
  unfolding enviar_localized_pokemon serializar_paquete_localized send tamanio_localized
  localized_enviada pokemon posiciones id b =
      let l : Localized = record { pokemon = pokemon; lista_posiciones = posiciones } in
      let p : Paquete = record {
        codigo_operacion = localized_pokemon;
        size = tamanio_localized l;
        id_mensaje = id;
      } in
      let tras = bytes_de (length posiciones) ∷ campos_posiciones posiciones in
      let e =
        serializar_campos_lem malloc p (4 + 4 + 4 + p.size) (campos_pokemon pokemon tras) (m _) (
          ground (
            arith,
            largo_pokemon pokemon tras b,
            largo_entero (length posiciones) (campos_posiciones posiciones),
            largo_posiciones posiciones,
          )) in
      (
        take (4 + 4 + 4 + p.size) (imagen p (campos_pokemon pokemon tras)),
        rw (leer_nombre_lem pokemon b, e) refl,
      )

  module _ (atoi : List ℕ → ℕ) (string_itoa : ℕ → List ℕ) (sin_iniciar : ℕ)
      (a : (s : List ℕ) → atoi s < 2 ^ 32) (cabe : sin_iniciar < 2 ^ 32) where
    pub carga-Enviable :
        (carga : Carga) (id : ℕ)
        → CargaBien carga
        → (enviado : List ℕ) × (enviar_carga malloc atoi string_itoa sin_iniciar
              (suscripcion_de (cola_de_carga carga))
              id
              carga
            ≡ some enviado)
    unfolding enviar_carga cola_de_carga suscripcion_de
    carga-Enviable (de_new new) id b =
        let l =
          enviar_new_pokemon-Llega malloc atoi m a b.texto (string_itoa new.posicion.x)
            (string_itoa new.posicion.y) (string_itoa new.cant) (string_itoa id) b.corto in
        (l.enviado, rw (b.termina_en_cero, l.hecho) refl)
    carga-Enviable (de_appeared app) id b =
        let l =
          enviar_appeared_pokemon-Llega malloc atoi m a b.texto (string_itoa app.posicion.x)
            (string_itoa app.posicion.y) (string_itoa id) b.corto in
        (l.enviado, rw (b.termina_en_cero, l.hecho) refl)
    carga-Enviable (de_get get) id b =
        let l = enviar_get_pokemon-Llega malloc atoi m a b.texto (string_itoa id) b.corto in
        (l.enviado, rw (b.termina_en_cero, l.hecho) refl)
    carga-Enviable (de_localized loc) id b = localized_enviada loc.pokemon loc.lista_posiciones id b
    carga-Enviable (de_catch catch) id b =
        let l =
          enviar_catch_pokemon-Llega malloc atoi m a b.texto (string_itoa catch.posicion.x)
            (string_itoa catch.posicion.y) (string_itoa id) b.corto in
        (l.enviado, rw (b.termina_en_cero, l.hecho) refl)
    carga-Enviable (de_caught caught) id b =
        let l =
          enviar_caught_pokemon-Llega malloc atoi m a sin_iniciar (string_itoa id)
            (string_itoa caught.fue_atrapado) cabe in
        (l.enviado, l.hecho)
