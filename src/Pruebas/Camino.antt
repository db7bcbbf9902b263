-- ===== src/Pruebas/Camino.antt =====
-- A trainer at the origin whose pokemon is at (2, 1).
use sistemas_operativos_utn.Base.{ℕ, ◌≡◌, refl, false, true, some, [], ◌∷◌, ◌⊎◌}
use sistemas_operativos_utn.Universo.{Posicion}
use sistemas_operativos_utn.Team.Entrenador.{PokemonTeam, Entrenador, exec}
use sistemas_operativos_utn.Team.Marcha.{llega, ejecutar_fifo, ejecutar_rr, ejecuta, en_destino}
use sistemas_operativos_utn.Team.Marcha.Turnos.{
  Llegado, Captura, Vuelve, ejecutar_fifo-Llegado, ejecutar_rr-turno,
}

abbrev meta : PokemonTeam
meta = record {
  nombre = record { direccion = 1; texto = 97 ∷ [] };
  cantidad = 1;
  posicion = record { x = 2; y = 1 };
  planificable = false;
}

abbrev caminante : Posicion → ℕ → Entrenador
caminante posicion pasos = record {
  posicion = posicion;
  pokemon_destino = some meta;
  pokemones = [];
  objetivo = [];
  estado = exec;
  id = 4;
  ocupado = true;
  estimacion_anterior = 0;
  cantidad_ejecutada = pasos;
  estimacion = 1;
  ciclos = pasos;
}

abbrev origen : Posicion
origen = record { x = 0; y = 0 }

llega_en_tres : ejecutar_fifo (caminante origen 0) ≡ llega (caminante (record { x = 2; y = 1 }) 3)
unfolding ejecutar_fifo ejecuta en_destino
llega_en_tres = refl

ejecutar_fifo-Llegado_example :
    Llegado meta (caminante origen 0) (ejecutar_fifo (caminante origen 0))
ejecutar_fifo-Llegado_example = ejecutar_fifo-Llegado meta (caminante origen 0) refl

ejecutar_rr-turno_example :
    Captura 2 meta (caminante origen 0) (ejecutar_rr 2 [] (caminante origen 0))
    ⊎ Vuelve 2 [] meta (caminante origen 0) (ejecutar_rr 2 [] (caminante origen 0))
ejecutar_rr-turno_example = ejecutar_rr-turno 2 [] meta (caminante origen 0) refl
