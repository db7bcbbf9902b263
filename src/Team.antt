-- ===== src/Team.antt =====
-- team/src: the process that catches the pokemon, so far the parts of utils.c, pokemon_utils.c and
-- team.c by which the Team decides what it needs, who goes for it, and how a trainer walks.
pub mod Entrenador
pub mod Nombres
pub mod Pokemones
pub mod Objetivos
pub mod Cercania
pub mod Enteros
pub mod Marcha
pub mod Deadlock
