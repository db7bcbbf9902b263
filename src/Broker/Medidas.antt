-- ===== src/Broker/Medidas.antt =====
-- Broker/src/Broker.c: how often a message posts to the semaphores of its queue.
use sistemas_operativos_utn.Base.{
  ℕ, suc, ◌+◌, ◌≤◌, ◌≡◌, refl, List, [], ◌∷◌, ◌++◌, arith, if◌then◌else◌,
}
use sistemas_operativos_utn.Sockets.Codigos.{OpCode}
use sistemas_operativos_utn.Broker.Estado.{Suscriptor, mismo_codigo}
use sistemas_operativos_utn.Broker.Recepcion.{posts}

-- The subscribers of a queue.
unfoldable pub cantidad_suscriptos : OpCode → List Suscriptor → ℕ
unfolding mismo_codigo
cantidad_suscriptos suscripcion [] = 0
cantidad_suscriptos suscripcion (s ∷ ss) =
    (if mismo_codigo s.op_code suscripcion then 1 else 0) + cantidad_suscriptos suscripcion ss

-- What a message posts to a semaphore of its queue: one where nobody is subscribed to anything,
-- and otherwise one more than the subscribers of the queue among all but the last of the list. So
-- each subscriber of the queue gets one, and a message posts once more at most.
pub posts-cantidad_suscriptos :
    (suscripcion : OpCode) (ss : List Suscriptor) (u : Suscriptor)
    → (posts suscripcion [] ≡ 1)
      × ((posts suscripcion (ss ++ (u ∷ [])) ≡ suc (cantidad_suscriptos suscripcion ss))
          × (cantidad_suscriptos suscripcion (ss ++ (u ∷ [])) ≤ posts suscripcion (ss ++ (u ∷ []))))
unfolding posts cantidad_suscriptos mismo_codigo
posts-cantidad_suscriptos suscripcion ss u =
    (refl, (exactos ss, omega (arith, exactos ss, agregado ss)))
  where
    exactos :
        (ss : List Suscriptor)
        → posts suscripcion (ss ++ (u ∷ [])) ≡ suc (cantidad_suscriptos suscripcion ss)
    exactos [] = refl
    exactos (s ∷ []) = omega arith
    exactos (s ∷ (r ∷ rs)) = omega (arith, exactos (r ∷ rs))

    agregado :
        (ss : List Suscriptor)
        → cantidad_suscriptos suscripcion (ss ++ (u ∷ []))
          ≤ suc (cantidad_suscriptos suscripcion ss)
    agregado [] = ground arith
    agregado (s ∷ ss) = omega (arith, agregado ss)
