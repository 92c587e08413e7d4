-- ===== src/Disputes/Consistency.antt =====
-- `create` of DisputesService and the consistency of the database.
use fixitph_backend.Schema.{Db}
use fixitph_backend.Transaction.{Env, AuthenticatedUser}
use fixitph_backend.Transaction.Keeps.{Keeps, with_user-keeps}
use fixitph_backend.Database.Consistency.{IsConsistent}
use fixitph_backend.Database.WritesKeep.{writes_keep}
use fixitph_backend.Disputes.Service.{
  CreateDisputeDto, mark_disputed, file_dispute, create_tx, create,
}

create_tx-Keeps :
    (env : Env) (user : AuthenticatedUser) (dto : CreateDisputeDto)
    → Keeps IsConsistent (create_tx env user dto)
unfolding create_tx file_dispute mark_disputed
create_tx-Keeps env user dto = search writes_keep depth 20

pub create_keeps :
    (env : Env) (user : AuthenticatedUser) (d : Db)
    → IsConsistent d
    → (dto : CreateDisputeDto) → IsConsistent (create env user dto d).0
unfolding create
create_keeps env user d c dto = with_user-keeps _ _ _ _ d (create_tx-Keeps env user dto) c
