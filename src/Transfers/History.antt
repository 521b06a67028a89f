-- ===== src/Transfers/History.antt =====
-- The transfer service as a whole: a sequence of calls, each from a session of its own.
use backend_project.Prelude.{All, Uuid, ℤ, pos, ◌≤ℤ◌, ◌≡◌, List, [], ◌∷◌, some}
use backend_project.Models.{Database, User}
use backend_project.Session.{Env, start}
use backend_project.Transfers.{
  TransferCreateRequest, TransferConfirmRequest, create_transfer, confirm_transfer, cancel_transfer,
}

-- One call of the transfer service.
pub data Operation : Type 0 where
  create : TransferCreateRequest → Operation
  confirm : Uuid → TransferConfirmRequest → Operation
  cancel : Uuid → Operation

pub record Call : Type 0 where
  pub env : Env
  pub tenant_id : Uuid
  pub actor : User
  pub operation : Operation

-- The bounds of app/schemas.py.
abbrev pub IsValidOperation : Operation → Type 0
IsValidOperation (create request) = pos 1 ≤ℤ request.quantity
IsValidOperation (confirm id request) = (r : ℤ) → request.received_quantity ≡ some r → pos 1 ≤ℤ r
IsValidOperation (cancel id) = Unit

-- The database that a call leaves.
abbrev pub perform : Env → Uuid → User → Operation → Database → Database
perform env tenant_id actor (create request) db =
    (create_transfer env tenant_id actor request (start db)).1.committed
perform env tenant_id actor (confirm id request) db =
    (confirm_transfer env tenant_id actor id request (start db)).1.committed
perform env tenant_id actor (cancel id) db =
    (cancel_transfer env tenant_id actor id (start db)).1.committed

unfoldable pub serve : List Call → Database → Database
serve [] db = db
serve (c ∷ cs) db = serve cs (perform c.env c.tenant_id c.actor c.operation db)

pub serve_induction :
    {P : Database → Type 0} {Q : Call → Type 0}
    → ((c : Call)
        → Q c
        → (db : Database) → P db
        → P (perform c.env c.tenant_id c.actor c.operation db))
    → (cs : List Call) → All Q cs
    → (db : Database) → P db
    → P (serve cs db)
unfolding serve
serve_induction step [] h db p = p
serve_induction step (c ∷ cs) h db p = serve_induction step cs h.1 _ (step c h.0 db p)
