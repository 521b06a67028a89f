-- ===== src/Catalog/Atomic.antt =====
-- A product creation that raises stores nothing of the product.
use backend_project.Prelude.{Uuid, ◌≡◌, ◌≢◌, refl, sym, ap, ◌∙◌, ◌⊎◌, inl, inr, List}
use backend_project.Errors.{
  Fault, Result, ok, raised, app_exception, integrity_error, no_result_found,
  multiple_results_found, failure,
}
use backend_project.Models.{Database, Product, ProductVariant}
use backend_project.Models.Enums.{UserRole}
use backend_project.Session.{
  Env, Outcome, accepted, rejected, failed, Session, start, pure, continue, rollback_and_raise,
  ◌>>=◌,
}
use backend_project.Session.Settle.{settle, conclude, transaction-settle}
use backend_project.Catalog.{create_product, on_product_fault}
use backend_project.Catalog.Bodies.{
  ProductCreateRequest, ProductResponse, add_product, serialize_product,
}

-- What a call that raised left: the database as it was, or as others have changed it.
abbrev pub IsUntouched : Env → Database → Session → Type 0
IsUntouched env db s =
    (s.committed ≡ db) ⊎ ((d : Database) × (env.outcome d ≡ rejected s.committed))

another :
    (f g : Fault)
    → ◌≡◌ {A = Result (Product × List ProductVariant)} (raised f) (raised g)
    → f ≢ integrity_error
    → g ≢ integrity_error
another f g p n q = n (same p ∙ q)
  where
    same : ◌≡◌ {A = Result (Product × List ProductVariant)} (raised f) (raised g) → f ≡ g
    same r = cc

-- What the handlers leave
handled :
    (f : Fault) (t : Session) (g : Fault) (s : Session)
    → on_product_fault {A = Product × List ProductVariant} f t ≡ (raised g, s)
    → (g ≢ integrity_error) × (s.committed ≡ t.committed)
unfolding on_product_fault rollback_and_raise ◌>>=◌
handled integrity_error t g s e =
    (another _ g (ap (λ r. r.0) e) (λ q. cc), sym (ap (λ r. r.1.committed) e))
handled (app_exception n c) t g s e =
    (another _ g (ap (λ r. r.0) e) (λ q. cc), sym (ap (λ r. r.1.committed) e))
handled failure t g s e = (another _ g (ap (λ r. r.0) e) (λ q. cc), sym (ap (λ r. r.1.committed) e))
handled no_result_found t g s e =
    (another _ g (ap (λ r. r.0) e) (λ q. cc), sym (ap (λ r. r.1.committed) e))
handled multiple_results_found t g s e =
    (another _ g (ap (λ r. r.0) e) (λ q. cc), sym (ap (λ r. r.1.committed) e))

-- A product creation that raises never raises an IntegrityError, and leaves the committed database as
-- it was or, where a constraint has refused its commit because of rows of others, as those others have
-- left it: neither the product nor any of its variants is stored.
pub create_product-IsUntouched :
    (env : Env) (tenant_id : Uuid) (request : ProductCreateRequest) (role : UserRole)
    (db : Database) (s : Session) (fault : Fault)
    → create_product env tenant_id request role (start db) ≡ (raised fault, s)
    → (fault ≢ integrity_error) × IsUntouched env db s
unfolding create_product ◌>>=◌
create_product-IsUntouched env tenant_id request role db s fault e =
    by_body (add_product env tenant_id request db) (
      sym (
        ap after
          (transaction-settle env on_product_fault (start db) (add_product env tenant_id request)))
      ∙ e)
  where
    after : Result (Product × List ProductVariant) × Session → Result ProductResponse × Session
    after (r, t) = continue r (λ made. pure (serialize_product role made.0 made.1)) t

    -- What follows the transaction runs only if it returns.
    unchanged :
        (m : Result (Product × List ProductVariant) × Session)
        → after m ≡ (raised fault, s)
        → m ≡ (raised fault, s)
    unchanged (ok a, t) q = cc
    unchanged (raised f, t) q = cc

    by_body :
        (x : Result ((Product × List ProductVariant) × Database))
        → after (settle env on_product_fault (start db) x) ≡ (raised fault, s)
        → (fault ≢ integrity_error) × IsUntouched env db s
    by_body (raised f) q =
        let (other, kept) = handled f (start db) fault s (unchanged _ q) in (other, inl kept)
    by_body (ok (a, d)) q = by_outcome (env.outcome d) refl q
      where
        by_outcome :
            (o : Outcome)
            → env.outcome d ≡ o
            → after (conclude env on_product_fault (start db) o a d) ≡ (raised fault, s)
            → (fault ≢ integrity_error) × IsUntouched env db s
        by_outcome accepted p q = cc
        by_outcome (rejected x) p q =
            let (other, kept) =
              handled integrity_error (record (start db) { committed = x; working = d }) fault s
                (unchanged _ q) in
            (other, inr (d, p ∙ ap rejected (sym kept)))
        by_outcome failed p q =
            let (other, kept) =
              handled failure (record (start db) { working = d }) fault s (unchanged _ q) in
            (other, inl kept)
