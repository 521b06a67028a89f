-- ===== src/Pagination/Tests.antt =====
-- A walk over the two warehouses of the sample shop, one to a page, with a codec in unary.
use backend_project.Prelude.{◌≡◌, ◌==◌, ◌&&◌, refl, arith, Bool, none, some, [], ◌∷◌}
use backend_project.Errors
use backend_project.Errors.{ok, raised, failure}
use backend_project.Models.{Warehouse, warehouse_row}
use backend_project.Table.{select}
use backend_project.Samples.{warehouse, shop}
use backend_project.Pagination.{
  no_object, encode_cursor, decode_cursor, insert_by_id, order_by_id, list_page, walk,
}
use backend_project.Pagination.Walk.{walk_complete}
use backend_project.Pagination.Samples.{unary, size, payload, unary_codec, unary_codec-IsFaithful}

abbrev is_active_here : Warehouse → Bool
is_active_here w = w.tenant_id == 1 && w.is_active

walk_test :
    walk unary_codec is_active_here 1 shop.warehouses 3 none ≡ ok (warehouse 10 ∷ warehouse 11 ∷ [])
unfolding walk list_page encode_cursor decode_cursor payload order_by_id insert_by_id select unary
    size Errors.◌>>=◌
walk_test = refl

walk_complete_example :
    walk unary_codec is_active_here 1 shop.warehouses 3 none
    ≡ ok (select is_active_here (order_by_id shop.warehouses))
unfolding order_by_id insert_by_id select
walk_complete_example =
    walk_complete unary_codec is_active_here 1 shop.warehouses 3 unary_codec-IsFaithful
      (omega arith) (omega arith) (omega arith)

-- A cursor that holds JSON, but no object, is an internal error.
no_object_test :
    decode_cursor (record unary_codec { loads = λ cursor. some no_object }) (some "W10=")
    ≡ raised failure
unfolding decode_cursor
no_object_test = refl
