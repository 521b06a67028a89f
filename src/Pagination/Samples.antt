-- ===== src/Pagination/Samples.antt =====
-- A codec for cursors: ids in unary, with a mark before them.
use backend_project.Prelude.{ℕ, zero, suc, ◌≡◌, ◌≢◌, refl, ap, arith, String, Option, none, some}
use Prim.Native.String as Text
use backend_project.Pagination.{CursorCodec, Payload, object, text}
use backend_project.Pagination.Walk.{IsFaithful}

unfoldable pub unary : ℕ → String
unary zero = Text.◌∷◌ "x" Text.[]
unary (suc k) = Text.◌∷◌ "x" (unary k)

unfoldable pub size : String → ℕ
size Text.[] = zero
size (Text.◌∷◌ c s) = suc (size s)

abbrev one_less : ℕ → Option ℕ
one_less zero = none
one_less (suc k) = some k

-- A cursor is the id's text with a mark before it.
unfoldable pub payload : String → Option Payload
payload Text.[] = none
payload (Text.◌∷◌ c id) = some (object (some (text id)))

abbrev pub unary_codec : CursorCodec
unary_codec = record {
  dumps = λ id. Text.◌∷◌ "c" id;
  loads = payload;
  show_uuid = unary;
  parse_uuid = λ s. one_less (size s);
}

size-unary : (k : ℕ) → size (unary k) ≡ suc k
unfolding unary size
size-unary zero = refl
size-unary (suc k) = ap suc (size-unary k)

dumped-not_empty : (id : String) → Text.◌∷◌ "c" id ≢ ""
unfolding size
dumped-not_empty id e = let sizes = ap size e in omega arith

pub unary_codec-IsFaithful : IsFaithful unary_codec
unfolding payload
unary_codec-IsFaithful = record {
  loaded = λ id. refl;
  not_empty = dumped-not_empty;
  uuid_back = λ k. ap one_less (size-unary k);
}
