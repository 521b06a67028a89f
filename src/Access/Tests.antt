-- ===== src/Access/Tests.antt =====
-- A request of the sample shop's administrator.
use backend_project.Prelude.{str_eq, if◌then◌else◌, ◌≡◌, refl, some, none, [], ◌∷◌}
use backend_project.Errors
use backend_project.Errors.{ok, raised, app_exception, forbidden}
use backend_project.Models.Enums.{tenant_admin, analyst}
use backend_project.Table.{select}
use backend_project.Samples.{admin, shop}
use backend_project.Access.{
  TokenLibrary, decode_token, token_user, get_current_user, check_roles, require_roles, Names,
  IsEntitled, require_roles-IsEntitled,
}

-- One token is valid, and two texts are ids.
abbrev library : TokenLibrary
library = record {
  decode = λ token.
      some
        (record { typ = "access"; sub = "u"; tenant_id = "t"; role = none; jti = none; exp = 500 });
  parse_uuid = λ text. if str_eq text "u" then some 40 else some 1;
}

admitted : require_roles library (tenant_admin ∷ []) (some "token") shop ≡ ok admin
unfolding require_roles get_current_user check_roles token_user decode_token select Errors.◌>>=◌
admitted = refl

refused :
    require_roles library (analyst ∷ []) (some "token") shop ≡ raised (app_exception 403 forbidden)
unfolding require_roles get_current_user check_roles token_user decode_token select Errors.◌>>=◌
refused = refl

require_roles-IsEntitled_example :
    Names library "token" admin × IsEntitled (tenant_admin ∷ []) shop admin
require_roles-IsEntitled_example =
    require_roles-IsEntitled library (tenant_admin ∷ []) "token" shop admin admitted
