-- ===== src/Tests/Api.antt =====
-- The theorems on the admin API at concrete calls.
use bunny_api_proxy.Base.{◌<◌, ◌⊎◌, ◌≡◌, refl, true, false, some, List, [], ◌∷◌, arith, count, ◌==◌}
use bunny_api_proxy.Storage.Db.{works, exec_fails, advance, next}
use bunny_api_proxy.Storage.Tokens.{list_tokens, is_admin_token, get_token_by_hash}
use bunny_api_proxy.Storage.Valid.{IsValid}
use bunny_api_proxy.Go.Trim.{trim_space, trim_left, trim_right}
use bunny_api_proxy.Auth.Bootstrap.{is_master_key}
use bunny_api_proxy.Auth.Context.{Context, background, with_token, with_admin}
use bunny_api_proxy.Admin.Access
use bunny_api_proxy.Admin.Access.{token_auth}
use bunny_api_proxy.Admin.Create.{CreateTokenRequest}
use bunny_api_proxy.Admin.Server.{
  get_tokens, post_token, delete_token, serve, Event, request, environment, run,
}
use bunny_api_proxy.Admin.Server.Valid.{run-IsValid}
use bunny_api_proxy.Admin.Server.LastAdmin.{run-HasAdmin}
use bunny_api_proxy.Admin.Server.Locked.{locked_answer, serve-master_locked}
use bunny_api_proxy.Admin.Server.Admins.{SameTables, IsAdminKey, serve-IsAdminKey}
use mathlib.Core.List.{Perm}
use bunny_api_proxy.Base.{pos}
use bunny_api_proxy.Storage.Types.{Token, ok}
use bunny_api_proxy.Storage.Listing.{NewestFirst, list_tokens-NewestFirst}
use bunny_api_proxy.Admin.Create.{handle_create_unified_token}
use bunny_api_proxy.Admin.Create.Atomic.{Effect, handle_create-Effect}
use bunny_api_proxy.Tests.Data.{
  prefix_hash, service, admin_row, two_tokens, two_tokens-IsValid, server,
}

abbrev second_admin : CreateTokenRequest
second_admin = record {
  name = "second";
  is_admin = true;
  zones = [];
  actions = [];
  record_types = [];
}

-- A second admin is created, the first is deleted, and the deletion of the second fails.
abbrev events : List Event
events =
    request "root-key" (post_token (some (10 ∷ 11 ∷ [])) (some second_admin))
    ∷ request "root-key" (delete_token "1")
    ∷ environment 7 (works ∷ exec_fails ∷ [])
    ∷ request "0a0b" (delete_token "3")
    ∷ []

run-IsValid_example : IsValid (run prefix_hash (some service) events server).db
run-IsValid_example = run-IsValid prefix_hash (some service) events server two_tokens-IsValid

run-HasAdmin_example :
    0 < count is_admin_token (run prefix_hash (some service) events server).db.tokens
run-HasAdmin_example =
    run-HasAdmin prefix_hash (some service) events server two_tokens-IsValid (omega arith)

master_key-given : (trim_space " master" == "") ≡ false
unfolding trim_space trim_left trim_right
master_key-given = refl

master_key-matches : is_master_key prefix_hash service (trim_space " master") ≡ true
unfolding trim_space trim_left trim_right
master_key-matches = refl

serve-master_locked_example :
    let s' = run prefix_hash (some service) events server in
    serve prefix_hash (some service) " master" get_tokens s'
    ≡ (locked_answer (next s'.db), record s' { db = advance s'.db })
serve-master_locked_example =
    serve-master_locked prefix_hash service events server " master" get_tokens two_tokens-IsValid
      (omega arith) master_key-given master_key-matches

serve-IsAdminKey_example :
    let s' = (serve prefix_hash (some service) "acme-key" (delete_token "1") server).1 in
    (SameTables two_tokens s'.db × (s'.log_level ≡ server.log_level))
    ⊎ IsAdminKey prefix_hash (some service) "acme-key" two_tokens
serve-IsAdminKey_example =
    serve-IsAdminKey prefix_hash (some service) "acme-key" (delete_token "1") server

abbrev root_context : Context
root_context = with_admin (with_token background admin_row) true

root_key-passes :
    (token_auth prefix_hash (some service) "root-key" background two_tokens).0
    ≡ Access.next root_context
unfolding token_auth trim_space trim_left trim_right get_token_by_hash
root_key-passes = refl

abbrev scoped_request : CreateTokenRequest
scoped_request = record {
  name = "dns";
  is_admin = false;
  zones = pos 7 ∷ pos 0 ∷ [];
  actions = "list_records" ∷ [];
  record_types = "TXT" ∷ [];
}

-- The second zone is refused by the store, so the new token is deleted again.
handle_create-Effect_example :
    let (r, db') =
      handle_create_unified_token prefix_hash
        (some service)
        (some (10 ∷ 11 ∷ []))
        root_context
        (some scoped_request)
        two_tokens in
    Effect prefix_hash (some (10 ∷ 11 ∷ [])) (some scoped_request) two_tokens r db'
handle_create-Effect_example =
    handle_create-Effect prefix_hash (some service) (some (10 ∷ 11 ∷ [])) root_context
      (some scoped_request) two_tokens two_tokens-IsValid refl

list_tokens-NewestFirst_example :
    (l : List Token) × ((list_tokens two_tokens).0 ≡ ok l)
    × Perm l two_tokens.tokens
    × NewestFirst l
list_tokens-NewestFirst_example = list_tokens-NewestFirst two_tokens refl
