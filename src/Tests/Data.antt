-- ===== src/Tests/Data.antt =====
-- The database of the tests, with an admin token and a scoped one that may list and add TXT records
-- in zone 5, and the requests to it. The hash prefixes its input.
use bunny_api_proxy.Base.{◌==◌, pos, String, ap, ◌≢◌, true, false, some, [], ◌∷◌, arith, refl}
use Prim.Native.String
use bunny_api_proxy.Storage.Types.{Token, Permission}
use bunny_api_proxy.Storage.Db.{Db}
use bunny_api_proxy.Storage.Valid.{IsValid}
use bunny_api_proxy.Auth.Types.{post, HttpRequest, KeyInfo, Request, add_record}
use bunny_api_proxy.Auth.Bootstrap.{BootstrapService, new_bootstrap_service}
use bunny_api_proxy.Admin.Types.{info}
use bunny_api_proxy.Admin.Server.{State}

abbrev pub prefix_hash : String → String
prefix_hash s = String.◌++◌ "hash of " s

abbrev pub service : BootstrapService
service = new_bootstrap_service prefix_hash "master"

abbrev pub admin_row : Token
admin_row = record {
  id = pos 1;
  key_hash = prefix_hash "root-key";
  name = "root";
  is_admin = true;
  created_at = 1;
}

abbrev pub scoped_row : Token
scoped_row = record {
  id = pos 2;
  key_hash = prefix_hash "acme-key";
  name = "acme";
  is_admin = false;
  created_at = 2;
}

abbrev pub txt_row : Permission
txt_row = record {
  id = pos 1;
  token_id = pos 2;
  zone_id = pos 5;
  allowed_actions = "list_records" ∷ "add_record" ∷ [];
  record_types = "TXT" ∷ [];
  created_at = 2;
}

abbrev pub two_tokens : Db
two_tokens = record {
  tokens = admin_row ∷ scoped_row ∷ [];
  permissions = txt_row ∷ [];
  token_seq = 2;
  permission_seq = 1;
  now = 3;
  outcomes = [];
}

pub two_tokens-IsValid : IsValid two_tokens
two_tokens-IsValid = record {
  ids = (((λ e. ground (arith, e)), tt), (tt, tt));
  hashes = (((λ e. other_hash e), tt), (tt, tt));
  issued = ((omega arith, omega arith), ((omega arith, omega arith), tt));
  permission_ids = (tt, tt);
  permission_issued = ((omega arith, omega arith), tt);
  owned = (refl, tt);
  checked = (refl, tt);
}
  where
    other_hash : admin_row.key_hash ≢ scoped_row.key_hash
    other_hash e = ground (arith, ap (λ s. s == admin_row.key_hash) e)

abbrev pub server : State
server = record { db = two_tokens; log_level = info }

-- POST /dnszone/5/records with a TXT record
abbrev pub add_txt : HttpRequest
add_txt = record {
  method = post;
  path = "/dnszone/5/records";
  access_key = "acme-key";
  body = record { is_readable = true; type_field = some (pos 3) };
}

abbrev pub txt_request : Request
txt_request = record { action = add_record; zone_id = pos 5; record_type = "TXT" }

abbrev pub acme_info : KeyInfo
acme_info = record { key_id = pos 2; key_name = "acme"; permissions = txt_row ∷ [] }
