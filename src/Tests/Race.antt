-- ===== src/Tests/Race.antt =====
-- The theorems on interleaved deletions at a database with two admin tokens.
use bunny_api_proxy.Base.{
  pos, ◌≡◌, ◌≢◌, refl, ap, ◌==◌, true, false, [], ◌∷◌, inl, inr, arith, count,
}
use bunny_api_proxy.Storage.Types.{Token}
use bunny_api_proxy.Storage.Db.{Db}
use bunny_api_proxy.Storage.Tokens.{is_admin_token}
use bunny_api_proxy.Storage.Valid.{IsValid}
use bunny_api_proxy.Admin.Types.{respond, no_content}
use bunny_api_proxy.Admin.Server.Race.{looking, replied, interleave}
use bunny_api_proxy.Admin.Server.Race.Lost.{interleave-no_admin}
use bunny_api_proxy.Tests.Data.{admin_row, scoped_row, two_tokens}

abbrev second_row : Token
second_row = record scoped_row { is_admin = true }

abbrev two_admins : Db
two_admins = record two_tokens { tokens = admin_row ∷ second_row ∷ []; permissions = [] }

two_admins-IsValid : IsValid two_admins
two_admins-IsValid = record {
  ids = (((λ e. ground (arith, e)), tt), (tt, tt));
  hashes = (((λ e. other_hash e), tt), (tt, tt));
  issued = ((omega arith, omega arith), ((omega arith, omega arith), tt));
  permission_ids = tt;
  permission_issued = tt;
  owned = tt;
  checked = tt;
}
  where
    other_hash : admin_row.key_hash ≢ second_row.key_hash
    other_hash e = ground (arith, ap (λ s. s == admin_row.key_hash) e)

interleave-no_admin_example :
    let ((p, q), db') =
      interleave
        (pos 1)
        (pos 2)
        (true ∷ true ∷ false ∷ false ∷ true ∷ false ∷ [])
        (looking, looking)
        two_admins in
    (p ≡ replied (respond 204 no_content))
    × (q ≡ replied (respond 204 no_content))
    × (count is_admin_token db'.tokens ≡ 0)
interleave-no_admin_example =
    interleave-no_admin admin_row second_row two_admins two_admins-IsValid refl (inl refl)
      (inr (inl refl)) refl refl (λ e. ground (arith, e)) refl
