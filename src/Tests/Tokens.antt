-- ===== src/Tests/Tokens.antt =====
-- Credentials against the policy.
use systemvitals.Base.{◌≡◌, ◌⊎◌, ◌↔◌, refl, true, none, some, [], ◌∷◌}
use systemvitals.Base.Text.{codes}
use systemvitals.Base.Result.{ok}
use systemvitals.TokenPolicy.{
  ApiTokenMetadata, api_token, checks_read, checks_write, account_manage, has,
  scoped_token_operations, is_scoped, is_account_token, require_operation_access,
  require_check_access,
}
use systemvitals.TokenPolicy.Laws.{Grants, scoped_operations, check_access_exact}

abbrev reader : ApiTokenMetadata
reader = record { id = 1; project_id = some 7; capabilities = checks_read ∷ []; legacy_scopes = [] }

abbrev manager : ApiTokenMetadata
manager = record {
  id = 2;
  project_id = none;
  capabilities = account_manage ∷ [];
  legacy_scopes = [];
}

scoped_operations_example :
    (require_operation_access (api_token reader) (codes "moveCheck") ≡ ok tt)
    ↔ (has (codes "moveCheck") scoped_token_operations ≡ true)
unfolding is_scoped is_account_token
scoped_operations_example = scoped_operations reader (codes "moveCheck") refl refl

check_access_exact_example :
    (require_check_access (api_token reader) checks_write 7 ≡ ok tt)
    ↔ (((reader.project_id ≡ none) ⊎ (reader.project_id ≡ some 7)) × Grants reader checks_write)
unfolding is_account_token
check_access_exact_example = check_access_exact reader checks_write 7 refl
