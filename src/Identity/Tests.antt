-- ===== src/Identity/Tests.antt =====
-- Links of two users, and the theorems at concrete inputs.
use tjc_be_rag_core_api.Base.{String, true, false, none, [], ◌∷◌, ◌≡◌, refl}
use tjc_be_rag_core_api.Errors.{answer, throws, unauthorized, github_identity_required}
use tjc_be_rag_core_api.Identity.{
  Link, Config, Account, account, unreachable, find_by_user_id, insert_link, persist,
  resolve_identity,
}
use tjc_be_rag_core_api.Identity.Links.{IsLinked, resolve_identity-lasting}

abbrev config : Config
config = record { bypass = false; production = true; bypass_user_id = none }

abbrev octo : String → Account
octo user = account (record { account_id = "g1"; login = none })

abbrev ana : Link
ana = record { user_id = "u1"; github_user_id = "g1"; github_login = none }

-- A second user is not linked to an account that another one has.
taken_test :
    (resolve_identity config octo (λ l. l) "u2" (ana ∷ [])).1
    ≡ throws (unauthorized github_identity_required)
unfolding resolve_identity find_by_user_id persist insert_link
taken_test = refl

resolve_identity-lasting_example :
    IsLinked config octo (λ l. l) "u1" "g1" (ana ∷ [])
    × (resolve_identity config (λ user. unreachable) (λ l. l) "u1" (ana ∷ [])
        ≡ (ana ∷ [], answer "g1"))
unfolding resolve_identity find_by_user_id persist insert_link
resolve_identity-lasting_example =
    resolve_identity-lasting config octo (λ l. l) (λ user. unreachable) (λ l. l) "u1" "g1" []
      (ana ∷ []) refl refl
