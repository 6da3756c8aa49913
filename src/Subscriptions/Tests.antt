-- ===== src/Subscriptions/Tests.antt =====
-- Sockets of two users, and the theorems at concrete inputs.
use tjc_be_rag_core_api.Base.{true, false, none, some, List, [], ◌∷◌, ◌≡◌, refl, All}
use tjc_be_rag_core_api.Access.{Project, Store, find_visible, accessible_project, roles_at_least}
use tjc_be_rag_core_api.Subscriptions.{
  Registry, Subscription, evict, follows, is_seen, revalidate_project, track,
}
use tjc_be_rag_core_api.Subscriptions.Keys.{Call, tracks, call, call_all, is_keyed}
use tjc_be_rag_core_api.Subscriptions.Followers.{revalidate_project-All_seen}

abbrev diary : Project
diary = record {
  id = "p2";
  deleted = false;
  github_org_id = none;
  owner_user_id = some "u2";
  binding = none;
}

abbrev store : Store
store = record { projects = diary ∷ []; records = [] }

abbrev calls : List Call
calls = tracks "s1" "u1" "v1" "p2" ∷ tracks "s2" "u2" "v1" "p2" ∷ tracks "s1" "u1" "v2" "p3" ∷ []

abbrev empty : Registry
empty = record { sockets = []; left = [] }

abbrev one : Subscription
one = record {
  socket_id = "s1";
  user_id = "u1";
  versions =
      record { version_id = "v1"; project_id = "p2" }
      ∷ record { version_id = "v2"; project_id = "p3" }
      ∷ [];
}

abbrev two : Subscription
two = record {
  socket_id = "s2";
  user_id = "u2";
  versions = record { version_id = "v1"; project_id = "p2" } ∷ [];
}

abbrev registry : Registry
registry = record { sockets = one ∷ two ∷ []; left = [] }

-- The user who does not see the project leaves its room, and keeps his other version.
revalidation_tests :
    (call_all calls empty ≡ registry)
    × ((revalidate_project store "p2" registry).1 ≡ 1)
    × ((revalidate_project store "p2" registry).0.left ≡ ("s1", "v1") ∷ [])
unfolding call_all call track revalidate_project evict find_visible accessible_project
    roles_at_least
revalidation_tests = (refl, refl, refl)

revalidate_project-All_seen_example :
    All
      (λ e. follows "p2" e ≡ true → is_seen store "p2" e.user_id ≡ true)
      ((revalidate_project store "p2" registry).0).sockets
unfolding is_keyed
revalidate_project-All_seen_example = revalidate_project-All_seen store "p2" registry refl
