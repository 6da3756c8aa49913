-- ===== src/Subscriptions.antt =====
-- app/src/realtime/project-subscriptions.service.ts: which sockets follow which project versions.
pub mod Keys
pub mod Revalidation
mod Groups
pub mod Followers
mod Tests
use tjc_be_rag_core_api.Base.{
  ℕ, ◌+◌, String, Bool, true, false, not, ◌&&◌, Option, none, some, List, [], ◌∷◌, ◌++◌, map,
  if◌then◌else◌, str_eq, any, keep, find,
}
use tjc_be_rag_core_api.Access.{Store, find_visible}

-- An entry of the map `versions`: a version, and the project that owns it.
pub record Following : Type 0 where
  pub version_id : String
  pub project_id : String

-- `SocketSubscriptions`
pub record Subscription : Type 0 where
  pub socket_id : String
  pub user_id : String
  pub versions : List Following

-- The map of sockets, and the rooms that sockets were told to leave, the last first.
pub record Registry : Type 0 where
  pub sockets : List Subscription
  pub left : List (String × String)

abbrev pub put_version : Following → List Following → List Following
put_version f [] = f ∷ []
put_version f (g ∷ gs) =
    let rest = put_version f gs in if str_eq g.version_id f.version_id then f ∷ gs else g ∷ rest

-- An entry whose key is in the map takes the place of the old one.
abbrev pub put_socket : String → String → Following → List Subscription → List Subscription
put_socket socket user f [] = record { socket_id = socket; user_id = user; versions = f ∷ [] } ∷ []
put_socket socket user f (e ∷ es) =
    let rest = put_socket socket user f es in
    if str_eq e.socket_id socket
    then record e { versions = put_version f e.versions } ∷ es
    else e ∷ rest

-- `track`
unfoldable pub track : String → String → String → String → Registry → Registry
track socket user version_id project_id reg = record reg {
  sockets =
      put_socket socket user (record { version_id = version_id; project_id = project_id })
        reg.sockets;
}

abbrev pub is_empty : List Following → Bool
is_empty [] = true
is_empty _ = false

-- The versions of one socket that pass a test stay, and the socket goes if none does.
abbrev pub restrict : (Following → Bool) → String → List Subscription → List Subscription
restrict p socket [] = []
restrict p socket (e ∷ es) =
    let rest = restrict p socket es in
    if str_eq e.socket_id socket
    then (if is_empty (keep p e.versions)
        then es
        else record e { versions = keep p e.versions } ∷ es)
    else e ∷ rest

-- `untrack`
unfoldable pub untrack : String → String → Registry → Registry
untrack socket version_id reg = record reg {
  sockets = restrict (λ f. not (str_eq f.version_id version_id)) socket reg.sockets;
}

-- `forget`
unfoldable pub forget : String → Registry → Registry
forget socket reg = record reg { sockets = restrict (λ f. false) socket reg.sockets }

abbrev pub find_socket : String → List Subscription → Option Subscription
find_socket socket es = find (λ e. str_eq e.socket_id socket) es

abbrev distinct : List String → List String → List String
distinct seen [] = []
distinct seen (x ∷ xs) =
    let rest = distinct (x ∷ seen) xs in
    let repeated = distinct seen xs in if any (str_eq x) seen then repeated else x ∷ rest

-- `projectsOf`
unfoldable projects_of : String → Registry → List String
projects_of socket reg = elim (find_socket socket reg.sockets) [
  | none ↦ []
  | some e ↦ distinct [] (map (λ f. f.project_id) e.versions)
]

abbrev pub is_of : String → Following → Bool
is_of project_id f = str_eq f.project_id project_id

abbrev pub follows : String → Subscription → Bool
follows project_id e = any (is_of project_id) e.versions

abbrev leave_all : String → List Following → List (String × String) → List (String × String)
leave_all socket [] left = left
leave_all socket (f ∷ fs) left = leave_all socket fs ((socket, f.version_id) ∷ left)

abbrev leave_of : String → Option Subscription → List (String × String) → List (String × String)
leave_of project_id none left = left
leave_of project_id (some e) left = leave_all e.socket_id (keep (is_of project_id) e.versions) left

-- `evict`; a socket that fails to leave is only logged.
unfoldable pub evict : String → String → Registry → Registry
evict socket project_id reg = record {
  sockets = restrict (λ f. not (is_of project_id f)) socket reg.sockets;
  left = leave_of project_id (find_socket socket reg.sockets) reg.left;
}

-- The sockets of each user, in the order in which the map lists them.
pub record UserSockets : Type 0 where
  pub user_id : String
  pub sockets : List String

abbrev pub add_socket : String → String → List UserSockets → List UserSockets
add_socket user socket [] = record { user_id = user; sockets = socket ∷ [] } ∷ []
add_socket user socket (u ∷ us) =
    let rest = add_socket user socket us in
    if str_eq u.user_id user
    then record u { sockets = u.sockets ++ (socket ∷ []) } ∷ us
    else u ∷ rest

abbrev pub users_of : String → List Subscription → List UserSockets → List UserSockets
users_of project_id [] us = us
users_of project_id (e ∷ es) us =
    users_of project_id es
      (if follows project_id e then add_socket e.user_id e.socket_id us else us)

abbrev pub evict_each : String → List String → Registry × ℕ → Registry × ℕ
evict_each project_id [] done = done
evict_each project_id (socket ∷ rest) done =
    evict_each project_id rest (evict socket project_id done.0, done.1 + 1)

abbrev pub is_seen : Store → String → String → Bool
is_seen store project_id user = elim (find_visible project_id user store) [
  | none ↦ false
  | some p ↦ true
]

abbrev pub evict_unseeing : Store → String → List UserSockets → Registry × ℕ → Registry × ℕ
evict_unseeing store project_id [] done = done
evict_unseeing store project_id (u ∷ us) done =
    evict_unseeing store project_id us
      (if is_seen store project_id u.user_id then done else evict_each project_id u.sockets done)

-- `revalidateProject`
unfoldable pub revalidate_project : Store → String → Registry → Registry × ℕ
revalidate_project store project_id reg =
    evict_unseeing store project_id (users_of project_id reg.sockets []) (reg, 0)

abbrev pub recheck_socket :
    Store → String → String → Registry → Option Subscription → Registry × Bool
recheck_socket store socket project_id reg none = (reg, false)
recheck_socket store socket project_id reg (some e) =
    if is_seen store project_id e.user_id then (reg, true) else (evict socket project_id reg, false)

-- `revalidateSocket`
unfoldable pub revalidate_socket : Store → String → String → Registry → Registry × Bool
revalidate_socket store socket project_id reg =
    recheck_socket store socket project_id reg (find_socket socket reg.sockets)

abbrev pub sockets_of_user : String → String → List Subscription → List String
sockets_of_user user project_id [] = []
sockets_of_user user project_id (e ∷ es) =
    let rest = sockets_of_user user project_id es in
    if str_eq e.user_id user && follows project_id e then e.socket_id ∷ rest else rest

-- `evictUser`
unfoldable pub evict_user : String → String → Registry → Registry × ℕ
evict_user project_id user reg =
    evict_each project_id (sockets_of_user user project_id reg.sockets) (reg, 0)
