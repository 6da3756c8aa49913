-- ===== src/Subscriptions/Groups.antt =====
-- The sockets that `revalidateProject` of app/src/realtime/project-subscriptions.service.ts groups by
-- user: each one that follows the project is there.
use tjc_be_rag_core_api.Base.{
  String, Bool, true, false, not, ◌&&◌, ◌||◌, List, [], ◌∷◌, ◌++◌, arith, ◌≡◌, refl, inl, inr,
  Bool-cases, if◌then◌else◌, str_eq, any, All, str_eq_refl,
}
use tjc_be_rag_core_api.Subscriptions.{Subscription, follows, UserSockets, add_socket, users_of}

abbrev pub is_listed : String → String → List UserSockets → Bool
is_listed user socket us = any (λ u. str_eq u.user_id user && any (str_eq socket) u.sockets) us

any-append : (p : String → Bool) (xs ys : List String) → any p (xs ++ ys) ≡ (any p xs || any p ys)
any-append p [] ys = refl
any-append p (x ∷ xs) ys = ground (arith, any-append p xs ys)

add_socket-keeps :
    (user socket user' socket' : String) (us : List UserSockets)
    → is_listed user socket us ≡ true
    → is_listed user socket (add_socket user' socket' us) ≡ true
add_socket-keeps user socket user' socket' [] h = absurd (ground arith)
add_socket-keeps user socket user' socket' (u ∷ us) h = elim (Bool-cases (str_eq u.user_id user')) [
  | inl here ↦
      let both = any-append (str_eq socket) u.sockets (socket' ∷ []) in ground (arith, here, both)
  | inr other ↦ elim (Bool-cases (str_eq u.user_id user && any (str_eq socket) u.sockets)) [
    | inl found ↦ ground (arith, other, found)
    | inr below ↦
        let rest = add_socket-keeps user socket user' socket' us (ground (arith, below)) in
        ground (arith, other, rest)
  ]
]

add_socket-listed :
    (user socket : String) (us : List UserSockets)
    → is_listed user socket (add_socket user socket us) ≡ true
add_socket-listed user socket [] = ground (arith, str_eq_refl user, str_eq_refl socket)
add_socket-listed user socket (u ∷ us) = elim (Bool-cases (str_eq u.user_id user)) [
  | inl here ↦
      let both = any-append (str_eq socket) u.sockets (socket ∷ []) in
      ground (arith, here, both, str_eq_refl socket)
  | inr other ↦ let rest = add_socket-listed user socket us in ground (arith, other, rest)
]

users_of-keeps :
    (project_id user socket : String) (es : List Subscription) (us : List UserSockets)
    → is_listed user socket us ≡ true
    → is_listed user socket (users_of project_id es us) ≡ true
users_of-keeps project_id user socket [] us h = h
users_of-keeps project_id user socket (e ∷ es) us h =
    users_of-keeps project_id user socket es _ (go (follows project_id e))
  where
    go :
        (b : Bool)
        → is_listed user socket (if b then add_socket e.user_id e.socket_id us else us) ≡ true
    go true = add_socket-keeps user socket e.user_id e.socket_id us h
    go false = h

pub users_of-listed :
    (project_id : String) (es : List Subscription) (us : List UserSockets)
    → All
        (λ e.
          (not (follows project_id e)
            || is_listed e.user_id e.socket_id (users_of project_id es us))
          ≡ true)
        es
users_of-listed project_id [] us = tt
users_of-listed project_id (e ∷ es) us = (
  go (follows project_id e),
  users_of-listed project_id es
      (if follows project_id e then add_socket e.user_id e.socket_id us else us),
)
  where
    go :
        (b : Bool)
        → (not b
            || is_listed e.user_id e.socket_id
                (users_of project_id es (if b then add_socket e.user_id e.socket_id us else us)))
          ≡ true
    go false = refl
    go true =
        users_of-keeps project_id e.user_id e.socket_id es (add_socket e.user_id e.socket_id us)
          (add_socket-listed e.user_id e.socket_id us)
