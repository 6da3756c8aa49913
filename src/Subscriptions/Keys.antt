-- ===== src/Subscriptions/Keys.antt =====
-- The map of sockets of app/src/realtime/project-subscriptions.service.ts: its keys, and that no
-- socket stays without a version.
use tjc_be_rag_core_api.Base.{
  ℕ, String, Bool, true, false, not, ◌&&◌, Option, none, some, List, [], ◌∷◌, arith, ◌≡◌, refl, inl,
  inr, Bool-cases, if◌then◌else◌, str_eq, any, keep, eq_iff, sym,
}
use tjc_be_rag_core_api.Access.{Store}
use tjc_be_rag_core_api.Subscriptions.{
  Following, Subscription, Registry, put_version, put_socket, track, is_empty, restrict, untrack,
  forget, find_socket, is_of, recheck_socket, evict, UserSockets, users_of, evict_each, is_seen,
  evict_unseeing, revalidate_project, revalidate_socket, sockets_of_user, evict_user,
}

abbrev pub has_socket : String → List Subscription → Bool
has_socket socket es = any (λ e. str_eq e.socket_id socket) es

-- Each socket stands once in the list, and follows a version.
unfoldable pub is_keyed : List Subscription → Bool
is_keyed [] = true
is_keyed (e ∷ es) =
    let rest = is_keyed es in not (has_socket e.socket_id es) && not (is_empty e.versions) && rest

restrict-has_socket :
    (p : Following → Bool) (socket x : String) (es : List Subscription)
    → has_socket x es ≡ false
    → has_socket x (restrict p socket es) ≡ false
restrict-has_socket p socket x [] h = refl
restrict-has_socket p socket x (e ∷ es) h = elim (Bool-cases (str_eq e.socket_id socket)) [
  | inl here ↦ elim (Bool-cases (is_empty (keep p e.versions))) [
    | inl gone ↦ ground (arith, here, gone)
    | inr stays ↦ ground (arith, here, stays)
  ]
  | inr other ↦
      let rest = restrict-has_socket p socket x es (ground arith) in ground (arith, other, rest)
]

restrict-is_keyed :
    (p : Following → Bool) (socket : String) (es : List Subscription)
    → is_keyed es ≡ true
    → is_keyed (restrict p socket es) ≡ true
unfolding is_keyed
restrict-is_keyed p socket [] h = refl
restrict-is_keyed p socket (e ∷ es) h = elim (Bool-cases (str_eq e.socket_id socket)) [
  | inl here ↦ elim (Bool-cases (is_empty (keep p e.versions))) [
    | inl gone ↦ ground (arith, here, gone)
    | inr stays ↦ ground (arith, here, stays)
  ]
  | inr other ↦
      let rest = restrict-is_keyed p socket es (ground arith) in
      let free = restrict-has_socket p socket e.socket_id es (ground arith) in
      ground (arith, other, rest, free)
]

put_version-full : (f : Following) (fs : List Following) → is_empty (put_version f fs) ≡ false
put_version-full f [] = refl
put_version-full f (g ∷ gs) = elim (Bool-cases (str_eq g.version_id f.version_id)) [
  | inl same ↦ ground (arith, same)
  | inr other ↦ ground (arith, other)
]

put_socket-has_socket :
    (socket user x : String) (f : Following) (es : List Subscription)
    → str_eq socket x ≡ false
    → has_socket x es ≡ false
    → has_socket x (put_socket socket user f es) ≡ false
put_socket-has_socket socket user x f [] apart h = ground (arith, apart)
put_socket-has_socket socket user x f (e ∷ es) apart h =
    elim (Bool-cases (str_eq e.socket_id socket)) [
      | inl here ↦ ground (arith, here)
      | inr other ↦
          let rest = put_socket-has_socket socket user x f es apart (ground arith) in
          ground (arith, other, rest)
    ]

swap : (a b : String) → str_eq a b ≡ false → str_eq b a ≡ false
swap a b apart = elim (Bool-cases (str_eq b a)) [
  | inr other ↦ other
  | inl same ↦
      let back : a ≡ b = sym ((eq_iff b a).0 same) in
      absurd (ground (arith, apart, (eq_iff a b).1 back))
]

put_socket-is_keyed :
    (socket user : String) (f : Following) (es : List Subscription)
    → is_keyed es ≡ true
    → is_keyed (put_socket socket user f es) ≡ true
unfolding is_keyed
put_socket-is_keyed socket user f [] h = refl
put_socket-is_keyed socket user f (e ∷ es) h = elim (Bool-cases (str_eq e.socket_id socket)) [
  | inl here ↦ let full = put_version-full f e.versions in ground (arith, here, full)
  | inr other ↦
      let rest = put_socket-is_keyed socket user f es (ground arith) in
      let free =
        put_socket-has_socket socket user e.socket_id f es (swap e.socket_id socket other)
          (ground arith) in
      ground (arith, other, rest, free)
]

pub evict-is_keyed :
    (socket project_id : String) (reg : Registry)
    → is_keyed reg.sockets ≡ true
    → is_keyed (evict socket project_id reg).sockets ≡ true
unfolding evict
evict-is_keyed socket project_id reg h =
    restrict-is_keyed (λ f. not (is_of project_id f)) socket reg.sockets h

pub evict_each-is_keyed :
    (project_id : String) (sockets : List String) (done : Registry × ℕ)
    → is_keyed (done.0).sockets ≡ true
    → is_keyed ((evict_each project_id sockets done).0).sockets ≡ true
evict_each-is_keyed project_id [] done h = h
evict_each-is_keyed project_id (socket ∷ rest) done h =
    evict_each-is_keyed project_id rest _ (evict-is_keyed socket project_id done.0 h)

evict_unseeing-is_keyed :
    (store : Store) (project_id : String) (us : List UserSockets) (done : Registry × ℕ)
    → is_keyed (done.0).sockets ≡ true
    → is_keyed ((evict_unseeing store project_id us done).0).sockets ≡ true
evict_unseeing-is_keyed store project_id [] done h = h
evict_unseeing-is_keyed store project_id (u ∷ us) done h =
    evict_unseeing-is_keyed store project_id us _ (one (is_seen store project_id u.user_id))
  where
    one :
        (b : Bool)
        → is_keyed ((if b then done else evict_each project_id u.sockets done).0).sockets ≡ true
    one true = h
    one false = evict_each-is_keyed project_id u.sockets done h

-- The calls of the service.
pub data Call : Type 0 where
  tracks : String → String → String → String → Call
  untracks : String → String → Call
  forgets : String → Call
  revalidates : Store → String → Call
  revalidates_socket : Store → String → String → Call
  evicts_user : String → String → Call

unfoldable pub call : Call → Registry → Registry
call (tracks socket user version_id project_id) reg = track socket user version_id project_id reg
call (untracks socket version_id) reg = untrack socket version_id reg
call (forgets socket) reg = forget socket reg
call (revalidates store project_id) reg = (revalidate_project store project_id reg).0
call (revalidates_socket store socket project_id) reg =
    (revalidate_socket store socket project_id reg).0
call (evicts_user project_id user) reg = (evict_user project_id user reg).0

unfoldable pub call_all : List Call → Registry → Registry
unfolding call
call_all [] reg = reg
call_all (c ∷ cs) reg = call_all cs (call c reg)

call-is_keyed :
    (c : Call) (reg : Registry) → is_keyed reg.sockets ≡ true → is_keyed (call c reg).sockets ≡ true
unfolding call track untrack forget revalidate_project revalidate_socket evict_user
call-is_keyed (tracks socket user version_id project_id) reg h =
    put_socket-is_keyed socket user _ reg.sockets h
call-is_keyed (untracks socket version_id) reg h =
    restrict-is_keyed (λ f. not (str_eq f.version_id version_id)) socket reg.sockets h
call-is_keyed (forgets socket) reg h = restrict-is_keyed (λ f. false) socket reg.sockets h
call-is_keyed (revalidates store project_id) reg h =
    evict_unseeing-is_keyed store project_id (users_of project_id reg.sockets []) (reg, 0) h
call-is_keyed (evicts_user project_id user) reg h =
    evict_each-is_keyed project_id (sockets_of_user user project_id reg.sockets) (reg, 0) h
call-is_keyed (revalidates_socket store socket project_id) reg h =
    of_socket (find_socket socket reg.sockets)
  where
    of_seen :
        (b : Bool)
        → is_keyed
            ((if◌then◌else◌ {A = Registry × Bool} b
                (reg, true)
                (evict socket project_id reg, false)).0
              ).sockets
          ≡ true
    of_seen true = h
    of_seen false = evict-is_keyed socket project_id reg h

    of_socket :
        (o : Option Subscription)
        → is_keyed ((recheck_socket store socket project_id reg o).0).sockets ≡ true
    of_socket none = h
    of_socket (some e) = of_seen (is_seen store project_id e.user_id)

-- After any calls on a registry in which each socket stands once and follows a version, that is so.
call_all-is_keyed :
    (cs : List Call) (reg : Registry)
    → is_keyed reg.sockets ≡ true
    → is_keyed (call_all cs reg).sockets ≡ true
unfolding call_all
call_all-is_keyed [] reg h = h
call_all-is_keyed (c ∷ cs) reg h = call_all-is_keyed cs (call c reg) (call-is_keyed c reg h)
