-- ===== src/Access/Guard.antt =====
-- app/src/project-access/project-role.guard.ts and access-policy.ts: the guard of every route.
use tjc_be_rag_core_api.Base.{String, Bool, true, Option, none, some, if◌then◌else◌, str_eq}
use tjc_be_rag_core_api.Errors.{
  Response, answer, throws, internal_error, auth_required, internal, unauthorized,
}
use tjc_be_rag_core_api.Access.{ProjectRole, Store}
use tjc_be_rag_core_api.Access.Require.{ResourceKind, AccessGrant, Entry, require_for_resource}

-- `ProjectTarget`
pub data Place : Type 0 where
  param query body : Place

pub data Target : Type 0 where
  at : Place → String → ResourceKind → Target
  listing : Target

-- `AccessPolicy`
pub data Policy : Type 0 where
  needs_role : ProjectRole → Target → Policy
  no_role : String → Policy

-- What the guard reads of a route and a request; a value that is not a string is `none`.
pub record Route : Type 0 where
  pub is_public : Bool
  pub is_ws : Bool
  pub policy : Option Policy

pub record Request : Type 0 where
  pub user_id : Option String
  pub field : Place → String → Option String

module _ (owner_of : ResourceKind → String → Option String) (entry : Entry) (q : Request) where
  abbrev pub passed : Response AccessGrant → Response Bool
  passed (answer g) = answer true
  passed (throws e) = throws e

  abbrev pub guard_value :
      ProjectRole → ResourceKind → String → Option String → Store → Store × Response Bool
  guard_value min_role kind user none s = (s, answer true)
  guard_value min_role kind user (some raw) s =
      if str_eq raw ""
      then (s, answer true)
      else let after = require_for_resource entry user owner_of kind raw min_role s in
        (after.0, passed after.1)

  abbrev pub guard_user :
      ProjectRole → Place → String → ResourceKind → Option String → Store → Store × Response Bool
  guard_user min_role place name kind none s = (s, throws (unauthorized auth_required))
  guard_user min_role place name kind (some user) s =
      if str_eq user ""
      then (s, throws (unauthorized auth_required))
      else guard_value min_role kind user (q.field place name) s

  abbrev pub guard_policy : Bool → Option Policy → Store → Store × Response Bool
  guard_policy ws none s = (s, throws (internal internal_error))
  guard_policy ws (some (no_role reason)) s = (s, answer true)
  guard_policy ws (some (needs_role min_role listing)) s = (s, answer true)
  guard_policy ws (some (needs_role min_role (at place name kind))) s =
      if ws then (s, answer true) else guard_user min_role place name kind q.user_id s

  -- `canActivate`
  unfoldable pub can_activate : Route → Store → Store × Response Bool
  can_activate route s =
      if route.is_public then (s, answer true) else guard_policy route.is_ws route.policy s
