-- ===== src/Access/Visibility.antt =====
-- The predicate of app/src/common/persistence/accessible-project.filter.ts, against its description.
use mathlib.Core.List.{Memᴰ}
use tjc_be_rag_core_api.Base.{
  ◌≤◌, String, Bool, true, false, ◌&&◌, Option, none, some, List, [], ◌∷◌, arith, ◌≡◌, refl, subst,
  ◌↔◌, ap, Option-cases, Bool-cases, inl, inr, any, leb→le, le→leb, is_text, eq_iff, str_eq_refl,
}
use tjc_be_rag_core_api.Access.{
  ProjectRole, reader, writer, maintainer, admin, rank, roles_at_least, is_role_at_least, same_role,
  is_admin, is_revoked, Binding, Project, AccessRecord, is_record_of, is_bound, accessible_project,
}

-- A role is among those of the SQL filter exactly when the check in memory accepts it.
roles_at_least-is_role_at_least :
    (role min_role : ProjectRole)
    → any (same_role role) (roles_at_least min_role) ≡ is_role_at_least role min_role
unfolding roles_at_least is_role_at_least
roles_at_least-is_role_at_least reader reader = refl
roles_at_least-is_role_at_least reader writer = refl
roles_at_least-is_role_at_least reader maintainer = refl
roles_at_least-is_role_at_least reader admin = refl
roles_at_least-is_role_at_least writer reader = refl
roles_at_least-is_role_at_least writer writer = refl
roles_at_least-is_role_at_least writer maintainer = refl
roles_at_least-is_role_at_least writer admin = refl
roles_at_least-is_role_at_least maintainer reader = refl
roles_at_least-is_role_at_least maintainer writer = refl
roles_at_least-is_role_at_least maintainer maintainer = refl
roles_at_least-is_role_at_least maintainer admin = refl
roles_at_least-is_role_at_least admin reader = refl
roles_at_least-is_role_at_least admin writer = refl
roles_at_least-is_role_at_least admin maintainer = refl
roles_at_least-is_role_at_least admin admin = refl

-- A record of this user on this project that is one of the table's.
pub record HasRecord (user_id : String) (records : List AccessRecord) (p : Project)
    (P : ProjectRole → Type 0) : Type 0 where
  pub row : AccessRecord
  pub listed : Memᴰ row records
  pub of_project : row.project_id ≡ p.id
  pub of_user : row.user_id ≡ user_id
  pub enough : P row.role

-- Who sees a project: its owner if it is personal; else a user with an Admin record, or with a
-- record of a sufficient role while the binding is not revoked.
pub data CanSee (user_id : String) (min_role : ProjectRole) (records : List AccessRecord)
    (p : Project) : Type 0 where
  as_owner :
      p.github_org_id ≡ none → p.owner_user_id ≡ some user_id → CanSee user_id min_role records p
  as_admin :
      (org : String)
      → p.github_org_id ≡ some org
      → HasRecord user_id records p (λ r. r ≡ admin)
      → CanSee user_id min_role records p
  as_member :
      (org : String) (b : Binding)
      → p.github_org_id ≡ some org
      → p.binding ≡ some b
      → is_revoked b.status ≡ false
      → HasRecord user_id records p (λ r. rank min_role ≤ rank r)
      → CanSee user_id min_role records p

any_sound :
    (user_id : String) (p : Project) (P : ProjectRole → Type 0) (f : ProjectRole → Bool)
    (records : List AccessRecord)
    → ((r : ProjectRole) → f r ≡ true → P r)
    → any (λ r. is_record_of p.id user_id r && f r.role) records ≡ true
    → HasRecord user_id records p P
any_sound user_id p P f [] sound e = absurd (ground arith)
any_sound user_id p P f (r ∷ records) sound e =
    elim (Bool-cases (is_record_of p.id user_id r && f r.role)) [
      | inl here ↦ record {
        row = r;
        listed = Memᴰ.head refl;
        of_project = ground (arith, eq_iff r.project_id p.id);
        of_user = ground (arith, eq_iff r.user_id user_id);
        enough = sound r.role (ground arith);
      }
      | inr there ↦
          let v = any_sound user_id p P f records sound (ground arith) in
          record {
            row = v.row;
            listed = Memᴰ.tail v.listed;
            of_project = v.of_project;
            of_user = v.of_user;
            enough = v.enough;
          }
    ]

is_record_of_refl :
    (user_id project_id : String) (r : AccessRecord)
    → r.project_id ≡ project_id
    → r.user_id ≡ user_id
    → is_record_of project_id user_id r ≡ true
is_record_of_refl user_id project_id r p u =
    let a = (eq_iff r.project_id project_id).1 p in
    let b = (eq_iff r.user_id user_id).1 u in ground (arith, a, b)

any_complete :
    (user_id : String) (p : Project) (f : ProjectRole → Bool) (records : List AccessRecord)
    (row : AccessRecord)
    → Memᴰ row records
    → row.project_id ≡ p.id
    → row.user_id ≡ user_id
    → f row.role ≡ true
    → any (λ r. is_record_of p.id user_id r && f r.role) records ≡ true
any_complete user_id p f [] row m of_project of_user enough = elim m [ ]
any_complete user_id p f (r ∷ records) row (Memᴰ.head e) of_project of_user enough =
    let mine = is_record_of_refl user_id p.id row of_project of_user in
    let here : (is_record_of p.id user_id row && f row.role) ≡ true = ground (arith, mine) in
    let there : (is_record_of p.id user_id r && f r.role) ≡ true =
      subst (λ x. (is_record_of p.id user_id x && f x.role) ≡ true) e here in
    ground (arith, there)
any_complete user_id p f (r ∷ records) row (Memᴰ.tail m) of_project of_user enough =
    let rest = any_complete user_id p f records row m of_project of_user enough in
    elim (Bool-cases (is_record_of p.id user_id r && f r.role)) [
      | inl found ↦ ground (arith, found)
      | inr other ↦ ground (arith, other, rest)
    ]

admin_only : (r : ProjectRole) → is_admin r ≡ true → r ≡ admin
admin_only admin e = refl
admin_only reader e = cc
admin_only writer e = cc
admin_only maintainer e = cc

by_rank :
    (min_role r : ProjectRole)
    → any (same_role r) (roles_at_least min_role) ≡ true
    → rank min_role ≤ rank r
unfolding is_role_at_least
by_rank min_role r e =
    leb→le (rank min_role) (rank r) (ground (arith, roles_at_least-is_role_at_least r min_role))

bound-cases :
    (o : Option Binding)
    → is_bound o ≡ true
    → (b : Binding) × (o ≡ some b) × (is_revoked b.status ≡ false)
bound-cases none e = cc
bound-cases (some b) e = (b, refl, ground arith)

owner-cases : (o : Option String) (user_id : String) → is_text o user_id ≡ true → o ≡ some user_id
owner-cases none user_id e = cc
owner-cases (some owner) user_id e = ap some ((eq_iff owner user_id).0 e)

rank-listed :
    (r min_role : ProjectRole)
    → rank min_role ≤ rank r
    → any (same_role r) (roles_at_least min_role) ≡ true
unfolding is_role_at_least
rank-listed r min_role le =
    let high = le→leb (rank min_role) (rank r) le in
    ground (arith, roles_at_least-is_role_at_least r min_role, high)

seen-CanSee :
    (user_id : String) (min_role : ProjectRole) (records : List AccessRecord) (p : Project)
    → accessible_project user_id min_role records p ≡ true
    → CanSee user_id min_role records p
unfolding accessible_project
seen-CanSee user_id min_role records p e = elim (Option-cases p.github_org_id) [
  | inl alone ↦ CanSee.as_owner alone (owner-cases p.owner_user_id user_id (ground arith))
  | inr (org, owned) ↦
      elim (Bool-cases (any (λ r. is_record_of p.id user_id r && is_admin r.role) records)) [
        | inl found ↦
            CanSee.as_admin org owned
              (any_sound user_id p (λ r. r ≡ admin) is_admin records admin_only found)
        | inr other ↦
            let (b, bound, live) = bound-cases p.binding (ground arith) in
            CanSee.as_member org b owned bound live (
              any_sound user_id p (λ r. rank min_role ≤ rank r)
                (λ r. any (same_role r) (roles_at_least min_role)) records (by_rank min_role)
                (ground arith))
      ]
]

CanSee-seen :
    (user_id : String) (min_role : ProjectRole) (records : List AccessRecord) (p : Project)
    → p.deleted ≡ false
    → CanSee user_id min_role records p
    → accessible_project user_id min_role records p ≡ true
unfolding accessible_project
CanSee-seen user_id min_role records p live (CanSee.as_owner alone owner) =
    let same : is_text p.owner_user_id user_id ≡ true = rw owner (str_eq_refl user_id) in
    ground (arith, same)
CanSee-seen user_id min_role records p live (CanSee.as_admin org owned r) =
    let role : is_admin r.row.role ≡ true = rw r.enough refl in
    let found =
      any_complete user_id p is_admin records r.row r.listed r.of_project r.of_user role in
    ground (arith, found)
CanSee-seen user_id min_role records p live (CanSee.as_member org b owned bound alive r) =
    let role = rank-listed r.row.role min_role r.enough in
    let found =
      any_complete user_id p (λ x. any (same_role x) (roles_at_least min_role)) records r.row
        r.listed r.of_project r.of_user role in
    let has : is_bound p.binding ≡ true = ground arith in ground (arith, found, has)

-- The predicate of the filter holds of exactly the projects that are not deleted and that the user
-- can see: his own personal ones, those where he has an Admin record, and those where he has a
-- record of at least the role asked for while their binding is not revoked.
pub accessible_project-CanSee :
    (user_id : String) (min_role : ProjectRole) (records : List AccessRecord) (p : Project)
    → (accessible_project user_id min_role records p ≡ true)
      ↔ ((p.deleted ≡ false) × CanSee user_id min_role records p)
unfolding accessible_project
accessible_project-CanSee user_id min_role records p = (
  λ e. (ground arith, seen-CanSee user_id min_role records p e),
  λ (live, c). CanSee-seen user_id min_role records p live c,
)
