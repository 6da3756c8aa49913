-- ===== src/Reconciliations.antt =====
-- app/src/access-sync/access-reconciliation.job-handler.ts: the pass of the hourly reconciliation
-- through the bindings, in batches, within a budget.
pub mod Batches
pub mod Worlds
pub mod Rounds
pub mod Passes
mod Tests
use tjc_be_rag_core_api.Base.{
  ℕ, ◌+◌, ◌-◌, String, Bool, true, false, not, ◌&&◌, ◌||◌, Option, none, some, List, [], ◌∷◌,
  if◌then◌else◌, str_eq, is_text, ltb, leb, ◌==◌, find, take, length, suc, zero,
}
use tjc_be_rag_core_api.Errors.{Response, answer, throws, internal_error, internal}
use tjc_be_rag_core_api.Access.{Binding, Project, Store, is_revoked}
use tjc_be_rag_core_api.Access.Organization.{Lookup, ok, not_found, not_installed, unverifiable}
use tjc_be_rag_core_api.Identity.{Link}
use tjc_be_rag_core_api.Lifecycle.{World, revoke_binding, expected_owner_id}
use tjc_be_rag_core_api.Organizations.{ProjectFaults}
use tjc_be_rag_core_api.Events.Bindings.{BoundProject, as_bound, update_repository_name}

-- A binding: the place of its id in the order of the ids, and its project.
pub record BindingPlace : Type 0 where
  pub place : ℕ
  pub project_id : String

-- A row of a batch, as it was read.
pub record ReadBinding : Type 0 where
  pub place : ℕ
  pub bound : BoundProject

abbrev pub has_live_binding : Option Binding → Bool
has_live_binding none = false
has_live_binding (some b) = not (is_revoked b.status)

abbrev pub is_live_at : BindingPlace → Project → Bool
is_live_at r p = str_eq p.id r.project_id && not p.deleted && has_live_binding p.binding

abbrev pub is_after : Option ℕ → ℕ → Bool
is_after none n = true
is_after (some c) n = ltb c n

abbrev pub reading_then : Option ℕ → ℕ → Option BoundProject → List ReadBinding → List ReadBinding
reading_then cursor n none rest = rest
reading_then cursor n (some b) rest =
    if is_after cursor n then record { place = n; bound = b } ∷ rest else rest

abbrev pub readings : Option ℕ → Store → List BindingPlace → List ReadBinding
readings cursor s [] = []
readings cursor s (r ∷ rs) =
    reading_then cursor r.place (as_bound (find (is_live_at r) s.projects)) (readings cursor s rs)

-- `findLiveForReconciliation`
unfoldable pub find_live_for_reconciliation :
    List BindingPlace → Option ℕ → ℕ → Store → List ReadBinding
find_live_for_reconciliation places afterwards n s = take n (readings afterwards s places)

-- The repository that GitHub has under an id.
pub record GithubRepository : Type 0 where
  pub repository_id : String
  pub owner_id : String
  pub repository_name : String

-- `BindingReconciliation`
pub data Outcome : Type 0 where
  unchanged renamed gone unverified failed : Outcome

-- The world, and the bindings whose repositories were asked for, the last first.
pub record Pass : Type 0 where
  pub world : World
  pub reads : List ℕ

-- What the pass counts, and where the next one continues.
pub record Summary : Type 0 where
  pub checked : ℕ
  pub unchanged : ℕ
  pub renamed : ℕ
  pub revoked : ℕ
  pub unverifiable : ℕ
  pub failed : ℕ
  pub truncated : Bool
  pub cursor : Option ℕ

abbrev pub empty_summary : Summary
empty_summary = record {
  checked = 0;
  unchanged = 0;
  renamed = 0;
  revoked = 0;
  unverifiable = 0;
  failed = 0;
  truncated = false;
  cursor = none;
}

abbrev pub count : Outcome → Summary → Summary
count unchanged s = record s { checked = s.checked + 1; unchanged = s.unchanged + 1 }
count renamed s = record s { checked = s.checked + 1; renamed = s.renamed + 1 }
count gone s = record s { checked = s.checked + 1; revoked = s.revoked + 1 }
count unverified s = record s { checked = s.checked + 1; unverifiable = s.unverifiable + 1 }
count failed s = record s { checked = s.checked + 1; failed = s.failed + 1 }

abbrev pub revoked_by : World × Response Unit → World × Outcome
revoked_by (w, answer done) = (w, gone)
revoked_by (w, throws e) = (w, failed)

abbrev pub is_elsewhere : Option String → GithubRepository → Bool
is_elsewhere none r = false
is_elsewhere (some owner) r = not (str_eq r.owner_id owner)

abbrev pub last_place : Option ℕ → List ReadBinding → Option ℕ
last_place cursor [] = cursor
last_place cursor (b ∷ bs) = last_place (some b.place) bs

abbrev pub is_empty : List ReadBinding → Bool
is_empty [] = true
is_empty (b ∷ bs) = false

-- The end of a pass whose budget is used up.
abbrev pub cut_off : Bool → Option ℕ → Pass × Summary → Pass × Response Summary
cut_off more cursor (p, s) =
    (p, answer (record s { truncated = more; cursor = if more then cursor else none }))

-- `RECONCILIATION_BATCH_SIZE`
abbrev pub reconciliation_batch_size : ℕ
reconciliation_batch_size = 100

-- What the database refuses of each project, the names that it refuses, and what GitHub answers of a
-- repository of an installation.
pub record Surroundings : Type 0 where
  pub faults : ProjectFaults
  pub refuses_name : String → Bool
  pub links : List Link
  pub get_repository_by_id : String → String → Response (Lookup GithubRepository)

module _ (around : Surroundings) where
  abbrev pub revoke_read : BoundProject → World → World × Outcome
  revoke_read b w =
      revoked_by (revoke_binding (around.faults b.project.id) b.project.id b.binding.status w)

  abbrev pub rename_read : BoundProject → String → World → World × Outcome
  rename_read b name w =
      if around.refuses_name b.project.id
      then (w, failed)
      else (record w { store = update_repository_name b.project.id name w.store }, renamed)

  abbrev pub compare_repository : BoundProject → GithubRepository → World → World × Outcome
  compare_repository b r w =
      if not (str_eq r.repository_id b.binding.repository_id)
      then (w, unverified)
      else if is_elsewhere (expected_owner_id b.project around.links) r
      then revoke_read b w
      else if not (str_eq r.repository_name b.binding.repository_name)
      then rename_read b r.repository_name w
      else (w, unchanged)

  abbrev pub by_lookup : BoundProject → Response (Lookup GithubRepository) → World → World × Outcome
  by_lookup b (throws e) w = (w, failed)
  by_lookup b (answer unverifiable) w = (w, unverified)
  by_lookup b (answer not_found) w = revoke_read b w
  by_lookup b (answer not_installed) w = revoke_read b w
  by_lookup b (answer (ok r)) w = compare_repository b r w

  -- `reconcileBinding`
  unfoldable pub reconcile_binding : BoundProject → World → World × Outcome
  unfolding revoke_binding update_repository_name expected_owner_id
  reconcile_binding b w =
      by_lookup b (around.get_repository_by_id b.binding.installation_id b.binding.repository_id) w

  -- The bindings of a batch run at most five at a time; here one after another.
  unfoldable pub reconcile_each : List ReadBinding → Pass × Summary → Pass × Summary
  unfolding reconcile_binding
  reconcile_each [] done = done
  reconcile_each (b ∷ bs) (p, s) =
      let next = reconcile_binding b.bound p.world in
      reconcile_each bs (record { world = next.0; reads = b.place ∷ p.reads }, count next.1 s)

  module _ (places : List BindingPlace) (budget : ℕ) where
    -- The `for (;;)` of `reconcileBindings`; the last of no binding is an error.
    unfoldable pub pass_on : ℕ → Option ℕ → Pass × Summary → Option (Pass × Response Summary)
    unfolding find_live_for_reconciliation reconcile_each
    pass_on zero cursor (p, s) = none
    pass_on (suc fuel) cursor (p, s) =
        let batch =
          find_live_for_reconciliation places cursor reconciliation_batch_size p.world.store in
        let verifiable = take (budget - s.checked) batch in
        let done = reconcile_each verifiable (p, s) in
        let rest = pass_on fuel (last_place cursor verifiable) done in
        if is_empty batch
        then some (p, answer s)
        else if is_empty verifiable
        then some (p, throws (internal internal_error))
        else if leb budget (done.1).checked
        then some (
            cut_off
              (ltb (length verifiable) (length batch) || length batch == reconciliation_batch_size)
              (last_place cursor verifiable) done)
        else if ltb (length batch) reconciliation_batch_size
        then some (done.0, answer done.1)
        else rest

    -- `reconcileBindings`: each round checks one binding at least, so the budget bounds the rounds.
    unfoldable pub reconcile_bindings : Option ℕ → World → Option (Pass × Response Summary)
    unfolding pass_on
    reconcile_bindings cursor w =
        pass_on (suc budget) cursor (record { world = w; reads = [] }, empty_summary)
