-- ===== src/Events/Records.antt =====
-- The events of GitHub, in app/src/github-webhooks, and the table of access records.
use tjc_be_rag_core_api.Base.{List, All}
use tjc_be_rag_core_api.Access.{AccessRecord}
use tjc_be_rag_core_api.Identity.{Link}
use tjc_be_rag_core_api.Lifecycle.Kept.{revoke_binding-All}
use tjc_be_rag_core_api.Organizations.{
  ProjectFaults, suspend_by_installation, unsuspend_by_installation,
}
use tjc_be_rag_core_api.Organizations.Hiding.{hide-gone}
use tjc_be_rag_core_api.Events.{Desk}
use tjc_be_rag_core_api.Events.Bindings.{update_repository_name, revoke_bound}
use tjc_be_rag_core_api.Events.Effects.{GithubEvent, handle_event, IsKept}
use tjc_be_rag_core_api.Events.Invariants.{handle_event-Has}

records-IsKept :
    (P : AccessRecord → Type 0) (faults : ProjectFaults)
    → IsKept faults (λ d. All P d.world.store.records)
unfolding revoke_bound update_repository_name suspend_by_installation unsuspend_by_installation
records-IsKept P faults = record {
  enqueued = λ s d good h. h;
  logged = λ o login d h. h;
  hidden = λ o d h. (hide-gone faults o d.world).1 P h;
  revoked_bound =
      λ b d h. revoke_binding-All P (faults b.project.id) b.project.id b.binding.status d.world h;
  renamed_repository = λ id name d h. h;
  suspended = λ id d h. h;
  resumed = λ id d h. h;
}

-- No event of GitHub adds an access record or changes one: what every record has before, every
-- record has after, whatever the payload and whatever the database refuses.
pub handle_event-All :
    (P : AccessRecord → Type 0) (faults : ProjectFaults) (links : List Link) (e : GithubEvent)
    (d : Desk)
    → All P d.world.store.records
    → All P (handle_event faults links e d).world.store.records
handle_event-All P faults links e d h =
    handle_event-Has (λ x. All P x.world.store.records) faults links (records-IsKept P faults) e d h
