-- ===== src/Events/Scopes.antt =====
-- The scopes that events of GitHub enqueue, in app/src/github-webhooks, against the parser of
-- app/src/access-sync/access-reverify.scope.ts.
use tjc_be_rag_core_api.Base.{List, ◌≡◌, some, All}
use tjc_be_rag_core_api.Identity.{Link}
use tjc_be_rag_core_api.Organizations.{ProjectFaults}
use tjc_be_rag_core_api.Reverify.{parse_reverify_payload, write_payload}
use tjc_be_rag_core_api.Events.{Desk}
use tjc_be_rag_core_api.Events.Bindings.{revoke_bound}
use tjc_be_rag_core_api.Events.Effects.{GithubEvent, handle_event, IsReadable, IsKept}
use tjc_be_rag_core_api.Events.Invariants.{handle_event-Has}

scopes-IsKept : (faults : ProjectFaults) → IsKept faults (λ d. All IsReadable d.scopes)
unfolding revoke_bound
scopes-IsKept faults = record {
  enqueued = λ s d good h. (good, h);
  logged = λ o login d h. h;
  hidden = λ o d h. h;
  revoked_bound = λ b d h. h;
  renamed_repository = λ id name d h. h;
  suspended = λ id d h. h;
  resumed = λ id d h. h;
}

-- Every scope that an event of GitHub enqueues is read back by the job of the reverification as it
-- was written, with no deferral, if those that wait are.
pub handle_event-All_readable :
    (faults : ProjectFaults) (links : List Link) (e : GithubEvent) (d : Desk)
    → All
        (λ s.
          parse_reverify_payload (write_payload s 0) ≡ some (record { scope = s; deferrals = 0 }))
        d.scopes
    → All
        (λ s.
          parse_reverify_payload (write_payload s 0) ≡ some (record { scope = s; deferrals = 0 }))
        (handle_event faults links e d).scopes
handle_event-All_readable faults links e d h =
    handle_event-Has (λ x. All IsReadable x.scopes) faults links (scopes-IsKept faults) e d h
