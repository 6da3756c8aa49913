-- ===== src/Webhooks/Redelivery.antt =====
-- A delivery that GitHub sends again, in `handle` of
-- app/src/github-webhooks/github-webhooks.service.ts.
use tjc_be_rag_core_api.Base.{
  true, Option, none, some, arith, ◌≡◌, refl, ◌∙◌, subst, str_eq_refl, String,
}
use tjc_be_rag_core_api.Errors.{Response, answer, throws}
use tjc_be_rag_core_api.Webhooks.{
  PullRequestEvent, Chance, Intake, Delivery, Accepted, find_delivery, handle_with,
  actionable_binding, written, recorded, handle_new, deliver, handle,
}

abbrev pub again : Accepted → Accepted
again a = record a { duplicate = true }

abbrev again_response : Response Accepted → Response Accepted
again_response (throws err) = throws err
again_response (answer a) = answer (again a)

module _ (c' : Chance) (e : PullRequestEvent) where
  -- What an accepted delivery is answered with, and the row that it then has.
  abbrev IsRowOf : Accepted → Delivery → Type 0
  IsRowOf a d = (a.delivery_id ≡ e.delivery_id) × (a.analysis_run_id ≡ d.analysis_run_id)

  abbrev HasRow : Accepted → Option Delivery → Type 0
  HasRow a o = (d : Delivery) × (o ≡ some d) × IsRowOf a d

  abbrev Kept : Intake × Response Accepted → Type 0
  Kept (v, throws err) = Unit
  Kept (v, answer b) = HasRow b (find_delivery e.delivery_id v.deliveries)

  of_recorded :
      (w w' : Intake) (r : Response (Option String)) (a : Accepted)
      → recorded e w r ≡ (w', answer a)
      → HasRow a (find_delivery e.delivery_id w'.deliveries)
  of_recorded w w' (throws err) a h = absurd (ground arith)
  of_recorded w w' (answer id) a h = subst Kept h (
    record { delivery_id = e.delivery_id; analysis_run_id = id },
    rw (str_eq_refl e.delivery_id) refl,
    (refl, refl),
  )

  of_delivery :
      (c : Chance) (w w' : Intake) (o : Option Delivery) (a : Accepted)
      → find_delivery e.delivery_id w.deliveries ≡ o
      → deliver o c e w ≡ (w', answer a)
      → HasRow a (find_delivery e.delivery_id w'.deliveries)
  unfolding deliver handle_new
  of_delivery c w w' none a found h =
      let done = handle_with c e (actionable_binding e w.bindings) w.runs in
      of_recorded (written w done) w' done.response a h
  of_delivery c w w' (some d) a found h = subst Kept h (d, found, (refl, refl))

  -- A delivery that was accepted, and is sent again, changes nothing, and is answered as a duplicate
  -- with the same run, whatever the queue and the tables hold by then, if the row of the delivery is
  -- still the one that was read or written.
  pub handle-again :
      (c : Chance) (w w' v : Intake) (a : Accepted)
      → handle c e w ≡ (w', answer a)
      → find_delivery e.delivery_id v.deliveries ≡ find_delivery e.delivery_id w'.deliveries
      → handle c' e v ≡ (v, answer (again a))
  unfolding handle deliver handle_new
  handle-again c w w' v a h kept =
      let (d, row, same) = of_delivery c w w' (find_delivery e.delivery_id w.deliveries) a refl h in
      let read : find_delivery e.delivery_id v.deliveries ≡ some d = kept ∙ row in
      rw (read, deliver) (rw same.0 (rw same.1 refl))
