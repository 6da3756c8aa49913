-- ===== src/Reconciliations/Passes.antt =====
-- A pass through the bindings (`reconcileBindings` of
-- app/src/access-sync/access-reconciliation.job-handler.ts): it ends within its budget, and leaves out
-- no binding that the next pass does not start with.
use tjc_be_rag_core_api.Base.{
  ℕ, zero, suc, ◌+◌, ◌-◌, ◌≤◌, ◌<◌, Bool, true, false, not, ◌||◌, Option, none, some, List, [], ◌∷◌,
  arith, ◌≡◌, refl, sym, subst, ◌∙◌, if◌then◌else◌, ltb, leb, ◌==◌, take, length, All, length-take,
  inl, inr, Bool-cases, leb→lt, ltb→lt,
}
use tjc_be_rag_core_api.Errors.{Response, answer, throws, internal_error, internal}
use tjc_be_rag_core_api.Lifecycle.{World}
use tjc_be_rag_core_api.Reconciliations.{
  BindingPlace, ReadBinding, is_after, readings, find_live_for_reconciliation, Pass, Summary,
  Surroundings, reconciliation_batch_size, reconcile_each, last_place, is_empty, cut_off, pass_on,
  reconcile_bindings, empty_summary,
}
use tjc_be_rag_core_api.Reconciliations.Batches.{
  IsInOrder, has_place, is_live, is_in, readings-All_in, readings-Ascends, take-later, take-take,
  take-whole, take-all,
}
use tjc_be_rag_core_api.Reconciliations.Rounds.{
  has_read, is_later, row_told, All-both, each-checked, each-cursor, each-length, each-reads,
  each-Dwindles, take-not_empty, not_empty-length, empty-length, later_than_last,
}

empty-has : (n : ℕ) (bs : List ReadBinding) → is_empty bs ≡ true → has_place n bs ≡ false
empty-has n [] e = refl
empty-has n (b ∷ bs) e = ground (arith, e)

or_left : (a b : Bool) → a ≡ true → (a || b) ≡ true
or_left a b h = ground (arith, h)

contrary : {A : Type 0} → (b : Bool) → b ≡ true → b ≡ false → A
contrary true h k = ground (arith, k)
contrary false h k = ground (arith, h)

not_more : (m n k : ℕ) → (ltb m n || n == k) ≡ false → n ≤ k → (n ≤ m) × (n < k)
not_more m n k e h = (ground (arith, e), ground (arith, e, h))

-- A row that is live and comes after the start was asked for, or a test says that it is still to come.
abbrev pub is_told : Option ℕ → (ℕ → Bool) → Pass → BindingPlace → Bool
is_told start rest p r =
    not (is_live p.world.store r)
    || not (is_after start r.place)
    || has_read r.place p.reads
    || rest r.place

-- A pass that ends: what it counts is what it asked for, within the budget, and what it leaves out
-- comes after the cursor that it answers.
abbrev pub Reaches : List BindingPlace → Option ℕ → ℕ → Option (Pass × Response Summary) → Type 0
Reaches places start budget o =
    (p : Pass) × (s : Summary) × (o ≡ some (p, answer s))
    × (s.checked ≤ budget)
    × (length p.reads ≡ s.checked)
    × All (λ r. is_told start (is_later s.cursor) p r ≡ true) places

module _ (around : Surroundings) (places : List BindingPlace) (order : IsInOrder none places)
    (start : Option ℕ) where
  -- A round that takes these rows of what is after the cursor.
  round-All_told :
      (rest : ℕ → Bool) (cursor : Option ℕ) (taken : List ReadBinding) (p : Pass) (s : Summary)
      → ((n : ℕ)
          → has_place n (readings cursor p.world.store places) ≡ true
          → (has_place n taken || rest n) ≡ true)
      → All (λ r. is_told start (is_after cursor) p r ≡ true) places
      → All (λ r. is_told start rest (reconcile_each around taken (p, s)).0 r ≡ true) places
  round-All_told rest cursor taken p s covers told =
      let next = (reconcile_each around taken (p, s)).0 in
      let all = readings cursor p.world.store places in
      All-both (λ r. is_told start (is_after cursor) p r ≡ true)
        (λ r. is_in cursor p.world.store all r ≡ true) (λ r. is_told start rest next r ≡ true)
        (λ r a b.
          row_told (is_live p.world.store r) (is_live next.world.store r) (is_after start r.place)
            (has_read r.place p.reads) (has_read r.place next.reads) (is_after cursor r.place)
            (has_place r.place all) (has_place r.place taken) (rest r.place)
            (each-Dwindles around r taken p s) a b (covers r.place)
            (each-reads around r.place taken p s))
        places told (readings-All_in cursor p.world.store places)

  module _ (budget : ℕ) where
    -- What a round takes of a batch is a beginning of what is after the cursor.
    taken-later :
        (cursor : Option ℕ) (p : Pass) (m n : ℕ)
        → has_place n (readings cursor p.world.store places) ≡ true
        → (has_place n
              (take m (take reconciliation_batch_size (readings cursor p.world.store places)))
            || is_after
                (last_place cursor
                  (take m (take reconciliation_batch_size (readings cursor p.world.store places))))
                n)
          ≡ true
    taken-later cursor p m n h =
        let all = readings cursor p.world.store places in
        let same = take-take m reconciliation_batch_size all in
        subst (λ bs. (has_place n bs || is_after (last_place cursor bs) n) ≡ true) (sym same.1)
          (take-later cursor same.0 all n (readings-Ascends p.world.store cursor places order) h)

    pass_on-Reaches :
        (fuel : ℕ) (cursor : Option ℕ) (p : Pass) (s : Summary)
        → budget < fuel + s.checked
        → s.checked < budget
        → s.cursor ≡ none
        → length p.reads ≡ s.checked
        → All (λ r. is_told start (is_after cursor) p r ≡ true) places
        → Reaches places start budget (pass_on around places budget fuel cursor (p, s))
    unfolding pass_on find_live_for_reconciliation reconcile_each
    pass_on-Reaches zero cursor p s f c none_yet l told = ground (arith, f, c)
    pass_on-Reaches (suc fuel) cursor p s f c none_yet l told =
        go (is_empty batch) (is_empty verifiable) (leb budget (done.1).checked)
          (ltb (length batch) reconciliation_batch_size) refl refl refl refl
          (pass_on-Reaches fuel (last_place cursor verifiable) done.0 done.1)
      where
        all : List ReadBinding
        all = readings cursor p.world.store places

        batch : List ReadBinding
        batch = take reconciliation_batch_size all

        verifiable : List ReadBinding
        verifiable = take (budget - s.checked) batch

        done : Pass × Summary
        done = reconcile_each around verifiable (p, s)

        more : Bool
        more = ltb (length verifiable) (length batch) || length batch == reconciliation_batch_size

        now : (done.1).checked ≡ s.checked + length verifiable
        now = each-checked around verifiable p s

        within : length verifiable ≤ budget - s.checked
        within = length-take (budget - s.checked) batch

        counted : length (done.0).reads ≡ (done.1).checked
        counted = omega (arith, now, each-length around verifiable p s, l)

        -- When the batch is short and taken whole, nothing is left.
        whole :
            (n : ℕ)
            → verifiable ≡ batch
            → length batch < reconciliation_batch_size
            → has_place n all ≡ true
            → (has_place n verifiable || false) ≡ true
        whole n same short h =
            let taken : verifiable ≡ all = same ∙ take-whole reconciliation_batch_size all short in
            let here : has_place n verifiable ≡ true =
              subst (λ bs. has_place n bs ≡ true) (sym taken) h in
            or_left (has_place n verifiable) false here

        nothing :
            is_empty batch ≡ true
            → (n : ℕ) → has_place n all ≡ true
            → (has_place n [] || is_later s.cursor n) ≡ true
        nothing e n h =
            let short : length batch < reconciliation_batch_size =
              omega (arith, empty-length batch e) in
            let same = take-whole reconciliation_batch_size all short in
            contrary (has_place n all) h (empty-has n all (subst (λ bs. is_empty bs ≡ true) same e))

        covered :
            (t : Bool)
            → more ≡ t
            → is_empty verifiable ≡ false
            → (n : ℕ) → has_place n all ≡ true
            → (has_place n verifiable
                || is_later (if t then last_place cursor verifiable else none) n)
              ≡ true
        covered true e some_taken n h =
            rw (later_than_last cursor verifiable n some_taken)
              (taken-later cursor p (budget - s.checked) n h)
        covered false e some_taken n h =
            let most = length-take reconciliation_batch_size all in
            let few =
              not_more (length verifiable) (length batch) reconciliation_batch_size e most in
            whole n (take-all (budget - s.checked) batch few.0) few.1 h

        cut :
            (t : Bool)
            → more ≡ t
            → is_empty verifiable ≡ false
            → Reaches places start budget (some (cut_off t (last_place cursor verifiable) done))
        cut t e some_taken = (
          done.0,
          record done.1 {
            truncated = t;
            cursor = if t then last_place cursor verifiable else none;
          },
          refl,
          omega (arith, now, within, c),
          counted,
          round-All_told (is_later (if t then last_place cursor verifiable else none)) cursor
              verifiable p s (covered t e some_taken) told,
        )

        go :
            (t1 t2 t3 t4 : Bool)
            → is_empty batch ≡ t1
            → is_empty verifiable ≡ t2
            → leb budget (done.1).checked ≡ t3
            → ltb (length batch) reconciliation_batch_size ≡ t4
            → (budget < fuel + (done.1).checked
                → (done.1).checked < budget
                → (done.1).cursor ≡ none
                → length (done.0).reads ≡ (done.1).checked
                → All
                    (λ r. is_told start (is_after (last_place cursor verifiable)) done.0 r ≡ true)
                    places
                → Reaches places start budget
                    (pass_on around places budget fuel (last_place cursor verifiable) done))
            → Reaches places start budget (
                if t1
                then some (p, answer s)
                else if t2
                then some (p, throws (internal internal_error))
                else if t3
                then some (cut_off more (last_place cursor verifiable) done)
                else if t4
                then some (done.0, answer done.1)
                else pass_on around places budget fuel (last_place cursor verifiable) done)
        go true t2 t3 t4 e1 e2 e3 e4 rec = (
          p,
          s,
          refl,
          omega (arith, c),
          l,
          round-All_told (is_later s.cursor) cursor [] p s (nothing e1) told,
        )
        go false true t3 t4 e1 e2 e3 e4 rec =
            let not_empty = take-not_empty (budget - s.checked) batch (omega (arith, c)) e1 in
            contrary (is_empty verifiable) e2 not_empty
        go false false true t4 e1 e2 e3 e4 rec = cut more refl e2
        go false false false true e1 e2 e3 e4 rec =
            let room = leb→lt budget (done.1).checked e3 in
            let same = take-whole (budget - s.checked) batch (omega (arith, now, room, c)) in
            (
              done.0,
              done.1,
              refl,
              omega (arith, room),
              counted,
              round-All_told (is_later (done.1).cursor) cursor verifiable p s
                  (λ n h.
                    subst (λ o. (has_place n verifiable || is_later o n) ≡ true)
                      (sym (each-cursor around verifiable p s ∙ none_yet))
                      (whole n same (ltb→lt (length batch) reconciliation_batch_size e4) h))
                  told,
            )
        go false false false false e1 e2 e3 e4 rec =
            let some_taken = not_empty-length verifiable e2 in
            rec (omega (arith, now, f, some_taken)) (leb→lt budget (done.1).checked e3)
              (each-cursor around verifiable p s ∙ none_yet) counted
              (round-All_told (is_after (last_place cursor verifiable)) cursor verifiable p s
                (taken-later cursor p (budget - s.checked)) told)

    first-All_told :
        (w : World) (rs : List BindingPlace)
        → All (λ r. is_told start (is_after start) (record { world = w; reads = [] }) r ≡ true) rs
    first-All_told w [] = tt
    first-All_told w (r ∷ rs) = (
      elim (Bool-cases (is_after start r.place)) [
        | inl late ↦ ground (arith, late)
        | inr early ↦ ground (arith, early)
      ],
      first-All_told w rs,
    )

    -- A pass whose budget is not 0 ends with an answer: it checked as many bindings as it asked GitHub
    -- for, at most its budget; and a binding that is live at its end, and comes after the place it
    -- started from, was asked for or comes after the cursor that it answers.
    pub reconcile_bindings-Reaches :
        (w : World)
        → 0 < budget
        → Reaches places start budget (reconcile_bindings around places budget start w)
    unfolding reconcile_bindings
    reconcile_bindings-Reaches w some_budget =
        pass_on-Reaches (suc budget) start (record { world = w; reads = [] }) empty_summary
          (omega arith) some_budget refl refl (first-All_told w places)
