-- ===== src/Jobs/Claim.antt =====
-- `claimNext` of app/src/jobs/jobs.repository.ts: which job a worker gets, and what runs beside it.
use mathlib.Core.List.{Memᴰ}
use tjc_be_rag_core_api.Base.{
  ℕ, ◌≤◌, String, Bool, true, false, Option, none, some, [], ◌∷◌, arith, ◌≡◌, refl, subst, ◌↔◌,
  Option-cases, Bool-cases, inl, inr, any, All, leb, leb→le,
}
use tjc_be_rag_core_api.Jobs.{
  Job, Table, claim_next, earliest, earlier, is_claimable, is_live, has_id, lock, update_where,
}

module _ {P : Type 0} where
  -- `j` is a row that passes the test, and none that passes is available before it.
  pub record IsEarliest (p : Job P → Bool) (rows : Table P) (j : Job P) : Type 0 where
    pub listed : Memᴰ j rows
    pub passes : p j ≡ true
    pub first : All (λ r. p r ≡ true → j.available_at ≤ r.available_at) rows

  All-weaken :
      (p : Job P → Bool) (a b : ℕ) (rows : Table P)
      → b ≤ a
      → All (λ r. p r ≡ true → a ≤ r.available_at) rows
      → All (λ r. p r ≡ true → b ≤ r.available_at) rows
  All-weaken p a b [] le h = tt
  All-weaken p a b (r ∷ rows) le (h, hs) = (λ e. omega (arith, h e), All-weaken p a b rows le hs)

  All-none :
      (p : Job P → Bool) (a : ℕ) (rows : Table P)
      → All (λ r. p r ≡ false) rows
      → All (λ r. p r ≡ true → a ≤ r.available_at) rows
  All-none p a [] h = tt
  All-none p a (r ∷ rows) (h, hs) = (λ e. ground arith, All-none p a rows hs)

  earliest-none :
      (p : Job P → Bool) (rows : Table P) → earliest p rows ≡ none → All (λ r. p r ≡ false) rows
  unfolding earliest
  earliest-none p [] e = tt
  earliest-none p (r ∷ rows) e = (ground arith, earliest-none p rows (ground arith))

  earlier-IsEarliest :
      (p : Job P → Bool) (rows : Table P) (r s : Job P)
      → p r ≡ true
      → IsEarliest p rows s
      → IsEarliest p (r ∷ rows) (earlier r (some s))
  earlier-IsEarliest p rows r s pass v = elim (Bool-cases (leb r.available_at s.available_at)) [
    | inl le ↦ rw le (record {
      listed = Memᴰ.head refl;
      passes = pass;
      first = (
        λ t. omega arith,
        All-weaken p s.available_at r.available_at rows (leb→le _ _ le) v.first,
      );
    })
    | inr gt ↦ rw gt (record {
      listed = Memᴰ.tail v.listed;
      passes = v.passes;
      first = (λ t. ground arith, v.first);
    })
  ]

  earliest-IsEarliest :
      (p : Job P → Bool) (rows : Table P) (j : Job P)
      → earliest p rows ≡ some j
      → IsEarliest p rows j
  unfolding earliest
  earliest-IsEarliest p [] j e = cc
  earliest-IsEarliest p (r ∷ rows) j e = elim (Bool-cases (p r)) [
    | inr skip ↦
        let v = earliest-IsEarliest p rows j (ground arith) in
        record {
          listed = Memᴰ.tail v.listed;
          passes = v.passes;
          first = (λ t. ground arith, v.first);
        }
    | inl pass ↦ elim (Option-cases (earliest p rows)) [
      | inl nothing ↦
          let same : r ≡ j = ground arith in
          subst (IsEarliest p (r ∷ rows)) same (record {
            listed = Memᴰ.head refl;
            passes = pass;
            first =
                (λ t. omega arith, All-none p r.available_at rows (earliest-none p rows nothing));
          })
      | inr (s, later) ↦
          let same : earlier r (some s) ≡ j = ground arith in
          subst (IsEarliest p (r ∷ rows)) same
            (earlier-IsEarliest p rows r s pass (earliest-IsEarliest p rows s later))
    ]
  ]

  -- In the table that the claim leaves, only the claimed row is live under its key.
  lock-exclusive :
      (worker id : String) (key : Option String) (stale now : ℕ) (rows : Table P)
      → any (is_live key stale now) rows ≡ false
      → All
          (λ r. is_live key stale now r ≡ true → has_id id r ≡ true)
          (update_where (has_id id) (lock worker now) rows)
  lock-exclusive worker id key stale now [] h = tt
  lock-exclusive worker id key stale now (r ∷ rows) h = (
    elim (Bool-cases (has_id id r)) [
      | inl same ↦ rw same (λ _. same)
      | inr other ↦ rw other (λ live. ground arith)
    ],
    lock-exclusive worker id key stale now rows (ground arith),
  )

  -- What a successful claim promises.
  pub record IsClaim (worker : String) (stale now : ℕ) (rows rows' : Table P) (j : Job P)
      : Type 0 where
    pub row : Job P
    pub earliest : IsEarliest (is_claimable stale now rows) rows row
    pub locked : j ≡ lock worker now row
    pub written : rows' ≡ update_where (has_id j.id) (lock worker now) rows
    pub alone : All (λ r. is_live j.dedupe_key stale now r ≡ true → has_id j.id r ≡ true) rows'

  chosen-IsClaim :
      (worker : String) (stale now : ℕ) (rows : Table P) (row : Job P)
      → earliest (is_claimable stale now rows) rows ≡ some row
      → IsClaim worker stale now rows
          (update_where (has_id row.id) (lock worker now) rows)
          (lock worker now row)
  chosen-IsClaim worker stale now rows row chosen =
      let v = earliest-IsEarliest (is_claimable stale now rows) rows row chosen in
      record {
        row = row;
        earliest = v;
        locked = refl;
        written = refl;
        alone =
            lock-exclusive worker row.id row.dedupe_key stale now rows (ground (arith, v.passes));
      }

  -- A claimed job was pending, due, and earliest of those that could be claimed; it is now RUNNING
  -- under this worker's lock, and no other row with its key is live.
  pub claim_next-IsClaim :
      (worker : String) (stale now : ℕ) (rows rows' : Table P) (j : Job P)
      → claim_next worker stale now rows ≡ (rows', some j)
      → IsClaim worker stale now rows rows' j
  unfolding claim_next
  claim_next-IsClaim worker stale now rows rows' j e =
      elim (Option-cases (earliest (is_claimable stale now rows) rows)) [
        | inl nothing ↦ absurd (ground arith)
        | inr (row, chosen) ↦ claimed row chosen
      ]
    where
      claimed :
          (row : Job P)
          → earliest (is_claimable stale now rows) rows ≡ some row
          → IsClaim worker stale now rows rows' j
      claimed row chosen =
          let same : update_where (has_id row.id) (lock worker now) rows ≡ rows' = ground arith in
          let locked : lock worker now row ≡ j = ground arith in
          subst (λ t. IsClaim worker stale now rows t j) same
            (subst
              (IsClaim worker stale now rows (update_where (has_id row.id) (lock worker now) rows))
              locked (chosen-IsClaim worker stale now rows row chosen))

  none-earliest :
      (p : Job P → Bool) (rows : Table P) → All (λ r. p r ≡ false) rows → earliest p rows ≡ none
  unfolding earliest
  none-earliest p [] h = refl
  none-earliest p (r ∷ rows) (h, hs) = ground (arith, none-earliest p rows hs)

  -- A claim finds nothing exactly when no row can be claimed, and then writes nothing.
  claim_next-none :
      (worker : String) (stale now : ℕ) (rows : Table P)
      → (claim_next worker stale now rows ≡ (rows, none))
        ↔ All (λ r. is_claimable stale now rows r ≡ false) rows
  unfolding claim_next
  claim_next-none worker stale now rows = (
    λ e. earliest-none (is_claimable stale now rows) rows (ground arith),
    λ h. rw (none-earliest (is_claimable stale now rows) rows h, claim_next),
  )
