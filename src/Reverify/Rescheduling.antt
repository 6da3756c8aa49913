-- ===== src/Reverify/Rescheduling.antt =====
-- `handle` of app/src/access-sync/access-reverify.job-handler.ts: when it puts itself off, and for what.
use tjc_be_rag_core_api.Base.{
  ℕ, ◌+◌, ◌^◌, ◌≤◌, ◌<◌, zero, suc, String, Option, none, some, List, [], ◌∷◌, arith, ◌≡◌, refl,
  subst, inl, inr, Bool-cases, ltb, min, str_eq,
}
use tjc_be_rag_core_api.Reverify.{
  ReverifyScope, everything, user_repository, user_organization, user_organization_repositories,
  of_repository, organization_repositories, Payload, RawPayload, non_empty, with_one, with_two,
  parse_scope, parse_reverify_payload, write_payload, access_backoff_ms, Summary, finished,
  rescheduled, conclude, handle,
}

-- A scope that the parser reads back as it was written, with any count.
abbrev IsWritable : ReverifyScope → Type 0
IsWritable s =
    (n : ℕ)
    → parse_reverify_payload (write_payload s n) ≡ some (record { scope = s; deferrals = n })

with_one-IsWritable :
    (make : List ℕ → ReverifyScope) (d : ℕ) (o : Option (List ℕ)) (p : Payload)
    → ((c : ℕ) (cs : List ℕ) → IsWritable (make (c ∷ cs)))
    → with_one make d (non_empty o) ≡ some p
    → IsWritable p.scope
with_one-IsWritable make d none p good e = absurd (ground arith)
with_one-IsWritable make d (some []) p good e = absurd (ground arith)
with_one-IsWritable make d (some (c ∷ cs)) p good e =
    let made : Payload = record { scope = make (c ∷ cs); deferrals = d } in
    let same : made ≡ p = cc in subst (λ x. IsWritable x.scope) same (good c cs)

with_two-IsWritable :
    (make : List ℕ → List ℕ → ReverifyScope) (d : ℕ) (a b : Option (List ℕ)) (p : Payload)
    → ((c : ℕ) (cs : List ℕ) (e : ℕ) (es : List ℕ) → IsWritable (make (c ∷ cs) (e ∷ es)))
    → with_two make d (non_empty a) (non_empty b) ≡ some p
    → IsWritable p.scope
with_two-IsWritable make d none b p good e = absurd (ground arith)
with_two-IsWritable make d (some []) b p good e = absurd (ground arith)
with_two-IsWritable make d (some (c ∷ cs)) b p good e =
    with_one-IsWritable (make (c ∷ cs)) d b p (good c cs) e

parsed-IsWritable :
    (scope : String) (raw : RawPayload) (p : Payload)
    → parse_scope scope raw ≡ some p
    → IsWritable p.scope
unfolding parse_reverify_payload write_payload
parsed-IsWritable scope raw p e = elim (Bool-cases (str_eq scope "ALL")) [
  | inl yes1 ↦
      let made : Payload = record { scope = everything; deferrals = raw.deferrals } in
      let same : made ≡ p = ground (arith, yes1) in subst (λ x. IsWritable x.scope) same (λ n. refl)
  | inr no1 ↦ elim (Bool-cases (str_eq scope "USER_REPOSITORY")) [
    | inl yes2 ↦
        with_two-IsWritable user_repository raw.deferrals raw.github_user_id raw.repository_id p
          (λ c cs d ds n. refl) (ground (arith, no1, yes2))
    | inr no2 ↦ elim (Bool-cases (str_eq scope "USER_ORGANIZATION")) [
      | inl yes3 ↦
          with_two-IsWritable user_organization raw.deferrals raw.github_user_id raw.organization_id
            p (λ c cs d ds n. refl) (ground (arith, no1, no2, yes3))
      | inr no3 ↦ elim (Bool-cases (str_eq scope "USER_ORGANIZATION_REPOSITORIES")) [
        | inl yes4 ↦
            with_two-IsWritable user_organization_repositories raw.deferrals raw.github_user_id
              raw.organization_id p (λ c cs d ds n. refl) (ground (arith, no1, no2, no3, yes4))
        | inr no4 ↦ elim (Bool-cases (str_eq scope "REPOSITORY")) [
          | inl yes5 ↦
              with_one-IsWritable of_repository raw.deferrals raw.repository_id p (λ c cs n. refl)
                (ground (arith, no1, no2, no3, no4, yes5))
          | inr no5 ↦ elim (Bool-cases (str_eq scope "ORGANIZATION_REPOSITORIES")) [
            | inl yes6 ↦
                with_one-IsWritable organization_repositories raw.deferrals raw.organization_id p
                  (λ c cs n. refl) (ground (arith, no1, no2, no3, no4, no5, yes6))
            | inr no6 ↦ absurd (ground (arith, no1, no2, no3, no4, no5, no6))
          ]
        ]
      ]
    ]
  ]
]

pow_pos : (n : ℕ) → 1 ≤ 2 ^ n
pow_pos zero = omega arith
pow_pos (suc n) = omega (arith, pow_pos n)

-- What a run that puts itself off promises.
pub record IsDeferred (reverify_scope : ReverifyScope → Summary) (raw raw' : RawPayload) (delay : ℕ)
    : Type 0 where
  pub payload : Payload
  pub parsed : parse_reverify_payload raw ≡ some payload
  pub unfailed : (reverify_scope payload.scope).failed ≡ 0
  pub unverified : 0 < (reverify_scope payload.scope).unverifiable
  pub whole :
      parse_reverify_payload raw'
      ≡ some (record { scope = payload.scope; deferrals = payload.deferrals + 1 })
  pub at_least : 60000 ≤ delay
  pub at_most : delay ≤ 3600000

backoff_bounds : (n : ℕ) → (60000 ≤ access_backoff_ms n) × (access_backoff_ms n ≤ 3600000)
unfolding access_backoff_ms
backoff_bounds n = (omega (arith, pow_pos (min n 20)), omega arith)

-- A run puts itself off only if no record failed and one could not be verified, by a minute to an
-- hour, and for the same scope as a whole, with one more deferral counted.
pub handle-IsDeferred :
    (reverify_scope : ReverifyScope → Summary) (raw raw' : RawPayload) (delay : ℕ)
    → handle reverify_scope raw ≡ rescheduled delay raw'
    → IsDeferred reverify_scope raw raw' delay
unfolding handle parse_reverify_payload
handle-IsDeferred reverify_scope raw raw' delay e = of_parsed (parse_reverify_payload raw) refl e
  where
    writable :
        (p : Payload) (o : Option String)
        → raw.scope ≡ o
        → parse_reverify_payload raw ≡ some p
        → IsWritable p.scope
    writable p none named v = absurd (ground arith)
    writable p (some s) named v = parsed-IsWritable s raw p (ground arith)

    conclude-IsDeferred :
        (p : Payload)
        → parse_reverify_payload raw ≡ some p
        → conclude p (reverify_scope p.scope) ≡ rescheduled delay raw'
        → IsDeferred reverify_scope raw raw' delay
    conclude-IsDeferred p parsed v = elim (Bool-cases (ltb 0 (reverify_scope p.scope).failed)) [
      | inl bad ↦ absurd (ground (arith, bad))
      | inr fine ↦ elim (Bool-cases (ltb 0 (reverify_scope p.scope).unverifiable)) [
        | inr none_left ↦ absurd (ground (arith, fine, none_left))
        | inl left ↦
            let delays : access_backoff_ms p.deferrals ≡ delay = ground (arith, fine, left) in
            let raws : write_payload p.scope (p.deferrals + 1) ≡ raw' =
              ground (arith, fine, left) in
            let (low, high) = backoff_bounds p.deferrals in
            subst (λ d. IsDeferred reverify_scope raw raw' d) delays
              (subst (λ x. IsDeferred reverify_scope raw x (access_backoff_ms p.deferrals)) raws
                (record {
                  payload = p;
                  parsed = parsed;
                  unfailed = ground (arith, fine);
                  unverified = ground (arith, left);
                  whole = writable p raw.scope refl parsed (p.deferrals + 1);
                  at_least = low;
                  at_most = high;
                }))
      ]
    ]

    of_parsed :
        (o : Option Payload)
        → parse_reverify_payload raw ≡ o
        → (elim o [ none ↦ finished | some p ↦ conclude p (reverify_scope p.scope) ])
          ≡ rescheduled delay raw'
        → IsDeferred reverify_scope raw raw' delay
    of_parsed none parsed v = absurd (ground arith)
    of_parsed (some p) parsed v = conclude-IsDeferred p parsed v
