-- ===== src/Identity/Links.antt =====
-- The table of links of app/src/common/auth under `resolve`: it stays one to one, and an answer lasts.
use tjc_be_rag_core_api.Base.{
  String, Bool, true, false, Option, none, some, List, [], ◌∷◌, arith, ◌≡◌, refl, subst, inl, inr,
  Bool-cases, if◌then◌else◌, str_eq_refl,
}
use tjc_be_rag_core_api.Errors.{answer}
use tjc_be_rag_core_api.Identity.{
  Link, Config, Account, account, no_account, unreachable, find_by_user_id, is_taken, insert_link,
  persist, persisted, prefer, resolve_account, resolve_link, resolve_identity,
  synthetic_bypass_identity,
}

-- No two rows share a user or a GitHub account.
unfoldable is_one_to_one : List Link → Bool
is_one_to_one [] = true
is_one_to_one (l ∷ links) =
    let rest = is_one_to_one links in if is_taken l links then false else rest

module _ (c : Config) (provider : String → Account) (meanwhile : List Link → List Link) where
  persist-one_to_one :
      (new : Link) (links : List Link)
      → is_one_to_one links ≡ true
      → is_one_to_one (persist new links).0 ≡ true
  unfolding persist insert_link is_one_to_one
  persist-one_to_one new links h = elim (Bool-cases (is_taken new links)) [
    | inl taken ↦ ground (arith, taken)
    | inr fresh ↦ ground (arith, fresh)
  ]

  -- The table of links stays one to one, if what other requests commit meanwhile keeps it so.
  resolve_identity-one_to_one :
      ((links : List Link) → is_one_to_one links ≡ true → is_one_to_one (meanwhile links) ≡ true)
      → (user : String) (links : List Link) → is_one_to_one links ≡ true
      → is_one_to_one (resolve_identity c provider meanwhile user links).0 ≡ true
  unfolding resolve_identity
  resolve_identity-one_to_one keeps user links h = of_bypass c.bypass
    where
      of_account :
          (a : Account) → is_one_to_one (resolve_account c provider meanwhile user a links).0 ≡ true
      of_account (account a) = persist-one_to_one _ (meanwhile links) (keeps links h)
      of_account no_account = keeps links h
      of_account unreachable = keeps links h

      of_link :
          (o : Option Link)
          → is_one_to_one (resolve_link c provider meanwhile user o links).0 ≡ true
      of_link (some l) = h
      of_link none = of_account (provider user)

      of_bypass :
          (b : Bool)
          → is_one_to_one
              (if b
                then (links, synthetic_bypass_identity c)
                else resolve_link c provider meanwhile user (find_by_user_id user links) links).0
            ≡ true
      of_bypass true = h
      of_bypass false = of_link (find_by_user_id user links)

  -- The user's row, with this account.
  pub record IsLinked (user github_user_id : String) (links : List Link) : Type 0 where
    pub row : Link
    pub found : find_by_user_id user links ≡ some row
    pub of_account : row.github_user_id ≡ github_user_id

  prefer-IsLinked :
      (new : Link) (links : List Link) (g : String) (o : Option Link)
      → find_by_user_id new.user_id links ≡ o
      → prefer o ≡ answer g
      → IsLinked new.user_id g links
  prefer-IsLinked new links g none found e = cc
  prefer-IsLinked new links g (some l) found e = record { row = l; found = found; of_account = cc }

  persist-IsLinked :
      (new : Link) (links : List Link) (g : String) (o : Option (List Link))
      → insert_link new links ≡ o
      → (persisted new o links).1 ≡ answer g
      → IsLinked new.user_id g (persisted new o links).0
  unfolding insert_link find_by_user_id
  persist-IsLinked new links g none inserted e =
      prefer-IsLinked new links g (find_by_user_id new.user_id links) refl e
  persist-IsLinked new links g (some links') inserted e = elim (Bool-cases (is_taken new links)) [
    | inl taken ↦ absurd (ground (arith, taken))
    | inr fresh ↦
        let same : (new ∷ links) ≡ links' = ground (arith, fresh) in
        subst (IsLinked new.user_id g) same
          (record { row = new; found = ground (arith, str_eq_refl new.user_id); of_account = cc })
  ]

  -- Outside the bypass, an answer is the account of the user's row in the table that is left, and
  -- any later call on that table gives the same answer and changes nothing, whatever the provider
  -- then says.
  pub resolve_identity-lasting :
      (provider' : String → Account) (meanwhile' : List Link → List Link) (user g : String)
      (links links' : List Link)
      → c.bypass ≡ false
      → resolve_identity c provider meanwhile user links ≡ (links', answer g)
      → IsLinked user g links'
        × (resolve_identity c provider' meanwhile' user links' ≡ (links', answer g))
  unfolding resolve_identity persist
  resolve_identity-lasting provider' meanwhile' user g links links' off e =
      let linked = of_link (find_by_user_id user links) refl (ground (arith, off)) in
      (linked, ground (arith, off, linked.found, linked.of_account))
    where
      of_account :
          (a : Account)
          → resolve_account c provider meanwhile user a links ≡ (links', answer g)
          → IsLinked user g links'
      of_account no_account v = absurd (ground arith)
      of_account unreachable v = absurd (ground arith)
      of_account (account a) v =
          let new : Link = record {
            user_id = user;
            github_user_id = a.account_id;
            github_login = a.login;
          } in
          let left : (persist new (meanwhile links)).0 ≡ links' = cc in
          subst (IsLinked user g) left
            (persist-IsLinked new (meanwhile links) g (insert_link new (meanwhile links)) refl cc)

      of_link :
          (o : Option Link)
          → find_by_user_id user links ≡ o
          → resolve_link c provider meanwhile user o links ≡ (links', answer g)
          → IsLinked user g links'
      of_link (some l) found v =
          let left : links ≡ links' = cc in
          subst (IsLinked user g) left (record { row = l; found = found; of_account = cc })
      of_link none found v = of_account (provider user) v
