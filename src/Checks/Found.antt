-- ===== src/Checks/Found.antt =====
-- What a lookup by slugs finds.
use systemvitals.Base.{
  ℕ, ◌≡◌, ◌⊎◌, refl, inl, inr, Bool, true, false, ◌&&◌, Option, none, some, List, [], ◌∷◌, arith,
  find, In, Bool-cases, Option-cases,
}
use systemvitals.Base.Text.{Text, text_eq, text_eq_iff}
use systemvitals.Base.Table.{find-In}
use systemvitals.Base.Result.{ok, err}
use systemvitals.Schema.{Check}
use systemvitals.Tenancy.{
  App, Project, Organization, Membership, find_project, find_organization, find_membership,
  is_member,
}
use systemvitals.Checks.{check_not_found}
use systemvitals.Checks.Operation.{effective_notification_channel_ids}
use systemvitals.Checks.Reads.{
  is_bound, is_visible_project, is_visible_org, with_channels, find_by_slug,
}

-- The organization has the slug and the user for a member.
abbrev pub IsOpenTo : ℕ → Text → ℕ → App → Type 0
IsOpenTo user org_slug organization app =
    (o : Organization) × (find_organization organization app ≡ some o)
    × (o.slug ≡ org_slug)
    × ((m : Membership) × (find_membership user o.id app ≡ some m))

-- The check and its project have the slugs, the project is the one that the credential is bound to, if it is
-- bound to one, and the project's organization has the slug and the user for a member.
abbrev pub IsVisible : ℕ → Text → Text → Text → Option ℕ → App → Check → Type 0
IsVisible user org_slug project_slug check_slug bound app c =
    (c.slug ≡ check_slug)
    × ((p : Project) × (find_project c.project_id app ≡ some p)
        × (p.slug ≡ project_slug)
        × ((bound ≡ none) ⊎ (bound ≡ some p.id))
        × IsOpenTo user org_slug p.organization_id app)

IsOpenTo-of :
    (user : ℕ) (org_slug : Text) (organization : ℕ) (app : App)
    → is_visible_org user org_slug organization app ≡ true
    → IsOpenTo user org_slug organization app
unfolding is_visible_org is_member
IsOpenTo-of user org_slug organization app h =
    elim (Option-cases (find_organization organization app)) [
      | inl e ↦ absurd (ground arith)
      | inr (o, e) ↦ elim (Option-cases (find_membership user o.id app)) [
        | inl k ↦ absurd (ground arith)
        | inr (m, k) ↦ (o, e, (text_eq_iff o.slug org_slug).0 (ground arith), (m, k))
      ]
    ]

is_visible_org-of :
    (user : ℕ) (org_slug : Text) (organization : ℕ) (app : App)
    → IsOpenTo user org_slug organization app
    → is_visible_org user org_slug organization app ≡ true
unfolding is_visible_org is_member
is_visible_org-of user org_slug organization app (o, e, s, (m, k)) =
    let same : text_eq o.slug org_slug ≡ true = (text_eq_iff o.slug org_slug).1 s in ground arith

is_bound-of :
    (bound : Option ℕ) (project : ℕ)
    → is_bound bound project ≡ true
    → (bound ≡ none) ⊎ (bound ≡ some project)
is_bound-of none project h = inl refl
is_bound-of (some b) project h = inr (ground arith)

of-is_bound :
    (bound : Option ℕ) (project : ℕ)
    → (bound ≡ none) ⊎ (bound ≡ some project)
    → is_bound bound project ≡ true
of-is_bound none project h = refl
of-is_bound (some b) project (inl e) = absurd (ground arith)
of-is_bound (some b) project (inr e) = ground arith

module _ (user : ℕ) (org_slug project_slug check_slug : Text) (bound : Option ℕ) (app : App) where
  is_wanted : Check → Bool
  is_wanted c =
      text_eq c.slug check_slug
      && is_visible_project user org_slug (some project_slug) bound c.project_id app

  IsVisible-of :
      (c : Check) → is_wanted c ≡ true → IsVisible user org_slug project_slug check_slug bound app c
  unfolding is_wanted is_visible_project
  IsVisible-of c h = elim (Option-cases (find_project c.project_id app)) [
    | inl e ↦ absurd (ground arith)
    | inr (p, e) ↦ (
      (text_eq_iff c.slug check_slug).0 (ground arith),
      (
        p,
        e,
        (text_eq_iff p.slug project_slug).0 (ground arith),
        is_bound-of bound p.id (ground arith),
        IsOpenTo-of user org_slug p.organization_id app (ground arith),
      ),
    )
  ]

  of-IsVisible :
      (c : Check) → IsVisible user org_slug project_slug check_slug bound app c → is_wanted c ≡ true
  unfolding is_wanted is_visible_project
  of-IsVisible c (s, (p, e, t, b, o)) =
      let same : text_eq c.slug check_slug ≡ true = (text_eq_iff c.slug check_slug).1 s in
      let same' : text_eq p.slug project_slug ≡ true = (text_eq_iff p.slug project_slug).1 t in
      let bound' : is_bound bound p.id ≡ true = of-is_bound bound p.id b in
      let open_ : is_visible_org user org_slug p.organization_id app ≡ true =
        is_visible_org-of user org_slug p.organization_id app o in
      rw (same, e, is_visible_project, same', bound', open_) refl

find-none :
    (p : Check → Bool) (xs : List Check) (c : Check) → find p xs ≡ none → In c xs → p c ≡ false
find-none p [] c h i = absurd i
find-none p (x ∷ xs) c h i = elim (Bool-cases (p x)) [
  | inl e ↦ absurd (ground arith)
  | inr e ↦ elim i [ inl here ↦ rw (← here) e | inr there ↦ find-none p xs c (ground arith) there ]
]

-- A lookup by slugs gives a check of the project and organization with these slugs, within the project that
-- the credential is bound to, if any, and only to a member of that organization, with the channels that are
-- effective for the check. Where no such check is stored it is not found.
pub find_by_slug_exact :
    (user : ℕ) (org_slug project_slug check_slug : Text) (bound : Option ℕ) (app : App)
    → ((c : Check) × In c app.monitor.checks
        × IsVisible user org_slug project_slug check_slug bound app c
        × (find_by_slug user org_slug project_slug check_slug bound app
            ≡ ok (c, effective_notification_channel_ids c.id c.project_id app.monitor)))
      ⊎ (((c : Check)
            → In c app.monitor.checks
            → IsVisible user org_slug project_slug check_slug bound app c
            → ⊥)
          × (find_by_slug user org_slug project_slug check_slug bound app ≡ err check_not_found))
unfolding find_by_slug with_channels is_wanted
find_by_slug_exact user org_slug project_slug check_slug bound app =
    let wanted : Check → Bool = is_wanted user org_slug project_slug check_slug bound app in
    elim (Option-cases (find wanted app.monitor.checks)) [
      | inl e ↦ inr (
        (λ c i v.
            let yes : wanted c ≡ true =
              of-IsVisible user org_slug project_slug check_slug bound app c v in
            let no : wanted c ≡ false = find-none wanted app.monitor.checks c e i in cc (yes, no)),
        rw e refl,
      )
      | inr (c, e) ↦
          let (i, h) = find-In wanted app.monitor.checks c e in
          inl (c, i, IsVisible-of user org_slug project_slug check_slug bound app c h, rw e refl)
    ]
