-- ===== src/Tests/Firms.antt =====
-- An organization is made, given to its second owner, and deleted.
use systemvitals.Base.{ℕ, refl, [], ◌∷◌, arith}
use systemvitals.Base.Text.{codes}
use systemvitals.Tenancy.{App, account_of}
use systemvitals.Plan.{assert_can_add_organization, for_user, effective_limits, plan_limits_for}
use systemvitals.Members.Roles.{set_role}
use systemvitals.Organizations.{NewKeys, CreateAttempt, add_organization}
use systemvitals.Organizations.Endings.{
  transfer_creatorship, delete_organization, remove_organization,
}
use systemvitals.Organizations.Handover.{IsTransferred, transfer_creatorship_exact}
use systemvitals.Organizations.Deletion.{IsRemoved, remove_organization_exact}
use systemvitals.Tests.People.{promoted}

abbrev pub firm : App
firm = record promoted {
  users = record { id = 3; email = codes "a@b.c" } ∷ [];
  projects = record { id = 7; slug = codes "default"; organization_id = 70 } ∷ [];
}

abbrev keys : NewKeys
keys = record { organization = 71; membership = 63; project = 8 }

abbrev attempts : ℕ → CreateAttempt
attempts n = record { read = firm; locked = firm }

abbrev larger : App
larger = add_organization keys 3 (codes "new") (codes "new-org") 500 firm

transfer_creatorship_exact_example : IsTransferred 3 70 4 firm (record firm {
  organizations =
      record { id = 70; name = codes "Home"; slug = codes "home"; creator_user_id = 4 } ∷ [];
})
unfolding transfer_creatorship set_role assert_can_add_organization account_of for_user
    effective_limits plan_limits_for
transfer_creatorship_exact_example =
    transfer_creatorship_exact 3 70 4 firm firm
      (record firm {
        organizations =
            record { id = 70; name = codes "Home"; slug = codes "home"; creator_user_id = 4 } ∷ [];
      })
      refl

remove_organization_exact_example : IsRemoved 3 70 larger (delete_organization 70 larger)
unfolding set_role remove_organization
remove_organization_exact_example =
    remove_organization_exact 3 70 larger larger (delete_organization 70 larger) (omega arith) refl
