-- ===== src/Routing/Laws.antt =====
-- The snapshot holds exactly the enabled channels of the check's project that the check does not
-- exclude, in order of creation.
use systemvitals.Base.{
  ℕ, ◌≡◌, refl, sym, ap, ◌∙◌, ◌↔◌, inl, inr, Bool, true, false, ◌&&◌, ◌||◌, List, [], ◌∷◌, map,
  arith, ◌==◌, any, filter, sort, insert, elem, In, Bool-cases, All,
}
use systemvitals.Schema.{Check, NotificationChannel, CheckChannelExclusion, Db}
use systemvitals.Routing.{created_before, is_excluded, is_selected, snapshot_selected_channel_ids}

abbrev ids : List NotificationChannel → List ℕ
ids xs = map (λ ch. ch.id) xs

elem-insert :
    (i : ℕ) (a : NotificationChannel) (xs : List NotificationChannel)
    → elem i (ids (insert created_before a xs)) ≡ ((a.id == i) || elem i (ids xs))
elem-insert i a [] = refl
elem-insert i a (x ∷ xs) = elim (Bool-cases (created_before a x)) [
  | inl e ↦ rw e
  | inr e ↦ rw e (ground (arith, elem-insert i a xs))
]

elem-sort :
    (i : ℕ) (xs : List NotificationChannel)
    → elem i (ids (sort created_before xs)) ≡ elem i (ids xs)
elem-sort i [] = refl
elem-sort i (x ∷ xs) = ground (arith, elem-insert i x (sort created_before xs), elem-sort i xs)

elem-filter :
    (i : ℕ) (p : NotificationChannel → Bool) (xs : List NotificationChannel)
    → elem i (ids (filter p xs)) ≡ any (λ ch. p ch && (ch.id == i)) xs
elem-filter i p [] = refl
elem-filter i p (x ∷ xs) = ground (arith, elem-filter i p xs)

-- Membership in the snapshot as one search through the channels.
pub elem-snapshot :
    (i : ℕ) (db : Db) (c : Check)
    → elem i (snapshot_selected_channel_ids db c)
      ≡ any (λ ch. is_selected db c.id c.project_id ch && (ch.id == i)) db.channels
unfolding snapshot_selected_channel_ids
elem-snapshot i db c =
    elem-sort i (filter (is_selected db c.id c.project_id) db.channels)
    ∙ elem-filter i (is_selected db c.id c.project_id) db.channels

pub any-In :
    {A : Type 0} (p : A → Bool) (xs : List A) → any p xs ≡ true → (a : A) × In a xs × (p a ≡ true)
any-In p [] h = ground arith
any-In p (x ∷ xs) h = elim (Bool-cases (p x)) [
  | inl e ↦ (x, inl refl, e)
  | inr e ↦ let (a, m, k) = any-In p xs (ground arith) in (a, inr m, k)
]

pub In-any :
    {A : Type 0} (p : A → Bool) (a : A) (xs : List A) → In a xs → p a ≡ true → any p xs ≡ true
In-any p a [] m h = absurd m
In-any p a (x ∷ xs) m h = elim m [
  | inl e ↦ rw (ap p e) (rw h refl)
  | inr k ↦ ground (arith, In-any p a xs k h)
]

abbrev NotExcluded : Db → ℕ → ℕ → Type 0
NotExcluded db check_id channel_id =
    (x : CheckChannelExclusion)
    → In x db.exclusions
    → ¬ ((x.check_id ≡ check_id) × (x.channel_id ≡ channel_id))

-- What makes a channel a recipient, with no word of the code's tests.
pub record Receives (db : Db) (c : Check) (i : ℕ) : Type 0 where
  pub channel : NotificationChannel
  pub stored : In channel db.channels
  pub key : channel.id ≡ i
  pub same_project : channel.project_id ≡ c.project_id
  pub enabled : channel.enabled ≡ true
  pub not_excluded : NotExcluded db c.id i

pub not_excluded_of :
    (xs : List CheckChannelExclusion) (k i : ℕ)
    → is_excluded xs k i ≡ false
    → (x : CheckChannelExclusion) → In x xs
    → ¬ ((x.check_id ≡ k) × (x.channel_id ≡ i))
unfolding is_excluded
not_excluded_of xs k i h x m both =
    let t = In-any (λ x. x.check_id == k && x.channel_id == i) x xs m (ground arith) in cc (t, h)

excluded_of :
    (xs : List CheckChannelExclusion) (k i : ℕ)
    → ((x : CheckChannelExclusion) → In x xs → ¬ ((x.check_id ≡ k) × (x.channel_id ≡ i)))
    → is_excluded xs k i ≡ false
unfolding is_excluded
excluded_of xs k i h = elim (Bool-cases (any (λ x. x.check_id == k && x.channel_id == i) xs)) [
  | inl e ↦ let (x, m, p) = any-In _ xs e in absurd (h x m (ground arith))
  | inr e ↦ e
]

selected_free :
    (db : Db) (c : Check) (i : ℕ) (ch : NotificationChannel)
    → (is_selected db c.id c.project_id ch && (ch.id == i)) ≡ true
    → is_excluded db.exclusions c.id i ≡ false
unfolding is_selected
selected_free db c i ch h = let e : i ≡ ch.id = ground arith in rw e (ground arith)

received :
    (db : Db) (c : Check) (i : ℕ)
    → (ch : NotificationChannel) × In ch db.channels
      × ((is_selected db c.id c.project_id ch && (ch.id == i)) ≡ true)
    → Receives db c i
unfolding is_selected
received db c i (ch, m, h) = record {
  channel = ch;
  stored = m;
  key = ground arith;
  same_project = ground arith;
  enabled = ground arith;
  not_excluded = not_excluded_of db.exclusions c.id i (selected_free db c i ch h);
}

selected :
    (db : Db) (c : Check) (i : ℕ) (r : Receives db c i)
    → (is_selected db c.id c.project_id r.channel && (r.channel.id == i)) ≡ true
unfolding is_selected
selected db c i r = ground (arith, excluded_of db.exclusions c.id i r.not_excluded)

-- A channel is in the snapshot exactly when it is an enabled channel of the check's project and
-- the check has no exclusion for it.
pub snapshot_exact :
    (db : Db) (c : Check) (i : ℕ)
    → (elem i (snapshot_selected_channel_ids db c) ≡ true) ↔ Receives db c i
snapshot_exact db c i = (forth, back)
  where
    forth : elem i (snapshot_selected_channel_ids db c) ≡ true → Receives db c i
    forth h = received db c i (any-In _ db.channels (sym (elem-snapshot i db c) ∙ h))

    back : Receives db c i → elem i (snapshot_selected_channel_ids db c) ≡ true
    back r = elem-snapshot i db c ∙ In-any _ r.channel db.channels r.stored (selected db c i r)

pub created_before_total :
    (a b : NotificationChannel) → created_before a b ≡ false → created_before b a ≡ true
unfolding created_before
created_before_total a b h = ground arith

pub created_before_trans :
    (a b c : NotificationChannel)
    → created_before a b ≡ true
    → created_before b c ≡ true
    → created_before a c ≡ true
unfolding created_before
created_before_trans a b c h k = ground arith

stored_filter :
    (p : NotificationChannel → Bool) (xs ys : List NotificationChannel)
    → ((ch : NotificationChannel) → In ch xs → In ch ys)
    → All (λ ch. In ch ys) (filter p xs)
stored_filter p [] ys h = tt
stored_filter p (x ∷ xs) ys h = elim (Bool-cases (p x)) [
  | inl e ↦ rw e (h x (inl refl), stored_filter p xs ys (λ ch m. h ch (inr m)))
  | inr e ↦ rw e (stored_filter p xs ys (λ ch m. h ch (inr m)))
]
