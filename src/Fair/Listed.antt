-- ===== src/Fair/Listed.antt =====
-- The list of the projects of app/routers/fair.py and the gate of one project, side by side.
use edtech_back.Base.{
  ℕ, ◌≡◌, refl, Bool, true, false, not, ◌&&◌, Option, none, some, List, [], ◌∷◌, map, ◌==◌, find,
  select, select-same, any, contains, latest_first, arith, Bool-cases, Option-cases, inl, inr,
}
use edtech_back.Model.{User, FairSection, FairProject, Db}
use edtech_back.FairAccess.{
  can_see_fair, section_visible_to, scope_sections, visible_sections, section_of, sees,
}
use edtech_back.FairAccess.Gates.{visible-scope, visible-can_see}
use edtech_back.Fair.{is_filed_in, list_fair_projects}

-- no two sections have one identifier
abbrev pub are_unique : List FairSection → Bool
are_unique [] = true
are_unique (s ∷ ss) = not (any (λ t. t.id == s.id) ss) && are_unique ss

-- the identifiers of the sections that are visible
abbrev visible_ids : User → List FairSection → List ℕ
visible_ids user ss =
    map (λ s. s.id) (select (section_visible_to user) (select (scope_sections user none) ss))

contains-visible_ids-false :
    (user : User) (id : ℕ) (ss : List FairSection)
    → any (λ s. s.id == id) ss ≡ false
    → contains id (visible_ids user ss) ≡ false
unfolding any contains select
contains-visible_ids-false user id [] h = refl
contains-visible_ids-false user id (s ∷ ss) h =
    ground (arith, contains-visible_ids-false user id ss)

contains-visible_ids :
    (user : User) (id : ℕ) (ss : List FairSection)
    → are_unique ss ≡ true
    → contains id (visible_ids user ss) ≡ sees user (find (λ s. s.id == id) ss)
unfolding any contains select find
contains-visible_ids user id [] h = refl
contains-visible_ids user id (s ∷ ss) h = elim (Bool-cases (s.id == id)) [
  | inl same ↦
      let alone : any (λ t. t.id == id) ss ≡ false = ground arith in
      ground (arith, contains-visible_ids-false user id ss, visible-scope user s)
  | inr other ↦ ground (arith, contains-visible_ids user id ss)
]

is_filed_in-sees :
    (db : Db) (user : User) (p : FairProject)
    → are_unique db.fair_sections ≡ true
    → is_filed_in (visible_ids user db.fair_sections) p ≡ sees user (section_of db p.section_id)
is_filed_in-sees db user p h = elim (Option-cases p.section_id) [
  | inl unfiled ↦ rw unfiled refl
  | inr (id, e) ↦ rw e (contains-visible_ids user id db.fair_sections h)
]

select-never :
    {A : Type 0} (p : A → Bool) → ((a : A) → p a ≡ false) → (xs : List A) → select p xs ≡ []
unfolding select
select-never p h [] = refl
select-never p h (x ∷ xs) = rw (h x, select-never p h xs) refl

sees-kept_out :
    (user : User) (s : Option FairSection) → can_see_fair user ≡ false → sees user s ≡ false
sees-kept_out user none h = refl
sees-kept_out user (some s) h = ground (arith, visible-can_see user s)

-- The projects that a user is listed are those, latest first, whose section exists and is visible to
-- her, the condition by which a single project opens, where no two sections have one identifier.
pub list_fair_projects-sees :
    (db : Db) (user : User)
    → are_unique db.fair_sections ≡ true
    → list_fair_projects db user
      ≡ latest_first (select (λ p. sees user (section_of db p.section_id)) db.fair_projects)
unfolding list_fair_projects visible_sections latest_first
list_fair_projects-sees db user h = elim (Bool-cases (can_see_fair user)) [
  | inr kept_out ↦
      rw
        (
          kept_out,
          select-never (λ p. sees user (section_of db p.section_id))
              (λ p. sees-kept_out user (section_of db p.section_id) kept_out) db.fair_projects,
        )
        refl
  | inl reaches ↦
      rw
        (
          reaches,
          select-same (is_filed_in (visible_ids user db.fair_sections))
              (λ p. sees user (section_of db p.section_id)) (λ p. is_filed_in-sees db user p h)
              db.fair_projects,
        )
        refl
]
