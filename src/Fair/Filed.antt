-- ===== src/Fair/Filed.antt =====
-- The requests of app/routers/fair.py that change something, in any order, and where projects
-- stand.
use edtech_back.Base.{
  ℕ, ◌≡◌, ◌+◌, refl, ◌∙◌, Bool, true, false, not, Option, none, some, List, [], ◌∷◌, ◌++◌, Text,
  text_eq, show_nat, digits_from, contains_text, all-select_kept, guard-either, ◌==◌, ltb, length,
  find, any, all, all-append_one, all-imp, all-delete_where, all-update_where, any-append,
  delete_where, update_where, arith, Option-cases, inl, inr,
}
use edtech_back.Model.{User, FairSection, FairProject, Db}
use edtech_back.Permissions.{Capability, user_can}
use edtech_back.FairAccess.{is_id}
use edtech_back.Files.{ends_with_pdf, starts_with, pdf_magic}
use edtech_back.Fair.{
  all_grade_tokens, clean_grades, FairSectionCreate, new_section, create_fair_section,
  FairSectionUpdate, edit_section, update_fair_section, delete_fair_section, has_section,
  new_project, upload_fair_project, FairProjectUpdate, edit_project, has_sent, update_fair_project,
  goes_with_project, delete_fair_project,
}

-- the grades of a section are tokens of the curriculum
abbrev pub are_tokens : List Text → Bool
are_tokens grades = all (λ g. contains_text g all_grade_tokens) grades

pub record IsFair (db : Db) : Type 0 where
  pub filed : all (λ p. has_section db.fair_sections p.section_id) db.fair_projects ≡ true
  pub graded : all (λ s. are_tokens s.grades) db.fair_sections ≡ true

-- what a handler answers, with a database that is fair
Answers : {A : Type 0} → A × Db → Type 0
Answers r = IsFair r.1

answers : {A : Type 0} (o : A) {db : Db} → IsFair db → Answers (o, db)
unfolding Answers
answers o h = h

of_Answers : {A : Type 0} (r : A × Db) → Answers r → IsFair r.1
unfolding Answers
of_Answers r h = h

-- the requests of the router that change something
pub data FairEdit : Type 0 where
  create_section : FairSectionCreate → FairEdit
  update_section : ℕ → FairSectionUpdate → FairEdit
  delete_section : ℕ → FairEdit
  upload_project : Text → List ℕ → Option ℕ → FairEdit
  update_project : ℕ → FairProjectUpdate → FairEdit
  delete_project : ℕ → FairEdit

pub run_fair : ℕ → Db → User × FairEdit → Db
run_fair max db (user, FairEdit.create_section c) = (create_fair_section db user c).1
run_fair max db (user, FairEdit.update_section id c) = (update_fair_section db user id c).1
run_fair max db (user, FairEdit.delete_section id) = (delete_fair_section db user id).1
run_fair max db (user, FairEdit.upload_project name content id) =
    (upload_fair_project max db user name content id).1
run_fair max db (user, FairEdit.update_project id c) = (update_fair_project db user id c).1
run_fair max db (user, FairEdit.delete_project id) = (delete_fair_project db user id).1

pub run_fairs : ℕ → Db → List (User × FairEdit) → Db
run_fairs max db [] = db
run_fairs max db (e ∷ es) = run_fairs max (run_fair max db e) es

every_token : are_tokens all_grade_tokens ≡ true
unfolding all contains_text text_eq all_grade_tokens show_nat digits_from
every_token = refl

clean_grades-are_tokens : (gs : List Text) → are_tokens (clean_grades gs) ≡ true
unfolding clean_grades
clean_grades-are_tokens gs =
    all-select_kept (λ g. contains_text g all_grade_tokens) _ all_grade_tokens every_token

has_section-append :
    (ss ts : List FairSection) (id : Option ℕ)
    → has_section ss id ≡ true
    → has_section (ss ++ ts) id ≡ true
has_section-append ss ts none h = refl
has_section-append ss ts (some id) h = ground (arith, any-append (λ s. s.id == id) ss ts)

any-edit_section :
    (c : FairSectionUpdate) (m : FairSection → Bool) (id : ℕ) (ss : List FairSection)
    → any (λ s. s.id == id) (update_where m (edit_section c) ss) ≡ any (λ s. s.id == id) ss
unfolding any update_where edit_section
any-edit_section c m id [] = refl
any-edit_section c m id (s ∷ ss) = ground (arith, any-edit_section c m id ss)

has_section-edit :
    (c : FairSectionUpdate) (m : FairSection → Bool) (ss : List FairSection) (id : Option ℕ)
    → has_section (update_where m (edit_section c) ss) id ≡ has_section ss id
has_section-edit c m ss none = refl
has_section-edit c m ss (some id) = any-edit_section c m id ss

any-other :
    (gone id : ℕ) (ss : List FairSection)
    → (gone == id) ≡ false
    → any (λ s. s.id == id) (delete_where (λ s. s.id == gone) ss) ≡ any (λ s. s.id == id) ss
unfolding any delete_where
any-other gone id [] h = refl
any-other gone id (s ∷ ss) h = ground (arith, any-other gone id ss)

has_section-other :
    (gone : ℕ) (ss : List FairSection) (id : Option ℕ)
    → is_id id gone ≡ false
    → has_section (delete_where (λ s. s.id == gone) ss) id ≡ has_section ss id
has_section-other gone ss none h = refl
has_section-other gone ss (some id) h = any-other gone id ss (ground arith)

create_fair_section-IsFair :
    (db : Db) (user : User) (c : FairSectionCreate)
    → IsFair db
    → Answers (create_fair_section db user c)
unfolding create_fair_section new_section
create_fair_section-IsFair db user c h =
    guard-either Answers (not (user_can user Capability.upload_files)) (λ _. answers _ h)
      (λ _.
        guard-either Answers (not (any (λ s. s.id == c.school_id) db.schools)) (λ _. answers _ h)
          (λ _. answers _ (record {
            filed =
                all-imp _ _ (λ p. has_section-append db.fair_sections _ p.section_id)
                  db.fair_projects h.filed;
            graded =
                all-append_one (λ s. are_tokens s.grades) db.fair_sections
                  (new_section db.next_id c) h.graded (clean_grades-are_tokens c.grades);
          })))

edit_section-are_tokens :
    (c : FairSectionUpdate) (s : FairSection)
    → are_tokens s.grades ≡ true
    → are_tokens (edit_section c s).grades ≡ true
unfolding edit_section
edit_section-are_tokens c s h = elim (Option-cases c.grades) [
  | inl kept ↦ rw kept h
  | inr (gs, e) ↦ rw e (clean_grades-are_tokens gs)
]

update_fair_section-IsFair :
    (db : Db) (user : User) (id : ℕ) (c : FairSectionUpdate)
    → IsFair db
    → Answers (update_fair_section db user id c)
unfolding update_fair_section
update_fair_section-IsFair db user id c h =
    let m : FairSection → Bool = λ s. s.id == id in
    guard-either Answers (not (user_can user Capability.upload_files)) (λ _. answers _ h)
      (λ _.
        guard-either Answers (not (any (λ s. s.id == id) db.fair_sections)) (λ _. answers _ h)
          (λ _. answers _ (record {
            filed =
                all-imp _ _ (λ p e. has_section-edit c m db.fair_sections p.section_id ∙ e)
                  db.fair_projects h.filed;
            graded =
                all-update_where (λ s. are_tokens s.grades) m (edit_section c)
                  (edit_section-are_tokens c) db.fair_sections h.graded;
          })))

all-filed_elsewhere :
    (gone : ℕ) (ss : List FairSection) (ps : List FairProject)
    → any (λ p. is_id p.section_id gone) ps ≡ false
    → all (λ p. has_section ss p.section_id) ps ≡ true
    → all (λ p. has_section (delete_where (λ s. s.id == gone) ss) p.section_id) ps ≡ true
unfolding any all
all-filed_elsewhere gone ss [] out h = refl
all-filed_elsewhere gone ss (p ∷ ps) out h =
    let apart : is_id p.section_id gone ≡ false = ground arith in
    let same = has_section-other gone ss p.section_id apart in
    let rest = all-filed_elsewhere gone ss ps (ground arith) (ground arith) in ground arith

delete_fair_section-IsFair :
    (db : Db) (user : User) (id : ℕ) → IsFair db → Answers (delete_fair_section db user id)
unfolding delete_fair_section
delete_fair_section-IsFair db user id h =
    guard-either Answers (not (user_can user Capability.upload_files)) (λ _. answers _ h)
      (λ _.
        guard-either Answers (not (any (λ s. s.id == id) db.fair_sections)) (λ _. answers _ h)
          (λ _.
            guard-either Answers (any (λ p. is_id p.section_id id) db.fair_projects)
              (λ _. answers _ h)
              (λ out. answers _ (record {
                filed = all-filed_elsewhere id db.fair_sections db.fair_projects out h.filed;
                graded = all-delete_where (λ s. are_tokens s.grades) _ db.fair_sections h.graded;
              }))))

unnot : (b : Bool) → not b ≡ false → b ≡ true
unnot false h = cc
unnot true h = refl

upload_fair_project-IsFair :
    (max : ℕ) (db : Db) (user : User) (name : Text) (content : List ℕ) (id : Option ℕ)
    → IsFair db
    → Answers (upload_fair_project max db user name content id)
unfolding upload_fair_project new_project
upload_fair_project-IsFair max db user name content id h =
    guard-either Answers (not (user_can user Capability.upload_files)) (λ _. answers _ h)
      (λ _.
        guard-either Answers (not (ends_with_pdf name)) (λ _. answers _ h)
          (λ _.
            guard-either Answers (not (has_section db.fair_sections id)) (λ _. answers _ h)
              (λ there.
                guard-either Answers (ltb max (length content)) (λ _. answers _ h)
                  (λ _.
                    guard-either Answers (not (starts_with pdf_magic content)) (λ _. answers _ h)
                      (λ _. answers _ (record {
                        filed =
                            all-append_one (λ p. has_section db.fair_sections p.section_id)
                              db.fair_projects (new_project (db.next_id + 1) db.next_id name id)
                              h.filed (unnot _ there);
                        graded = h.graded;
                      }))))))

edit_project-has_section :
    (ss : List FairSection) (c : FairProjectUpdate) (p : FairProject)
    → has_sent ss c.section_id ≡ true
    → has_section ss p.section_id ≡ true
    → has_section ss (edit_project c p).section_id ≡ true
unfolding edit_project
edit_project-has_section ss c p sent h = elim (Option-cases c.section_id) [
  | inl kept ↦ rw kept h
  | inr (id, e) ↦ rw e (rw e at sent)
]

update_fair_project-IsFair :
    (db : Db) (user : User) (id : ℕ) (c : FairProjectUpdate)
    → IsFair db
    → Answers (update_fair_project db user id c)
unfolding update_fair_project
update_fair_project-IsFair db user id c h =
    guard-either Answers (not (user_can user Capability.upload_files)) (λ _. answers _ h)
      (λ _.
        guard-either Answers (not (any (λ p. p.id == id) db.fair_projects)) (λ _. answers _ h)
          (λ _.
            guard-either Answers (not (has_sent db.fair_sections c.section_id)) (λ _. answers _ h)
              (λ sent. answers _ (record {
                filed =
                    all-update_where (λ p. has_section db.fair_sections p.section_id) _
                      (edit_project c)
                      (λ p. edit_project-has_section db.fair_sections c p (unnot _ sent))
                      db.fair_projects h.filed;
                graded = h.graded;
              }))))

delete_fair_project-IsFair :
    (db : Db) (user : User) (id : ℕ) → IsFair db → Answers (delete_fair_project db user id)
unfolding delete_fair_project
delete_fair_project-IsFair db user id h =
    guard-either Answers (not (user_can user Capability.upload_files)) (λ _. answers _ h)
      (λ _. elim (Option-cases (find (λ p. p.id == id) db.fair_projects)) [
        | inl missing ↦ rw missing (answers _ h)
        | inr (project, e) ↦ rw e (
            answers _ (record {
              filed =
                  all-delete_where (λ p. has_section db.fair_sections p.section_id)
                    (goes_with_project db.files project) db.fair_projects h.filed;
              graded = h.graded;
            }))
      ])

run_fair-IsFair : (max : ℕ) (db : Db) (e : User × FairEdit) → IsFair db → IsFair (run_fair max db e)
unfolding run_fair
run_fair-IsFair max db (user, FairEdit.create_section c) h =
    of_Answers _ (create_fair_section-IsFair db user c h)
run_fair-IsFair max db (user, FairEdit.update_section id c) h =
    of_Answers _ (update_fair_section-IsFair db user id c h)
run_fair-IsFair max db (user, FairEdit.delete_section id) h =
    of_Answers _ (delete_fair_section-IsFair db user id h)
run_fair-IsFair max db (user, FairEdit.upload_project name content id) h =
    of_Answers _ (upload_fair_project-IsFair max db user name content id h)
run_fair-IsFair max db (user, FairEdit.update_project id c) h =
    of_Answers _ (update_fair_project-IsFair db user id c h)
run_fair-IsFair max db (user, FairEdit.delete_project id) h =
    of_Answers _ (delete_fair_project-IsFair db user id h)

-- Through any sequence of requests of the fair, by any users, every project that is filed stands
-- under a section that is there, and the grades of the sections are tokens of the curriculum.
pub run_fairs-IsFair :
    (max : ℕ) (db : Db) (es : List (User × FairEdit)) → IsFair db → IsFair (run_fairs max db es)
unfolding run_fairs
run_fairs-IsFair max db [] h = h
run_fairs-IsFair max db (e ∷ es) h =
    run_fairs-IsFair max (run_fair max db e) es (run_fair-IsFair max db e h)
