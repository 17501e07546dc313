-- ===== src/Files/Impact.antt =====
-- The deletions of app/routers/files.py and of a lesson: against the impact that is told, and
-- against the projects of the fair.
use edtech_back.Base.{
  ℕ, ◌≡◌, ◌+◌, refl, Bool, true, false, not, ◌||◌, some, List, [], ◌∷◌, ◌==◌, find, is_some, select,
  map, any, all, delete_where, count_where, count-select, length, contains, ok, Outcome-cases,
  Option-cases, arith, Bool-cases, inl, inr,
}
use edtech_back.Model.{User, FairProject, Db, UploadedFile}
use edtech_back.Permissions.{Capability, user_can}
use edtech_back.FairAccess.{is_id, refuse_fair_backed}
use edtech_back.Lessons.{delete_lesson, drop_lesson, same_school}
use edtech_back.Files.Linked.{have_keys, is_linked_to, lessons_of-count}
use edtech_back.Files.{
  selected_ids, lessons_of, is_doomed, DeletionImpact, impact_of, deletion_impact, drop_files,
  spares_fair, BulkDeleteResult, bulk_delete, goes_with, delete_file,
}

module _ {A : Type 0} where
  length-delete_where :
      (m : A → Bool) (xs : List A) → length (delete_where m xs) + count_where m xs ≡ length xs
  unfolding delete_where count_where
  length-delete_where m [] = refl
  length-delete_where m (x ∷ xs) = ground (arith, length-delete_where m xs)

-- The deletion of a selection of files that is accepted deletes as many files, lessons, assignments,
-- rows of progress, messages and requests as the impact of the same selection told beforehand, where
-- no two lessons have one identifier and the lesson that a file is linked to is there; and it answers
-- the numbers of files and of lessons that it deletes.
pub bulk_delete-impact :
    (db db' : Db) (current : User) (ids : List ℕ) (i : DeletionImpact) (r : BulkDeleteResult)
    → have_keys db.lessons ≡ true
    → all (is_linked_to db.lessons) db.files ≡ true
    → deletion_impact db current ids ≡ ok i
    → bulk_delete db current ids ≡ (ok r, db')
    → (r.deleted_files ≡ i.files)
      × (r.deleted_lessons ≡ i.lessons)
      × (length db'.files + i.files ≡ length db.files)
      × (length db'.assignments + i.assignments ≡ length db.assignments)
      × (length db'.progress + i.progress ≡ length db.progress)
      × (length db'.chats + i.chat_messages ≡ length db.chats)
      × (length db'.requests + i.access_requests ≡ length db.requests)
      × (length db'.lessons + i.lessons ≡ length db.lessons)
unfolding deletion_impact bulk_delete impact_of drop_files
bulk_delete-impact db db' current ids i r keys links told done =
    elim (Bool-cases (user_can current Capability.upload_files)) [
      | inr unable ↦ absurd (ground arith)
      | inl able ↦ elim (Outcome-cases (selected_ids ids)) [
        | inl (code, e) ↦ absurd (ground arith)
        | inr (chosen, e) ↦
            let lesson_ids = lessons_of db chosen in
            elim (Bool-cases (spares_fair db (is_doomed chosen lesson_ids))) [
              | inr backed ↦ absurd (ground arith)
              | inl free ↦
                  let doomed = is_doomed chosen lesson_ids in
                  let told' : i ≡ impact_of db chosen = ground arith in
                  let after : db' ≡ drop_files doomed lesson_ids db = ground arith in
                  let answered : r ≡ record {
                    deleted_files = length (select doomed db.files);
                    deleted_lessons = count_where (λ l. contains l.id lesson_ids) db.lessons;
                  } =
                    ground arith in
                  rw (told', after, answered)
                    (
                      refl,
                      lessons_of-count db chosen keys links,
                      rw (count-select doomed db.files) (length-delete_where doomed db.files),
                      length-delete_where (λ a. contains a.lesson_id lesson_ids) db.assignments,
                      length-delete_where (λ p. contains p.lesson_id lesson_ids) db.progress,
                      length-delete_where (λ m. contains m.lesson_id lesson_ids) db.chats,
                      length-delete_where (λ q. contains q.lesson_id lesson_ids) db.requests,
                      rw (← lessons_of-count db chosen keys links)
                          (length-delete_where (λ l. contains l.id lesson_ids) db.lessons),
                    )
            ]
      ]
    ]

-- the file of a project is there
abbrev pub has_file : List UploadedFile → FairProject → Bool
has_file files p = any (λ f. is_id p.file_id f.id) files

-- whatever project has a file still has it
pub keeps_files : Db → Db → Bool
keeps_files db db' = all (λ p. not (has_file db.files p) || has_file db'.files p) db.fair_projects

-- the deletions of files, by themselves or with a lesson
pub data Deletion : Type 0 where
  one_file one_lesson : ℕ → Deletion
  selection : List ℕ → Deletion

pub delete_by : Db → User → Deletion → Db
delete_by db user (Deletion.one_file id) = (delete_file db user id).1
delete_by db user (Deletion.one_lesson id) = (delete_lesson db user id).1
delete_by db user (Deletion.selection ids) = (bulk_delete db user ids).1

has_file-delete_where :
    (p : FairProject) (doomed : UploadedFile → Bool) (files : List UploadedFile)
    → any (λ id. is_id p.file_id id) (map (λ f. f.id) (select doomed files)) ≡ false
    → has_file (delete_where doomed files) p ≡ has_file files p
unfolding any select delete_where
has_file-delete_where p doomed [] h = refl
has_file-delete_where p doomed (f ∷ fs) h = ground (arith, has_file-delete_where p doomed fs)

any-swap-false :
    (ids : List ℕ) (p : FairProject) (ps : List FairProject)
    → any (λ id. any (λ q. is_id q.file_id id) (p ∷ ps)) ids ≡ false
    → (any (λ id. is_id p.file_id id) ids ≡ false)
      × (any (λ id. any (λ q. is_id q.file_id id) ps) ids ≡ false)
unfolding any
any-swap-false [] p ps h = (refl, refl)
any-swap-false (id ∷ ids) p ps h =
    let rest = any-swap-false ids p ps (ground arith) in (ground arith, ground arith)

all-kept :
    (files : List UploadedFile) (doomed : UploadedFile → Bool) (ps : List FairProject)
    → any (λ id. any (λ q. is_id q.file_id id) ps) (map (λ f. f.id) (select doomed files)) ≡ false
    → all (λ p. not (has_file files p) || has_file (delete_where doomed files) p) ps ≡ true
unfolding all
all-kept files doomed [] h = refl
all-kept files doomed (p ∷ ps) h =
    let apart = any-swap-false (map (λ f. f.id) (select doomed files)) p ps h in
    let same = has_file-delete_where p doomed files apart.0 in
    let rest = all-kept files doomed ps apart.1 in ground arith

kept_all :
    (files : List UploadedFile) (ps : List FairProject)
    → all (λ p. not (has_file files p) || has_file files p) ps ≡ true
unfolding all
kept_all files [] = refl
kept_all files (p ∷ ps) = ground (arith, kept_all files ps)

keeps_files-same : (db : Db) → keeps_files db db ≡ true
unfolding keeps_files
keeps_files-same db = kept_all db.files db.fair_projects

-- A deletion that the guard lets through.
keeps_files-spared :
    (db db' : Db) (doomed : UploadedFile → Bool)
    → spares_fair db doomed ≡ true
    → db'.files ≡ delete_where doomed db.files
    → keeps_files db db' ≡ true
unfolding keeps_files refuse_fair_backed
keeps_files-spared db db' doomed spared same =
    rw same (all-kept db.files doomed db.fair_projects (ground arith))

-- No deletion of a file, of a selection of files or of a lesson takes the file of a project of the
-- fair: each project that had its file has it afterwards.
pub delete_by-keeps_files :
    (db : Db) (user : User) (d : Deletion) → keeps_files db (delete_by db user d) ≡ true
unfolding delete_by delete_file delete_lesson bulk_delete drop_files drop_lesson
delete_by-keeps_files db user (Deletion.one_file id) =
    elim (Bool-cases (user_can user Capability.upload_files)) [
      | inr unable ↦ rw (unable, delete_by, delete_file) (keeps_files-same db)
      | inl able ↦ elim (Option-cases (find (λ f. f.id == id) db.files)) [
        | inl missing ↦ rw (able, missing, delete_by, delete_file) (keeps_files-same db)
        | inr (file, e) ↦ elim (Bool-cases (spares_fair db (goes_with file))) [
          | inr backed ↦ rw (able, e, backed, delete_by, delete_file) (keeps_files-same db)
          | inl spared ↦
              rw (able, e, spared, delete_by, delete_file)
                (keeps_files-spared db _ (goes_with file) spared refl)
        ]
      ]
    ]
delete_by-keeps_files db user (Deletion.one_lesson id) =
    let doomed : UploadedFile → Bool = λ f. same_school f.linked_lesson_id (some id) in
    elim (Bool-cases (user_can user Capability.upload_files)) [
      | inr unable ↦ rw (unable, delete_by, delete_lesson) (keeps_files-same db)
      | inl able ↦ elim (Bool-cases (is_some (find (λ l. l.id == id) db.lessons))) [
        | inr missing ↦ rw (able, missing, delete_by, delete_lesson) (keeps_files-same db)
        | inl there ↦ elim (Bool-cases (spares_fair db doomed)) [
          | inr backed ↦ rw (able, there, backed, delete_by, delete_lesson) (keeps_files-same db)
          | inl spared ↦
              rw (able, there, spared, delete_by, delete_lesson)
                (keeps_files-spared db _ doomed spared refl)
        ]
      ]
    ]
delete_by-keeps_files db user (Deletion.selection ids) =
    elim (Bool-cases (user_can user Capability.upload_files)) [
      | inr unable ↦ rw (unable, delete_by, bulk_delete) (keeps_files-same db)
      | inl able ↦ elim (Outcome-cases (selected_ids ids)) [
        | inl (code, e) ↦ rw (able, e, delete_by, bulk_delete) (keeps_files-same db)
        | inr (chosen, e) ↦
            let doomed = is_doomed chosen (lessons_of db chosen) in
            elim (Bool-cases (spares_fair db doomed)) [
              | inr backed ↦ rw (able, e, backed, delete_by, bulk_delete) (keeps_files-same db)
              | inl spared ↦
                  rw (able, e, spared, delete_by, bulk_delete)
                    (keeps_files-spared db _ doomed spared refl)
            ]
      ]
    ]
