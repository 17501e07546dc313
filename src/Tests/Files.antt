-- ===== src/Tests/Files.antt =====
-- Runs of the deletions of PDFs.
use edtech_back.Base.{
  ◌≡◌, ◌+◌, refl, true, none, some, [], ◌∷◌, codes, find, select, any, all, contains, distinct,
  length, count_where, delete_where, ok,
}
use edtech_back.Model.{UploadedFile, Db}
use edtech_back.Permissions.{can, user_can}
use edtech_back.FairAccess.{refuse_fair_backed}
use edtech_back.Files.{
  selected_ids, linked_ids, lessons_of, is_doomed, DeletionImpact, impact_of, deletion_impact,
  drop_files, BulkDeleteResult, bulk_delete,
}
use edtech_back.Files.Linked.{have_keys, is_linked_to}
use edtech_back.Files.Impact.{
  keeps_files, Deletion, delete_by, bulk_delete-impact, delete_by-keeps_files,
}
use edtech_back.Tests.Fixtures.{db_1, admin_2}

-- what the runs below compute with
files_program : Unit {0}
unfolding find select any all contains distinct count_where delete_where can user_can
    refuse_fair_backed selected_ids linked_ids lessons_of is_doomed impact_of deletion_impact
    drop_files bulk_delete
files_program = tt

abbrev file_81 : UploadedFile
file_81 = record {
  id = 81;
  filename = codes "Grade 6 lesson 1.pdf";
  storage_path = some (codes "81.pdf");
  linked_lesson_id = some 10;
}

-- the file of the project of the fair
abbrev file_72 : UploadedFile
file_72 = record {
  id = 72;
  filename = codes "Arm.pdf";
  storage_path = some (codes "72.pdf");
  linked_lesson_id = none;
}

abbrev db_f : Db
db_f = record db_1 { files = file_81 ∷ file_72 ∷ [] }

abbrev impact_81 : DeletionImpact
impact_81 = record {
  files = 1;
  lessons = 1;
  teachers = 1;
  assignments = 1;
  progress = 2;
  chat_messages = 1;
  access_requests = 0;
  lessons_in_progress = 1;
}

abbrev deleted_81 : BulkDeleteResult
deleted_81 = record { deleted_files = 1; deleted_lessons = 1 }

told_81 : deletion_impact db_f admin_2 (81 ∷ []) ≡ ok impact_81
unfolding files_program
told_81 = refl

done_81 :
    bulk_delete db_f admin_2 (81 ∷ [])
    ≡ (ok deleted_81, drop_files (is_doomed (81 ∷ []) (10 ∷ [])) (10 ∷ []) db_f)
unfolding files_program
done_81 = refl

keys_f : have_keys db_f.lessons ≡ true
unfolding files_program
keys_f = refl

links_f : all (is_linked_to db_f.lessons) db_f.files ≡ true
unfolding files_program
links_f = refl

bulk_delete-impact_example :
    let db' = drop_files (is_doomed (81 ∷ []) (10 ∷ [])) (10 ∷ []) db_f in
    (deleted_81.deleted_files ≡ impact_81.files)
    × (deleted_81.deleted_lessons ≡ impact_81.lessons)
    × (length db'.files + 1 ≡ length db_f.files)
    × (length db'.assignments + 1 ≡ length db_f.assignments)
    × (length db'.progress + 2 ≡ length db_f.progress)
    × (length db'.chats + 1 ≡ length db_f.chats)
    × (length db'.requests + 0 ≡ length db_f.requests)
    × (length db'.lessons + 1 ≡ length db_f.lessons)
bulk_delete-impact_example =
    bulk_delete-impact db_f (drop_files (is_doomed (81 ∷ []) (10 ∷ [])) (10 ∷ []) db_f) admin_2
      (81 ∷ []) impact_81 deleted_81 keys_f links_f told_81 done_81

delete_by-keeps_files_example :
    keeps_files db_f (delete_by db_f admin_2 (Deletion.selection (81 ∷ 72 ∷ []))) ≡ true
delete_by-keeps_files_example =
    delete_by-keeps_files db_f admin_2 (Deletion.selection (81 ∷ 72 ∷ []))
