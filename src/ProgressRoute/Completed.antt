-- ===== src/ProgressRoute/Completed.antt =====
-- `update_progress` as a whole, on a completed lesson and on one that is marked complete.
use edtech_back.Base.{
  ℕ, ◌≡◌, ◌∙◌, refl, sym, true, false, none, some, [], ◌∷◌, ◌++◌, Text, text_eq_refl, ◌==◌, find,
  find-update_where, find-append_none, is_some, ok, arith, Bool-cases, Option-cases, inl, inr,
}
use mathlib.Core.Path.{subst}
use edtech_back.Model.{User, Lesson, Progress, Db, Settings, Role, LessonStatus}
use edtech_back.Permissions.{user_can, can}
use edtech_back.Sections.{resolve_section, find_progress, new_progress, has_key}
use edtech_back.Sections.Resolve.{resolve_section-contains}
use edtech_back.LessonAccess.{AccessStatus}
use edtech_back.LessonAccess.Tracks.{is_assigned, get_access_status}
use edtech_back.LessonAccess.Grouping.{IsTracked, completed-get_access_status}
use edtech_back.ProgressRoute.{
  ProgressUpdate, proceed, guard_write_access, slide_total_of, synced_slide_count, sync_slide_count,
  resolve_percent, record_row, with_row, edit_row, write_progress, update_section, update_progress,
}

-- what the guards of the handler have established when it comes to the class
pub record IsAdmitted (db : Db) (teacher : User) (l : Lesson) (payload : ProgressUpdate)
    (section : Text) : Type 0 where
  pub by_teacher : teacher.role ≡ Role.teacher
  pub known : find (λ m. m.id == l.id) db.lessons ≡ some l
  pub assigned : is_assigned db.assignments teacher.id l.id ≡ true
  pub resolved : resolve_section teacher l.grade payload.section ≡ some section

module _ (percent_of : ℕ → ℕ → ℕ) (settings : Settings) (now : ℕ) (db : Db) (teacher : User)
    (l : Lesson) (payload : ProgressUpdate) (section : Text)
    (admitted : IsAdmitted db teacher l payload section) where
  update_progress-update_section :
      update_progress percent_of settings now db teacher l.id payload
      ≡ update_section percent_of settings now db teacher l payload section
  unfolding update_progress user_can can
  update_progress-update_section =
      ground (arith, admitted.by_teacher, admitted.known, admitted.assigned, admitted.resolved)

  row-IsTracked :
      (p : Progress)
      → find_progress db.progress teacher.id l.id section ≡ some p
      → IsTracked db teacher l section p
  row-IsTracked p row = record {
    by_teacher = admitted.by_teacher;
    known = admitted.known;
    assigned = admitted.assigned;
    taken = resolve_section-contains teacher l.grade payload.section section admitted.resolved;
    row = row;
  }

  -- A report on a lesson that the class has completed, and that nobody reopened, is answered with
  -- the row as it is, and changes nothing in the database.
  pub update_progress-completed :
      (p : Progress)
      → find_progress db.progress teacher.id l.id section ≡ some p
      → p.status ≡ LessonStatus.completed
      → p.unlocked_override ≡ false
      → update_progress percent_of settings now db teacher l.id payload ≡ (ok p, db)
  unfolding update_section guard_write_access
  update_progress-completed p row done shut = rw update_progress-update_section (
      ground (
        arith,
        row,
        completed-get_access_status settings now db teacher l section p (row-IsTracked p row) done
            shut,
      ))

has_key_self : (p : Progress) → has_key p.teacher_id p.lesson_id p.section p ≡ true
has_key_self p = ground (arith, text_eq_refl p.section)

-- After `with_row` there is a row of the key.
pub find_progress-with_row :
    (t l : ℕ) (s : Text) (db : Db)
    → (p : Progress) × (find_progress (with_row t l s db).progress t l s ≡ some p)
unfolding with_row
find_progress-with_row t l s db = elim (Option-cases (find_progress db.progress t l s)) [
  | inr (p, e) ↦ (p, rw (e, with_row) e)
  | inl e ↦ (new_progress db.next_id t l s, rw e (appended e))
]
  where
    appended :
        find_progress db.progress t l s ≡ none
        → find_progress (db.progress ++ new_progress db.next_id t l s ∷ []) t l s
          ≡ some (new_progress db.next_id t l s)
    appended e =
        unfold find_progress new_progress find in
        find-append_none (has_key t l s) db.progress _ e ∙ ground (arith, text_eq_refl s)

-- An edit of the row of a key is what is found under the key afterwards.
pub find_progress-edit_row :
    (t l : ℕ) (s : Text) (f : Progress → Progress) (db : Db) {p : Progress}
    → ((q : Progress) → has_key t l s q ≡ true → has_key t l s (f q) ≡ true)
    → find_progress db.progress t l s ≡ some p
    → find_progress (edit_row t l s f db).progress t l s ≡ some (f p)
unfolding find_progress edit_row
find_progress-edit_row t l s f db keep e =
    rw (find-update_where (has_key t l s) f keep db.progress) (ground (arith, e))

pub with_row-keeps :
    (t l : ℕ) (s : Text) (db : Db)
    → ((with_row t l s db).lessons ≡ db.lessons)
      × ((with_row t l s db).assignments ≡ db.assignments)
unfolding with_row
with_row-keeps t l s db = elim (Bool-cases (is_some (find_progress db.progress t l s))) [
  | inl there ↦ rw there (refl, refl)
  | inr absent ↦ rw absent (refl, refl)
]

synced_slide_count-keeps :
    (payload : ProgressUpdate) (l : Lesson)
    → ((synced_slide_count payload l).id ≡ l.id) × ((synced_slide_count payload l).grade ≡ l.grade)
unfolding synced_slide_count
synced_slide_count-keeps payload l = ground arith

module _ (percent_of : ℕ → ℕ → ℕ) (settings : Settings) (now : ℕ) (db : Db) (teacher : User)
    (l : Lesson) (payload : ProgressUpdate) (section : Text)
    (admitted : IsAdmitted db teacher l payload section) where
  synced : Lesson
  synced = synced_slide_count payload l

  prepared : Db
  prepared = with_row teacher.id l.id section (sync_slide_count payload l.id db)

  written : ℕ → Db
  written percent =
      write_progress payload (slide_total_of payload l) percent now teacher.id l.id section db

  find-written : (percent : ℕ) → find (λ m. m.id == l.id) (written percent).lessons ≡ some synced
  unfolding written write_progress edit_row synced sync_slide_count
  find-written percent =
      rw ((with_row-keeps teacher.id l.id section (sync_slide_count payload l.id db)).0) (
        rw
          (
            find-update_where (λ m. m.id == l.id) (synced_slide_count payload)
                (λ m h. ground (arith, synced_slide_count-keeps payload m)) db.lessons,
            admitted.known,
          )
          refl)

  row_written : Progress → ℕ → Progress
  row_written p percent = record_row payload (slide_total_of payload l) percent now p

  written_row :
      (percent : ℕ) (p : Progress)
      → find_progress prepared.progress teacher.id l.id section ≡ some p
      → find_progress (written percent).progress teacher.id l.id section
        ≡ some (row_written p percent)
  unfolding written write_progress prepared row_written
  written_row percent p e =
      find_progress-edit_row teacher.id l.id section _ prepared (λ q h. unfold record_row in h) e

  written-IsTracked :
      (percent : ℕ) (p : Progress)
      → find_progress prepared.progress teacher.id l.id section ≡ some p
      → IsTracked (written percent) teacher synced section (row_written p percent)
  unfolding synced
  written-IsTracked percent p e = record {
    by_teacher = admitted.by_teacher;
    known =
        subst (λ i. find (λ m. m.id == i) (written percent).lessons ≡ some synced)
          (sym (synced_slide_count-keeps payload l).0) (find-written percent);
    assigned = rw (synced_slide_count-keeps payload l).0 (
        unfold written write_progress edit_row sync_slide_count in
        rw ((with_row-keeps teacher.id l.id section (sync_slide_count payload l.id db)).1)
          admitted.assigned);
    taken =
        rw (synced_slide_count-keeps payload l).1
          (resolve_section-contains teacher l.grade payload.section section admitted.resolved);
    row = rw (synced_slide_count-keeps payload l).0 (written_row percent p e);
  }

  -- Marking a lesson complete, where the sequence lets the teacher write to it, is answered with a
  -- row that is completed, stamped with a completion time and free of any override; and from then
  -- on, at whatever time, the status of the lesson for that class is completed, so that it is
  -- locked until somebody reopens it.
  pub update_progress-complete :
      guard_write_access settings now db teacher l.id section ≡ proceed
      → payload.complete ≡ true
      → (p : Progress) × (db' : Db) × (update_progress percent_of settings now db teacher l.id
            payload
          ≡ (ok p, db'))
        × (p.status ≡ LessonStatus.completed)
        × (p.unlocked_override ≡ false)
        × (is_some p.completed_at ≡ true)
        × ((later : ℕ)
            → get_access_status settings later db' teacher l.id (some section)
              ≡ some AccessStatus.completed)
  unfolding synced
  update_progress-complete open_gate done =
      let (q, e) =
        find_progress-with_row teacher.id l.id section (sync_slide_count payload l.id db) in
      let e' : find_progress prepared.progress teacher.id l.id section ≡ some q =
        unfold prepared in e in
      let found = written_row 100 q e' in
      (
        row_written q 100,
        written 100,
        rw
            (update_progress-update_section percent_of settings now db teacher l payload section
              admitted)
            (answered q found),
        unfold row_written record_row in refl,
        unfold row_written record_row in refl,
        unfold row_written record_row in ground arith,
        λ later.
            subst
              (λ i.
                get_access_status settings later (written 100) teacher i (some section)
                ≡ some AccessStatus.completed)
              (synced_slide_count-keeps payload l).0
              (completed-get_access_status settings later (written 100) teacher synced section
                (row_written q 100) (written-IsTracked 100 q e')
                (unfold row_written record_row in refl) (unfold row_written record_row in refl)),
      )
    where
      answered :
          (q : Progress)
          → find_progress (written 100).progress teacher.id l.id section ≡ some (row_written q 100)
          → update_section percent_of settings now db teacher l payload section
            ≡ (ok (row_written q 100), written 100)
      answered q found =
          unfold update_section resolve_percent written in ground (arith, open_gate, done, found)
