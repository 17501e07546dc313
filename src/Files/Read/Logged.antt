-- ===== src/Files/Read/Logged.antt =====
-- `readable_file` of app/routers/files.py: who is served, and what is logged.
use edtech_back.Base.{
  ℕ, ◌≡◌, refl, Bool, true, false, none, some, [], ◌∷◌, ◌++◌, ◌==◌, find, if◌then◌else◌, ok, arith,
  Bool-cases, Option-cases, inl, inr,
}
use edtech_back.Model.{
  User, Lesson, Db, Settings, UploadedFile, SecurityLog, SecurityEvent, SecurityStatus, Role,
  is_super_admin,
}
use edtech_back.LessonAccess.Tracks.{is_assigned, is_lesson_available}
use edtech_back.Auth.Tokens.{Origin, record_event}
use edtech_back.Lessons.{is_school_admin}
use edtech_back.Files.{is_fair_backed}
use edtech_back.Files.Read.{lesson_of_file, can_access, record_access, has_path, readable_file}

-- the line of an access
abbrev pub access_line : ℕ → ℕ → Origin → User → SecurityEvent → SecurityStatus → SecurityLog
access_line id now origin user event status = record {
  id = id;
  user_name = user.name;
  school_id = user.school_id;
  user_id = some user.id;
  ip = origin.ip;
  device = origin.device;
  event = event;
  status = status;
  timestamp = now;
}

both-true : (a b : Bool) → (if a then b else false) ≡ true → (a ≡ true) × (b ≡ true)
both-true true b h = (refl, h)
both-true false b h = cc

can_access-teacher :
    (settings : Settings) (now : ℕ) (db : Db) (user : User) (u : UploadedFile) (l : Lesson)
    → user.role ≡ Role.teacher
    → is_fair_backed db u.id ≡ false
    → lesson_of_file db u.linked_lesson_id ≡ some l
    → can_access settings now db user u ≡ true
    → (is_assigned db.assignments user.id l.id ≡ true)
      × (is_lesson_available settings now db user l.id none ≡ true)
unfolding can_access
can_access-teacher settings now db user u l r fair linked allowed =
    let root : is_super_admin user.role ≡ false = rw r refl in
    let admin : is_school_admin user.role ≡ false = rw r refl in
    both-true _ _ (rw (root, fair, linked, admin) at allowed)

module _ (on_disk : UploadedFile → Bool) (settings : Settings) (now : ℕ) (origin : Origin) (db : Db)
    (user : User) (id : ℕ) where
  readable_file-ok :
      (u : UploadedFile)
      → (readable_file on_disk settings now origin db user id).0 ≡ ok u
      → (can_access settings now db user u ≡ true)
        × ((readable_file on_disk settings now origin db user id).1.log
            ≡ db.log
              ++ access_line db.next_id now origin user SecurityEvent.lesson_file_served
                  SecurityStatus.ok
                ∷ [])
  unfolding readable_file record_access record_event
  readable_file-ok u h = elim (Option-cases (find (λ f. f.id == id) db.files)) [
    | inl missing ↦ absurd (ground arith)
    | inr (f, e) ↦ elim (Bool-cases (has_path f)) [
      | inr bare ↦ absurd (ground arith)
      | inl stored ↦ elim (Bool-cases (can_access settings now db user f)) [
        | inr barred ↦ absurd (ground arith)
        | inl allowed ↦ elim (Bool-cases (on_disk f)) [
          | inr lost ↦ absurd (ground arith)
          | inl there ↦
              let same : f ≡ u = ground arith in
              (rw (← same) allowed, rw (e, stored, allowed, there, readable_file) refl)
        ]
      ]
    ]
  ]

  -- A teacher is served a PDF of a lesson, which backs no project of the fair, only if she is
  -- assigned the lesson and it is available to one of her classes, and the log then ends with a line
  -- of the account, the moment, the address and the device.
  pub readable_file-assigned :
      (u : UploadedFile) (l : Lesson)
      → (readable_file on_disk settings now origin db user id).0 ≡ ok u
      → user.role ≡ Role.teacher
      → is_fair_backed db u.id ≡ false
      → lesson_of_file db u.linked_lesson_id ≡ some l
      → (is_assigned db.assignments user.id l.id ≡ true)
        × (is_lesson_available settings now db user l.id none ≡ true)
        × ((readable_file on_disk settings now origin db user id).1.log
            ≡ db.log
              ++ access_line db.next_id now origin user SecurityEvent.lesson_file_served
                  SecurityStatus.ok
                ∷ [])
  readable_file-assigned u l h r fair linked =
      let (allowed, logged) = readable_file-ok u h in
      let both = can_access-teacher settings now db user u l r fair linked allowed in
      (both.0, both.1, logged)
