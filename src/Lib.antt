-- ===== src/Lib.antt =====
-- A verification library of the back end of the IM-Telligence teacher platform (FastAPI and
-- SQLAlchemy): who may do what, which lesson is open to which class, and what every operation does
-- to the rows it shares with the others.
--
-- The state is one record `Db` (Model/Rows), a list of rows for each table in the order of
-- insertion. A request handler is a function from the database to an `Outcome` (Base/Http: a value,
-- or the status code of an HTTPException) and the database afterwards; a handler that raises before
-- its commit gives back the database it was given, and one that commits before it raises gives back
-- what was committed. Queries and updates are functions on lists (Base/Table): `find` is a query for
-- the first row, `select` a query for all, `update_where` and `delete_where` are the statements of
-- those names, or the assignments to the attributes of the selected rows. Requests run one at a
-- time. Signing in, the rotation of sessions and the limits on the assistant lock the rows that they
-- contend for; the other handlers lock nothing, and what two of them do at the same time is outside
-- the model.
--
-- Moments are numbers of microseconds (`now` is an argument), intervals `minutes`, `hours` and
-- `days` (Model/Config); `x <= now - span` is written `x + span <= now`, so that nothing is cut off
-- at 0. Texts are lists of code points (Base/Texts), with `lower`, `casefold` and `strip` for ASCII.
-- Ids, which the program draws at random, are numbers, and `next_id` stands for the random source.
-- Settings are positive where the program divides by them.
--
-- The parts:
--   Grades           app/services/grades.py: tokens such as "G6" and "KG1", and their numbers.
--   Permissions      app/permissions.py: the capability matrix and the kindergarten rule.
--   Sections         app/services/sections.py: the classes that a teacher takes of a grade.
--                    Normalize is what is stored of typed labels, Ensure the rows of a class,
--                    Rename the renaming of a class in the three tables that are keyed by it; Keys,
--                    Moves and Resolve are proofs.
--   LessonAccess     app/services/lesson_access.py: the pass over one track; Order sorts a track,
--                    Tracks groups lessons into tracks and asks about one lesson. `walk` is the
--                    loop of `compute_access`, with the three variables of the loop as a `Gate`;
--                    Sequence has its description, Current, Override and Grouping are proofs.
--   ProgressRoute    app/routers/progress.py: a teacher's report on a lesson. `percent_of` is the
--                    rounding of a quotient in floating point, an argument.
--   ProgressReset    app/services/progress_reset.py.
--   AccessRequests   app/routers/access_requests.py, app/services/access_requests.py and
--                    `set_lesson_override` of app/routers/lessons.py: asking for a lesson, and
--                    opening it.
--   AutoAssign       app/services/auto_assign.py: the rule that assigns lessons, and its pruning;
--                    Filename is the regular expression of the names of files, read by a function
--                    for each part of it, and Upload what becomes of a file. Upload/Preview and
--                    Filename/Reads are proofs.
--   Assignments      app/routers/lessons.py: assigning lessons by hand; Many is the edit of many
--                    lessons and its preview. Exact, Bulk and Preview are proofs.
--   Lessons          app/routers/lessons.py: listing, creating and deleting lessons, and the route of
--                    the reset. Classes is `my_classes`. Shown is about the lists; Edits has all the
--                    requests of the router that change something as one type, and runs them.
--   Auth             app/routers/auth.py, app/services/sessions.py, app/deps.py: Lockout of an
--                    account, Throttle of a network, Tokens, and Login. Hashing of passwords and of
--                    tokens and JSON web tokens are library code: records of functions that the
--                    definitions take as arguments, of which nothing is assumed. Locking, Banning,
--                    Network, Rotation and Answers are proofs.
--   AiUsage          app/services/ai_usage.py: the limits on the assistant.
--   FairAccess       app/services/fair_access.py: the gates of the ICT Fair.
--   Users            app/routers/users.py: accounts; Edit is `update_user`, which uses Sections for
--                    the classes, AutoAssign for the lessons and Auth for the sessions.
--   Schools          app/routers/schools.py.
--   ChatHistory      app/services/chat_history.py: the threads of a teacher with the assistant.
--   Files            app/routers/files.py: uploading, linking and deleting PDFs, with the impact that a
--                    deletion tells beforehand; Read is who is served one, and what that leaves in
--                    the log. Whether the bytes are on the disk and how many pages they have are
--                    arguments. Capped reads an upload in chunks; Linked, Impact and Read/Logged are
--                    proofs.
--   Fair             app/routers/fair.py: the sections and projects of the ICT Fair. Filed and Listed
--                    are proofs.
--   Backup           app/services/backup.py: the archive of the PDFs, as the entries of its manifest.
--                    Restore is the JSON snapshot, its restore and the wipe, on the tables that the
--                    model has; `json.loads` with the reading of the values is an argument. Values
--                    is how the values of a row are written and read. Safe, Restore/Kept and
--                    Values/Read are proofs.
--   Dashboard        app/routers/dashboard.py: the overview of the super-admin; Agrees is a proof.
--   Chat             app/routers/chat.py: who is shown which conversations; Private and Counts are
--                    proofs.
--   ReportMetrics    app/services/report_metrics.py: the counts of a report. Rounding and the moments
--                    at which the accounts were created are arguments; Anomalies has its own
--                    definitions, Weeks and Quiet are proofs.
--   Kits             app/services/kits.py: the kit of a lesson, and its note in the prompt; and which
--                    lessons app/services/slide_vision.py reads as pictures.
--   SigninWatch      app/services/signin_watch.py and `note_unfamiliar_signin` of app/audit.py: the
--                    rows that `login` takes as an argument, and adds to the log before its own.
--                    Reading an address and a user agent are arguments.
--   SecurityRoutes   app/routers/security.py: the rows of the log that an account is shown. Scoped is
--                    about the list and Detail about what is shown around one row.
--   Llm              app/services/llm.py: Json is what a parsed body is, Stream the streamed and Reply
--                    the whole answers of the three kinds of provider, Chain the chain of providers
--                    and Providers which they are. `json.loads` and what the network gives are
--                    arguments; a generator is the list of its chunks with its end.
--   Workflow         a step relation of reports, resets, requests and their answers, overrides, the
--                    rule and its pruning, edits of lessons and assignments, and renamings of a
--                    class, and what any sequence of these reaches. Uploads, the classes that an
--                    edit of an account moves, deletions of files and accounts, the restore and the
--                    wipe write rows of progress too and are no steps of it.
--   Tests            concrete runs.
--
-- Loops are structural recursion on the list that they go through; the one use of fuel is the
-- printing of a number (Base/Texts), whose fuel is the number itself, which has more than enough
-- digits' worth.
--
-- Left out: the order of listings, e-mail, cookies, the texts of the security log and of errors, the
-- prompts of the assistant, PDF and DOCX, the bytes of files, snapshots of SQLite, the hardware catalogue,
-- migrations; and, of the modelled files, the handlers that only list.
pub mod Base
pub mod Model
pub mod Grades
pub mod Sections
pub mod LessonAccess
pub mod Permissions
pub mod ProgressRoute
pub mod ProgressReset
pub mod AccessRequests
pub mod AutoAssign
pub mod Assignments
pub mod Lessons
pub mod Auth
pub mod AiUsage
pub mod FairAccess
pub mod Users
pub mod Schools
pub mod ChatHistory
pub mod Chat
pub mod Llm
pub mod Files
pub mod Fair
pub mod Backup
pub mod ReportMetrics
pub mod Dashboard
pub mod Kits
pub mod SigninWatch
pub mod SecurityRoutes
pub mod Workflow
mod Tests
