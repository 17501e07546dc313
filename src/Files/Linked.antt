-- ===== src/Files/Linked.antt =====
-- How many rows of lessons a list of their identifiers stands for.
use edtech_back.Base.{
  ℕ, ◌≡◌, ◌+◌, refl, sym, ◌∙◌, Bool, true, false, not, ◌&&◌, ◌||◌, none, some, List, [], ◌∷◌, ◌==◌,
  select, any, all, all-select_kept, count_where, length, contains, distinct, contains-distinct,
  if◌then◌else◌, arith, Bool-cases, Option-cases, inl, inr,
}
use edtech_back.Model.{Lesson, UploadedFile, Db}
use edtech_back.Files.{linked_ids, lessons_of}

-- no two lessons have one identifier: it is the primary key
abbrev pub have_keys : List Lesson → Bool
have_keys [] = true
have_keys (l ∷ ls) = not (any (λ m. m.id == l.id) ls) && have_keys ls

-- the lesson that a file is linked to is there: the column is a foreign key
abbrev pub is_linked_to : List Lesson → UploadedFile → Bool
is_linked_to ls f = elim f.linked_lesson_id [ none ↦ true | some id ↦ any (λ l. l.id == id) ls ]

count-select_other :
    (m x : ℕ) (ys : List ℕ)
    → count_where (λ y. m == y) (select (λ y. not (y == x)) ys)
      ≡ (if m == x then 0 else count_where (λ y. m == y) ys)
unfolding count_where select
count-select_other m x [] = ground arith
count-select_other m x (y ∷ ys) = ground (arith, count-select_other m x ys)

count-distinct :
    (m : ℕ) (xs : List ℕ)
    → count_where (λ y. m == y) (distinct xs) ≡ (if contains m xs then 1 else 0)
unfolding count_where distinct contains
count-distinct m [] = refl
count-distinct m (x ∷ xs) =
    ground (arith, count-select_other m x (distinct xs), count-distinct m xs)

count-or :
    (m : ℕ) (ms : List Lesson) (ids : List ℕ)
    → any (λ l. l.id == m) ms ≡ false
    → count_where (λ id. m == id || any (λ l. l.id == id) ms) ids
      ≡ count_where (λ id. m == id) ids + count_where (λ id. any (λ l. l.id == id) ms) ids
unfolding count_where
count-or m ms [] h = refl
count-or m ms (id ∷ ids) h = elim (Bool-cases (m == id)) [
  | inl same ↦
      let e : m ≡ id = ground arith in
      let out : any (λ l. l.id == id) ms ≡ false = rw (← e) h in ground (arith, count-or m ms ids h)
  | inr other ↦ ground (arith, count-or m ms ids h)
]

count-none : (ids : List ℕ) → 0 ≡ count_where (λ id. any {A = Lesson} (λ l. l.id == id) []) ids
unfolding count_where any
count-none [] = refl
count-none (id ∷ ids) = ground (arith, count-none ids)

module _ (xs : List ℕ) where
  count-lessons :
      (ls : List Lesson)
      → have_keys ls ≡ true
      → count_where (λ l. contains l.id (distinct xs)) ls
        ≡ count_where (λ id. any (λ l. l.id == id) ls) (distinct xs)
  unfolding count_where any
  count-lessons [] h = count-none (distinct xs)
  count-lessons (m ∷ ms) h =
      let rest = count-lessons ms (ground arith) in
      let split = count-or m.id ms (distinct xs) (ground arith) in
      let one : count_where (λ y. m.id == y) (distinct xs)
          ≡ (if contains m.id (distinct xs) then 1 else 0) =
        rw (contains-distinct m.id xs) (count-distinct m.id xs) in
      rw (rest, ← one) (sym split)

count-every : (p : ℕ → Bool) (ids : List ℕ) → all p ids ≡ true → count_where p ids ≡ length ids
unfolding count_where all
count-every p [] h = refl
count-every p (id ∷ ids) h = ground (arith, count-every p ids)

all-distinct : (p : ℕ → Bool) (xs : List ℕ) → all p xs ≡ true → all p (distinct xs) ≡ true
unfolding all distinct
all-distinct p [] h = refl
all-distinct p (x ∷ xs) h =
    ground (arith, all-select_kept p (λ y. not (y == x)) (distinct xs), all-distinct p xs)

all-linked_ids :
    (ls : List Lesson) (fs : List UploadedFile)
    → all (is_linked_to ls) fs ≡ true
    → all (λ id. any (λ l. l.id == id) ls) (linked_ids fs) ≡ true
unfolding all linked_ids
all-linked_ids ls [] h = refl
all-linked_ids ls (f ∷ fs) h = elim (Option-cases f.linked_lesson_id) [
  | inl e ↦ ground (arith, all-linked_ids ls fs)
  | inr (id, e) ↦ ground (arith, all-linked_ids ls fs)
]

module _ (db : Db) (ids : List ℕ) where
  -- Where the lessons have their own identifiers and the links lead to lessons, the lessons that a
  -- selection touches are as many rows.
  pub lessons_of-count :
      have_keys db.lessons ≡ true
      → all (is_linked_to db.lessons) db.files ≡ true
      → count_where (λ l. contains l.id (lessons_of db ids)) db.lessons ≡ length (lessons_of db ids)
  unfolding lessons_of
  lessons_of-count keys links =
      let touched = linked_ids (select (λ f. contains f.id ids) db.files) in
      let there =
        all-linked_ids db.lessons (select (λ f. contains f.id ids) db.files)
          (all-select_kept (is_linked_to db.lessons) (λ f. contains f.id ids) db.files links) in
      count-lessons touched db.lessons keys
      ∙ count-every (λ id. any (λ l. l.id == id) db.lessons) (distinct touched)
          (all-distinct (λ id. any (λ l. l.id == id) db.lessons) touched there)
