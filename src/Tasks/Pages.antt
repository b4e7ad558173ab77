-- ===== src/Tasks/Pages.antt =====
-- Listing the tasks of a session by pages (`list_tasks` of task_store/in_memory_task_store.rs).
use rust_mcp_sdk.Prelude.{
  ℕ, zero, suc, ◌+◌, ◌≤◌, ◌<◌, min, ◌≡◌, refl, sym, ap, ◌∙◌, Bool, true, false, Option, none, some,
  List, [], ◌∷◌, ◌++◌, append_assoc, append-nil, any, position, length, length-append, get_elem?,
  take, drop, ltb, arith, if◌then◌else◌, Option-cases, Bool-cases, inl, inr,
}
use rust_mcp_sdk.Prelude.Table.{lookup, beq_refl}
use rust_mcp_sdk.Prelude.Text.{Text, text_eq, text_beq, option_text_eq}
use rust_mcp_sdk.Tasks.{Task, TaskStore, get_task, tasks_of, start_index, list_page, list_tasks}

-- No id occurs twice.
abbrev pub IsUnique : List Text → Type 0
IsUnique [] = Unit
IsUnique (id ∷ l) = (any (text_beq id) l ≡ false) × IsUnique l

module _ {A : Type 0} where
  drop-length : (xs ys : List A) → drop (length xs) (xs ++ ys) ≡ ys
  drop-length [] ys = refl
  drop-length (x ∷ xs) ys = drop-length xs ys

  get_elem?-append :
      (xs ys : List A) (n i : ℕ) → i ≡ length xs + n → get_elem? (xs ++ ys) i ≡ get_elem? ys n
  get_elem?-append [] ys n i h = ap (get_elem? ys) (omega (arith, h))
  get_elem?-append (x ∷ xs) ys n zero h = absurd (omega (arith, h))
  get_elem?-append (x ∷ xs) ys n (suc i) h = get_elem?-append xs ys n i (omega (arith, h))

  get_elem?-lt : (xs : List A) (n : ℕ) (x : A) → get_elem? xs n ≡ some x → n < length xs
  get_elem?-lt [] n x h = cc
  get_elem?-lt (y ∷ xs) zero x h = omega arith
  get_elem?-lt (y ∷ xs) (suc n) x h = omega (arith, get_elem?-lt xs n x h)

  get_elem?-none : (xs : List A) (n : ℕ) → get_elem? xs n ≡ none → length xs ≤ n
  get_elem?-none [] n h = omega arith
  get_elem?-none (y ∷ xs) zero h = cc
  get_elem?-none (y ∷ xs) (suc n) h = omega (arith, get_elem?-none xs n h)

  get_elem?-none-of : (xs : List A) (n : ℕ) → length xs ≤ n → get_elem? xs n ≡ none
  get_elem?-none-of [] n h = refl
  get_elem?-none-of (y ∷ xs) zero h = absurd (omega (arith, h))
  get_elem?-none-of (y ∷ xs) (suc n) h = get_elem?-none-of xs n (omega (arith, h))

  -- A list, cut at an element that it has.
  take-append-drop :
      (xs : List A) (n : ℕ) (x : A)
      → get_elem? xs n ≡ some x
      → (xs ≡ take n xs ++ x ∷ drop (suc n) xs) × (length (drop (suc n) xs) + suc n ≡ length xs)
  take-append-drop [] n x h = cc
  take-append-drop (y ∷ xs) zero x h = (cc, omega arith)
  take-append-drop (y ∷ xs) (suc n) x h =
      (ap (λ l. y ∷ l) (take-append-drop xs n x h).0, omega (arith, (take-append-drop xs n x h).1))

  take_all : (xs : List A) (n : ℕ) → length xs ≤ n → take n xs ≡ xs
  take_all [] zero h = refl
  take_all [] (suc n) h = refl
  take_all (x ∷ xs) zero h = absurd (omega (arith, h))
  take_all (x ∷ xs) (suc n) h = ap (λ l. x ∷ l) (take_all xs n (omega (arith, h)))

-- The next cursor is the id behind the page.
next_cursor-page :
    (l r : List Text) (n : ℕ)
    → (if ltb (min (length l + n) (length (l ++ r))) (length (l ++ r))
        then get_elem? (l ++ r) (min (length l + n) (length (l ++ r)))
        else none)
      ≡ get_elem? r n
next_cursor-page l r n = elim (Bool-cases (ltb n (length r))) [
  | inl b ↦ rw (below b).0 (rw (below b).1 (get_elem?-append l r n (length l + n) refl))
  | inr b ↦ rw (above b).0 (rw (above b).1 refl)
]
  where
    below :
        ltb n (length r) ≡ true
        → (ltb (min (length l + n) (length (l ++ r))) (length (l ++ r)) ≡ true)
          × (min (length l + n) (length (l ++ r)) ≡ length l + n)
    below b = ground (arith, length-append l r)

    above :
        ltb n (length r) ≡ false
        → (ltb (min (length l + n) (length (l ++ r))) (length (l ++ r)) ≡ false)
          × (get_elem? r n ≡ none)
    above b = (ground (arith, length-append l r), get_elem?-none-of r n (ground arith))

any-append :
    (p : Text → Bool) (l : List Text) (d : Text) (r : List Text)
    → any p (l ++ d ∷ r) ≡ false
    → p d ≡ false
any-append p [] d r h = ground arith
any-append p (x ∷ l) d r h = ground (arith, any-append p l d r)

-- An id is found where it stands.
position-IsUnique :
    (l : List Text) (d : Text) (r : List Text)
    → IsUnique (l ++ d ∷ r)
    → position (λ id. text_beq id d) (l ++ d ∷ r) ≡ some (length l)
position-IsUnique [] d r h = rw (beq_refl d) refl
position-IsUnique (x ∷ l) d r (h, u) =
    rw (any-append (text_beq x) l d r h) (rw (position-IsUnique l d r u) refl)

module _ {S Q R M : Type 0} (s : TaskStore S Q R M) (k : Option Text) where
  tasks_of-append : (l r : List Text) → tasks_of s k (l ++ r) ≡ tasks_of s k l ++ tasks_of s k r
  unfolding tasks_of
  tasks_of-append [] r = refl
  tasks_of-append (id ∷ l) r = elim (Option-cases (get_task s id k)) [
    | inl h ↦ rw (h, tasks_of) (tasks_of-append l r)
    | inr (task, h) ↦ rw (h, tasks_of) (ap (λ t. task ∷ t) (tasks_of-append l r))
  ]

  -- The page from an index, and the id behind it.
  list_page-from :
      (cursor : Option Text) (l r : List Text)
      → start_index cursor (l ++ r) ≡ length l
      → ((list_page s cursor k (l ++ r)).tasks ≡ tasks_of s k (take s.page_size r))
        × ((list_page s cursor k (l ++ r)).next_cursor ≡ get_elem? r s.page_size)
  unfolding list_page
  list_page-from cursor l r h =
      (rw h (rw (drop-length l r) refl), rw h (next_cursor-page l r s.page_size))

  list_tasks-from :
      (cursor : Option Text) (l r : List Text)
      → lookup k s.ordered_task_ids ≡ some (l ++ r)
      → start_index cursor (l ++ r) ≡ length l
      → ((list_tasks s cursor k).tasks ≡ tasks_of s k (take s.page_size r))
        × ((list_tasks s cursor k).next_cursor ≡ get_elem? r s.page_size)
  unfolding list_tasks
  list_tasks-from cursor l r found h = rw (found, list_tasks) (list_page-from cursor l r h)

  -- The tasks that a client collects which follows the cursors, for as many pages as it has fuel.
  unfoldable pub all_pages : ℕ → Option Text → List (Task S)
  all_pages zero cursor = []
  all_pages (suc fuel) cursor =
      let page = list_tasks s cursor k in
      page.tasks ++ (elim page.next_cursor [ none ↦ [] | some c ↦ all_pages fuel (some c) ])

  module _ (has_room : 0 < s.page_size) where
    -- The ids, cut where the next page begins.
    ids_cut :
        (l r : List Text) (d : Text)
        → get_elem? r s.page_size ≡ some d
        → l ++ r ≡ (l ++ take s.page_size r) ++ d ∷ drop (suc s.page_size) r
    ids_cut l r d e =
        ap (λ t. l ++ t) (take-append-drop r s.page_size d e).0
        ∙ sym (append_assoc l (take s.page_size r) (d ∷ drop (suc s.page_size) r))

    all_pages-from :
        (fuel : ℕ) (cursor : Option Text) (l r : List Text)
        → lookup k s.ordered_task_ids ≡ some (l ++ r)
        → IsUnique (l ++ r)
        → start_index cursor (l ++ r) ≡ length l
        → length r ≤ fuel
        → all_pages fuel cursor ≡ tasks_of s k r
    unfolding all_pages tasks_of
    all_pages-from zero cursor l [] found u h enough = refl
    all_pages-from zero cursor l (id ∷ r) found u h enough = absurd (omega (arith, enough))
    all_pages-from (suc fuel) cursor l r found u h enough =
        rw ((list_tasks-from cursor l r found h).0) (
          rw ((list_tasks-from cursor l r found h).1)
            (elim (Option-cases (get_elem? r s.page_size)) [
              | inl e ↦ rw e (
                  append-nil _
                  ∙ ap (tasks_of s k) (take_all r s.page_size (get_elem?-none r s.page_size e)))
              | inr (d, e) ↦ rw e (
                  ap (λ t. tasks_of s k (take s.page_size r) ++ t)
                    (all_pages-from fuel (some d) (l ++ take s.page_size r)
                      (d ∷ drop (suc s.page_size) r) (found ∙ ap some (ids_cut l r d e))
                      (rw (sym (ids_cut l r d e)) u)
                      (rw
                        (position-IsUnique (l ++ take s.page_size r) d (drop (suc s.page_size) r)
                          (rw (sym (ids_cut l r d e)) u))
                        refl)
                      (omega (arith, enough, has_room, (take-append-drop r s.page_size d e).1)))
                  ∙ (sym (tasks_of-append (take s.page_size r) (d ∷ drop (suc s.page_size) r))
                      ∙ ap (tasks_of s k) (sym (take-append-drop r s.page_size d e).0)))
            ]))

    -- A client that starts without a cursor and follows the cursors it is given, with fuel for at
    -- least as many pages as there are ids, collects the tasks of all the ids of the session, in
    -- order and each once. The page size is not 0, and no id of the session occurs twice.
    pub all_pages-tasks_of :
        (fuel : ℕ) (ids : List Text)
        → lookup k s.ordered_task_ids ≡ some ids
        → IsUnique ids
        → length ids ≤ fuel
        → all_pages fuel none ≡ tasks_of s k ids
    all_pages-tasks_of fuel ids found u enough = all_pages-from fuel none [] ids found u refl enough
