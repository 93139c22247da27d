-- ===== src/Http/Tasks/Pages.antt =====
-- hermes_agent_a2a/server.py: a client that follows the continuation tokens of ListTasks.
pub mod Arrivals
use mathlib.Core.List.{Perm}
use mathlib.Core.List.Perm
use hermes_agent_a2a.Prelude.{
  ℕ, zero, suc, ◌+◌, ◌≤◌, String, ◌≡◌, refl, ap, sym, ◌∙◌, false, Option, none, some, List, [], ◌∷◌,
  ◌++◌, inl, inr, map, length, take, drop, arith, ltb, leb, ◌==◌, if◌then◌else◌, Bool-cases, ◌-◌,
}
use hermes_agent_a2a.Int.{pos}
use hermes_agent_a2a.Json.{Json}
use hermes_agent_a2a.Queue.State.{Ref, TaskQueue}
use hermes_agent_a2a.Queue.Reads.{snapshot}
use hermes_agent_a2a.Protocol.{Draws}
use hermes_agent_a2a.Http.{Env}
use hermes_agent_a2a.Http.Tasks.{Entry, insert_entry, sort_entries, offset_of, item_of, task_page}

-- The newest task first: no entry comes before a newer one.
abbrev pub IsNewestFirst : List Entry → Type 0
IsNewestFirst [] = Unit
IsNewestFirst (x ∷ []) = Unit
IsNewestFirst (x ∷ y ∷ ys) = (y.0 ≤ x.0) × IsNewestFirst (y ∷ ys)

insert_entry-Perm : (x : Entry) (xs : List Entry) → Perm (insert_entry x xs) (x ∷ xs)
unfolding insert_entry
insert_entry-Perm x [] = Perm.refl (x ∷ [])
insert_entry-Perm x (y ∷ ys) = elim (Bool-cases (leb y.0 x.0)) [
  | inl e ↦ rw e (Perm.refl (x ∷ y ∷ ys))
  | inr e ↦ rw e (Perm.trans (Perm.cons y (insert_entry-Perm x ys)) (Perm.swap x y ys))
]

sort_entries-Perm : (xs : List Entry) → Perm (sort_entries xs) xs
unfolding sort_entries
sort_entries-Perm [] = Perm.nil
sort_entries-Perm (x ∷ xs) =
    Perm.trans (insert_entry-Perm x (sort_entries xs)) (Perm.cons x (sort_entries-Perm xs))

length-insert_entry : (x : Entry) (xs : List Entry) → length (insert_entry x xs) ≡ length xs + 1
unfolding insert_entry
length-insert_entry x [] = omega arith
length-insert_entry x (y ∷ ys) = ground (arith, length-insert_entry x ys)

length-sort_entries : (xs : List Entry) → length (sort_entries xs) ≡ length xs
unfolding sort_entries
length-sort_entries [] = refl
length-sort_entries (x ∷ xs) =
    omega (arith, length-insert_entry x (sort_entries xs), length-sort_entries xs)

insert_entry-IsNewestFirst :
    (x : Entry) (xs : List Entry) → IsNewestFirst xs → IsNewestFirst (insert_entry x xs)
unfolding insert_entry
insert_entry-IsNewestFirst x [] h = tt
insert_entry-IsNewestFirst x (y ∷ []) h = ground arith
insert_entry-IsNewestFirst x (y ∷ z ∷ zs) h = ground (arith, insert_entry-IsNewestFirst x (z ∷ zs))

sort_entries-IsNewestFirst : (xs : List Entry) → IsNewestFirst (sort_entries xs)
unfolding sort_entries
sort_entries-IsNewestFirst [] = tt
sort_entries-IsNewestFirst (x ∷ xs) =
    insert_entry-IsNewestFirst x (sort_entries xs) (sort_entries-IsNewestFirst xs)

module _ {ℓ} {A : Type ℓ} where
  drop-add : (k n : ℕ) (xs : List A) → drop n (drop k xs) ≡ drop (k + n) xs
  drop-add zero n xs = ap (λ (m : ℕ). drop m xs) (omega arith)
  drop-add (suc k) zero [] = ap (λ (m : ℕ). drop {A = A} m []) {x = suc k} (omega arith)
  drop-add (suc k) (suc n) [] =
      ap (λ (m : ℕ). drop {A = A} m []) {x = suc (k + suc n)} (omega arith)
  drop-add (suc k) n (x ∷ xs) =
      drop-add k n xs ∙ ap (λ (m : ℕ). drop m (x ∷ xs)) {x = suc (k + n)} (omega arith)

  length-drop : (n : ℕ) (xs : List A) → length (drop n xs) ≡ length xs - n
  length-drop zero xs = omega arith
  length-drop (suc n) [] = omega arith
  length-drop (suc n) (x ∷ xs) = omega (arith, length-drop n xs)

  module _ {κ} {B : Type κ} (f : A → B) where
    map-take-drop : (n : ℕ) (xs : List A) → map f (take n xs) ++ map f (drop n xs) ≡ map f xs
    map-take-drop zero xs = refl
    map-take-drop (suc n) [] = refl
    map-take-drop (suc n) (x ∷ xs) = ap (λ (l : List B). f x ∷ l) (map-take-drop n xs)

    map-drop_whole : (n : ℕ) (xs : List A) → length xs ≤ n → map f (drop n xs) ≡ []
    map-drop_whole zero [] h = refl
    map-drop_whole zero (x ∷ xs) h = absurd (omega (arith, h))
    map-drop_whole (suc n) [] h = refl
    map-drop_whole (suc n) (x ∷ xs) h = map-drop_whole n xs (omega (arith, h))

    map-take_whole : (n : ℕ) (xs : List A) → length xs ≤ n → map f (take n xs) ++ [] ≡ map f xs
    map-take_whole zero [] h = refl
    map-take_whole zero (x ∷ xs) h = absurd (omega (arith, h))
    map-take_whole (suc n) [] h = refl
    map-take_whole (suc n) (x ∷ xs) h =
        ap (λ (l : List B). f x ∷ l) (map-take_whole n xs (omega (arith, h)))

-- base64 of the decimal offset, and back
pub record IsOffsetCode (e : Env) : Type 0 where
  pub decodes : (n : ℕ) → e.decode_offset (e.encode_offset n) ≡ some (pos n)
  pub not_empty : (n : ℕ) → (e.encode_offset n == "") ≡ false

offset_of-encode : (e : Env) → IsOffsetCode e → (n : ℕ) → offset_of e (some (e.encode_offset n)) ≡ n
offset_of-encode e code n = ground (arith, code.not_empty n, code.decodes n)

module _ (e : Env) (draws : Ref → Draws) (page_size : ℕ) (queues : ℕ → TaskQueue) where
  -- The items of the pages that a client gets, in order, asking for at most `fuel` pages from the n-th
  -- request on; `queues n` is the queue that the n-th request reads.
  unfoldable pub walk : ℕ → ℕ → Option String → List Json
  walk zero n token = []
  walk (suc fuel) n token =
      let p = task_page e draws page_size token (queues n) in
      let rest = walk fuel (suc n) (some p.next_page_token) in
      p.task ++ (if p.next_page_token == "" then [] else rest)

module _ (e : Env) (draws : Ref → Draws) (page_size : ℕ) (q : TaskQueue) where
  abbrev same : ℕ → TaskQueue
  same n = q

  abbrev all_tasks : List Entry
  all_tasks = sort_entries (snapshot q)

  walk_from :
      (fuel n : ℕ) (token : Option String)
      → IsOffsetCode e
      → 1 ≤ page_size
      → length all_tasks ≤ offset_of e token + fuel
      → walk e draws page_size same fuel n token
        ≡ map (item_of e draws q) (drop (offset_of e token) all_tasks)
  unfolding walk task_page
  walk_from zero n token code h enough =
      sym (map-drop_whole (item_of e draws q) (offset_of e token) all_tasks (omega (arith, enough)))
  walk_from (suc fuel) n token code h enough =
      let k = offset_of e token in
      elim (Bool-cases (ltb (k + page_size) (length all_tasks))) [
        | inl more ↦
            rw (more, code.not_empty (k + page_size))
              (ap
                  (λ (l : List Json).
                    map (item_of e draws q) (take page_size (drop k all_tasks)) ++ l)
                  (walk_from fuel (suc n) (some (e.encode_offset (k + page_size))) code h
                      (omega (arith, offset_of-encode e code (k + page_size), enough, h))
                    ∙ ap (map (item_of e draws q)) (
                        ap (λ (n : ℕ). drop n all_tasks) (offset_of-encode e code (k + page_size))
                        ∙ sym (drop-add k page_size all_tasks)))
                ∙ map-take-drop (item_of e draws q) page_size (drop k all_tasks))
        | inr last ↦ rw last (
            map-take_whole (item_of e draws q) page_size (drop k all_tasks)
              (ground (arith, length-drop k all_tasks)))
      ]

-- As long as the queue does not change between the requests: if offsets survive their encoding, a client
-- that asks for pages of at least one task and follows the tokens gets, within one page more than there
-- are entries, the items of the entries of the queue's snapshot, the newest first. A task that is both
-- pending and completed has two entries.
pub walk_unchanged :
    (e : Env) (draws : Ref → Draws) (page_size : ℕ) (q : TaskQueue)
    → IsOffsetCode e
    → 1 ≤ page_size
    → (walk e draws page_size (λ n. q) (length (snapshot q) + 1) 0 none
        ≡ map (item_of e draws q) (sort_entries (snapshot q)))
      × Perm (sort_entries (snapshot q)) (snapshot q)
      × IsNewestFirst (sort_entries (snapshot q))
walk_unchanged e draws page_size q code h = (
  walk_from e draws page_size q (length (snapshot q) + 1) 0 none code h
      (omega (arith, length-sort_entries (snapshot q))),
  sort_entries-Perm (snapshot q),
  sort_entries-IsNewestFirst (snapshot q),
)
