-- ===== src/Http/Tasks/Pages/Arrivals.antt =====
-- hermes_agent_a2a/server.py: a client that follows the continuation tokens of ListTasks while tasks arrive.
use mathlib.Core.List.{Memᴰ}
use mathlib.Core.Path.{subst}
use hermes_agent_a2a.Prelude.{
  ℕ, zero, suc, ◌+◌, ◌≤◌, ◌<◌, String, ◌≡◌, refl, ap, sym, ◌⊎◌, Option, none, some, List, [], ◌∷◌,
  ◌++◌, inl, inr, map, length, take, drop, arith, ltb, Bool-cases,
}
use hermes_agent_a2a.Json.{Json}
use hermes_agent_a2a.Queue.State.{Ref, TaskQueue}
use hermes_agent_a2a.Queue.Reads.{snapshot}
use hermes_agent_a2a.Protocol.{Draws}
use hermes_agent_a2a.Http.{Env}
use hermes_agent_a2a.Http.Tasks.{Entry, sort_entries, offset_of, item_of, task_page}
use hermes_agent_a2a.Http.Tasks.Pages.{IsOffsetCode, offset_of-encode, walk, drop-add}

module _ {ℓ} {A : Type ℓ} where
  Mem-left : {x : A} (xs ys : List A) → Memᴰ x xs → Memᴰ x (xs ++ ys)
  Mem-left [] ys m = elim m [ ]
  Mem-left (y ∷ xs) ys (Memᴰ.head e) = Memᴰ.head e
  Mem-left (y ∷ xs) ys (Memᴰ.tail m) = Memᴰ.tail (Mem-left xs ys m)

  Mem-right : {x : A} (xs ys : List A) → Memᴰ x ys → Memᴰ x (xs ++ ys)
  Mem-right [] ys m = m
  Mem-right (y ∷ xs) ys m = Memᴰ.tail (Mem-right xs ys m)

  Mem-drop_less : {x : A} (k : ℕ) (xs : List A) → Memᴰ x (drop (suc k) xs) → Memᴰ x (drop k xs)
  Mem-drop_less zero [] m = elim m [ ]
  Mem-drop_less (suc k) [] m = elim m [ ]
  Mem-drop_less zero (y ∷ xs) m = Memᴰ.tail m
  Mem-drop_less (suc k) (y ∷ xs) m = Mem-drop_less k xs m

  -- What lies beyond an offset still lies beyond it once entries are put in front.
  Mem-drop_front :
      {x : A} (k : ℕ) (news xs : List A) → Memᴰ x (drop k xs) → Memᴰ x (drop k (news ++ xs))
  Mem-drop_front k [] xs m = m
  Mem-drop_front zero (y ∷ news) xs m = Memᴰ.tail (Mem-drop_front zero news xs m)
  Mem-drop_front (suc k) (y ∷ news) xs m = Mem-drop_front k news xs (Mem-drop_less k xs m)

  Mem-split :
      {x : A} (n : ℕ) (xs : List A) → Memᴰ x xs → (Memᴰ x (take n xs)) ⊎ (Memᴰ x (drop n xs))
  Mem-split zero xs m = inr m
  Mem-split (suc n) [] m = elim m [ ]
  Mem-split (suc n) (y ∷ xs) (Memᴰ.head e) = inl (Memᴰ.head e)
  Mem-split (suc n) (y ∷ xs) (Memᴰ.tail m) = elim (Mem-split n xs m) [
    | inl early ↦ inl (Memᴰ.tail early)
    | inr late ↦ inr late
  ]

  Mem-drop_bound : {x : A} (k : ℕ) (xs : List A) → Memᴰ x (drop k xs) → k < length xs
  Mem-drop_bound zero [] m = elim m [ ]
  Mem-drop_bound (suc k) [] m = elim m [ ]
  Mem-drop_bound zero (y ∷ xs) m = omega arith
  Mem-drop_bound (suc k) (y ∷ xs) m = omega (arith, Mem-drop_bound k xs m)

  module _ {κ} {B : Type κ} (f : A → B) where
    map-drop : (n : ℕ) (xs : List A) → map f (drop n xs) ≡ drop n (map f xs)
    map-drop zero xs = refl
    map-drop (suc n) [] = refl
    map-drop (suc n) (x ∷ xs) = map-drop n xs

    length-map : (xs : List A) → length (map f xs) ≡ length xs
    length-map [] = refl
    length-map (x ∷ xs) = ap suc (length-map xs)

    Mem-map : {x : A} (xs : List A) → Memᴰ x xs → Memᴰ (f x) (map f xs)
    Mem-map [] m = elim m [ ]
    Mem-map (y ∷ xs) (Memᴰ.head e) = Memᴰ.head (ap f e)
    Mem-map (y ∷ xs) (Memᴰ.tail m) = Memᴰ.tail (Mem-map xs m)

    Mem-unmap : {b : B} (xs : List A) → Memᴰ b (map f xs) → (a : A) × (f a ≡ b) × Memᴰ a xs
    Mem-unmap [] m = elim m [ ]
    Mem-unmap (y ∷ xs) (Memᴰ.head e) = (y, sym e, Memᴰ.head refl)
    Mem-unmap (y ∷ xs) (Memᴰ.tail m) = let t = Mem-unmap xs m in (t.0, t.1, Memᴰ.tail t.2)

abbrev pub entries : TaskQueue → List Entry
entries q = sort_entries (snapshot q)

abbrev pub ref_of : Entry → Ref
ref_of (created_at, r, state) = r

-- The tasks that the list holds, the newest first.
abbrev pub refs : TaskQueue → List Ref
refs q = map ref_of (entries q)

module _ (e : Env) (draws : Ref → Draws) (page_size : ℕ) (queues : ℕ → TaskQueue) where
  -- One of the items is the task's, as it was at one of the requests.
  abbrev pub Shows : List Json → Ref → Type 0
  Shows items r = (n : ℕ) × (x : Entry) × (ref_of x ≡ r) × Memᴰ (item_of e draws (queues n) x) items

  Shows-right : {r : Ref} (xs ys : List Json) → Shows ys r → Shows (xs ++ ys) r
  Shows-right xs ys (n, x, named, m) = (n, x, named, Mem-right xs ys m)

  -- A task beyond the offset of a token is on this page or beyond the next offset.
  on_page :
      (n k : ℕ) (r : Ref) (rest : List Json)
      → Memᴰ r (drop k (refs (queues n)))
      → (Shows
          (map (item_of e draws (queues n)) (take page_size (drop k (entries (queues n)))) ++ rest)
          r)
        ⊎ Memᴰ r (drop (k + page_size) (refs (queues n)))
  on_page n k r rest m =
      let xs : List Entry = entries (queues n) in
      let found = Mem-unmap ref_of (drop k xs) (subst (Memᴰ r) (sym (map-drop ref_of k xs)) m) in
      elim (Mem-split page_size (drop k xs) found.2) [
        | inl here ↦ inl (
          n,
          found.0,
          found.1,
          Mem-left (map (item_of e draws (queues n)) (take page_size (drop k xs))) rest
              (Mem-map (item_of e draws (queues n)) (take page_size (drop k xs)) here),
        )
        | inr later ↦ inr (
            subst (λ y. Memᴰ y (drop (k + page_size) (refs (queues n)))) found.1
              (subst (Memᴰ (ref_of found.0)) (map-drop ref_of (k + page_size) xs) (
                Mem-map ref_of (drop (k + page_size) xs)
                  (subst (Memᴰ found.0) (drop-add k page_size xs) later))))
      ]

  module _ (bound : ℕ) (code : IsOffsetCode e) (some_page : 1 ≤ page_size)
      (bounded : (n : ℕ) → length (entries (queues n)) ≤ bound)
      (arrivals : (n : ℕ)
        → (news : List Ref) × (refs (queues (suc n)) ≡ news ++ refs (queues n))) where
    later_queue :
        (n k : ℕ) (r : Ref)
        → Memᴰ r (drop k (refs (queues n)))
        → Memᴰ r (drop k (refs (queues (suc n))))
    later_queue n k r m =
        let (news, grown) = arrivals n in
        subst (λ l. Memᴰ r (drop k l)) (sym grown) (Mem-drop_front k news (refs (queues n)) m)

    walk-Shows :
        (fuel n : ℕ) (token : Option String) (r : Ref)
        → bound ≤ offset_of e token + fuel
        → Memᴰ r (drop (offset_of e token) (refs (queues n)))
        → Shows (walk e draws page_size queues fuel n token) r
    unfolding walk task_page
    walk-Shows zero n token r enough m = absurd (
        omega (
          arith,
          enough,
          bounded n,
          length-map ref_of (entries (queues n)),
          Mem-drop_bound (offset_of e token) (refs (queues n)) m,
        ))
    walk-Shows (suc fuel) n token r enough m =
        let k = offset_of e token in
        let page : List Json =
          map (item_of e draws (queues n)) (take page_size (drop k (entries (queues n)))) in
        let rest : List Json =
          walk e draws page_size queues fuel (suc n) (some (e.encode_offset (k + page_size))) in
        let on_or_after : Shows (page ++ rest) r = elim (on_page n k r rest m) [
          | inl here ↦ here
          | inr later ↦ Shows-right page rest (
              walk-Shows fuel (suc n) (some (e.encode_offset (k + page_size))) r
                (omega (arith, enough, some_page, offset_of-encode e code (k + page_size)))
                (subst (λ o. Memᴰ r (drop o (refs (queues (suc n)))))
                  (sym (offset_of-encode e code (k + page_size)))
                  (later_queue n (k + page_size) r later)))
        ] in
        elim (Bool-cases (ltb (k + page_size) (length (entries (queues n))))) [
          | inl more ↦ rw (more, code.not_empty (k + page_size)) on_or_after
          | inr last ↦ rw last (elim (on_page n k r [] m) [
            | inl here ↦ here
            | inr later ↦ absurd (
                ground (
                  arith,
                  last,
                  Mem-drop_bound (k + page_size) (refs (queues n)) later,
                  length-map ref_of (entries (queues n)),
                ))
          ])
        ]

-- If offsets survive their encoding, a client that asks for pages of at least one task and follows the
-- tokens misses no task that was there at its first request, even if the queue changes before every
-- request, as long as no task leaves it, those that arrive sort before the others, which keep their
-- order, and the queue never holds more than `bound` entries: within one page more than that, an item of
-- each task is shown. An arrival can make a task show twice.
pub walk_complete :
    (e : Env) (draws : Ref → Draws) (page_size : ℕ) (queues : ℕ → TaskQueue) (bound : ℕ) (r : Ref)
    → IsOffsetCode e
    → 1 ≤ page_size
    → ((n : ℕ) → length (entries (queues n)) ≤ bound)
    → ((n : ℕ) → (news : List Ref) × (refs (queues (suc n)) ≡ news ++ refs (queues n)))
    → Memᴰ r (refs (queues 0))
    → Shows e draws page_size queues (walk e draws page_size queues (bound + 1) 0 none) r
walk_complete e draws page_size queues bound r code some_page bounded arrivals m =
    walk-Shows e draws page_size queues bound code some_page bounded arrivals (bound + 1) 0 none r
      (omega arith) m
