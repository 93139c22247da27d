-- ===== src/Dict/Laws.antt =====
-- Laws of the dictionary: reads after writes, and its size.
use hermes_agent_a2a.Prelude.{
  ◌+◌, String, ◌≡◌, refl, none, some, [], ◌∷◌, arith, eq_iff, ◌==◌, if◌then◌else◌, length,
}
use hermes_agent_a2a.Dict.{Dict, get, put, remove, IsDistinct}

module _ {ℓ} {V : Type ℓ} where
  pub get-put :
      (k j : String) (v : V) (d : Dict V) → get j (put k v d) ≡ (if k == j then some v else get j d)
  unfolding get put
  get-put k j v [] = refl
  get-put k j v ((i, w) ∷ d) = ground (arith, eq_iff k j, eq_iff i k, eq_iff i j, get-put k j v d)

  pub get-remove :
      (k j : String) (d : Dict V) → get j (remove k d) ≡ (if k == j then none else get j d)
  unfolding get remove
  get-remove k j [] = ground arith
  get-remove k j ((i, w) ∷ d) = ground (arith, eq_iff k j, eq_iff i k, eq_iff i j, get-remove k j d)

  pub remove_absent : (k : String) (d : Dict V) → get k d ≡ none → remove k d ≡ d
  unfolding get remove
  remove_absent k [] h = refl
  remove_absent k ((i, w) ∷ d) h = ground (arith, remove_absent k d)

  pub length-remove :
      (k : String) (d : Dict V) (v : V)
      → IsDistinct d
      → get k d ≡ some v
      → length (remove k d) + 1 ≡ length d
  unfolding get remove IsDistinct
  length-remove k [] v u h = ground arith
  length-remove k ((i, w) ∷ d) v u h =
      ground (arith, length-remove k d v u.1, remove_absent k d, eq_iff i k)

  pub put_absent :
      (k : String) (v : V) (d : Dict V) → get k d ≡ none → length (put k v d) ≡ length d + 1
  unfolding get put
  put_absent k v [] h = omega arith
  put_absent k v ((i, w) ∷ d) h = ground (arith, put_absent k v d)

  pub put_present :
      (k : String) (v w : V) (d : Dict V) → get k d ≡ some w → length (put k v d) ≡ length d
  unfolding get put
  put_present k v w [] h = ground arith
  put_present k v w ((i, x) ∷ d) h = ground (arith, put_present k v w d)

  pub put-IsDistinct : (k : String) (v : V) (d : Dict V) → IsDistinct d → IsDistinct (put k v d)
  unfolding put IsDistinct get
  put-IsDistinct k v [] u = ground arith
  put-IsDistinct k v ((i, x) ∷ d) u =
      ground (arith, put-IsDistinct k v d u.1, get-put k i v d, eq_iff i k, eq_iff k i)

  pub remove-IsDistinct : (k : String) (d : Dict V) → IsDistinct d → IsDistinct (remove k d)
  unfolding remove IsDistinct
  remove-IsDistinct k [] u = u
  remove-IsDistinct k ((i, x) ∷ d) u = ground (arith, remove-IsDistinct k d u.1, get-remove k i d)
