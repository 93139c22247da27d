-- ===== src/Dict/Sweep.antt =====
-- The loop that collects the keys of some entries and then deletes each, as several stores do.
use hermes_agent_a2a.Prelude.{
  String, ◌≡◌, refl, sym, ap, ◌∙◌, Bool, false, none, some, List, [], ◌∷◌, arith, eq_iff, ◌==◌,
  if◌then◌else◌, contains, Bool-cases, Option-cases, inl, inr,
}
use hermes_agent_a2a.Dict.{Dict, get, remove, IsDistinct}
use hermes_agent_a2a.Dict.Laws.{get-remove, remove-IsDistinct}

module _ {ℓ} {V : Type ℓ} where
  -- `[k for k, v in d.items() if p(v)]`
  unfoldable pub keys_where : (V → Bool) → Dict V → List String
  keys_where p [] = []
  keys_where p ((k, v) ∷ d) = let rest = keys_where p d in if p v then k ∷ rest else rest

  -- `for k in ks: del d[k]`, or `d.pop(k, None)`
  unfoldable pub remove_all : List String → Dict V → Dict V
  remove_all [] d = d
  remove_all (k ∷ ks) d = remove_all ks (remove k d)

  pub get-remove_all :
      (j : String) (ks : List String) (d : Dict V)
      → get j (remove_all ks d) ≡ (if contains j ks then none else get j d)
  unfolding remove_all
  get-remove_all j [] d = refl
  get-remove_all j (k ∷ ks) d = ground (arith, get-remove_all j ks (remove k d), get-remove k j d)

  pub remove_all-IsDistinct :
      (ks : List String) (d : Dict V) → IsDistinct d → IsDistinct (remove_all ks d)
  unfolding remove_all
  remove_all-IsDistinct [] d u = u
  remove_all-IsDistinct (k ∷ ks) d u =
      remove_all-IsDistinct ks (remove k d) (remove-IsDistinct k d u)

  some-inj : {v w : V} → some v ≡ some w → v ≡ w
  some-inj h = cc

  pub keys_where_absent :
      (p : V → Bool) (j : String) (d : Dict V)
      → get j d ≡ none
      → contains j (keys_where p d) ≡ false
  unfolding keys_where get
  keys_where_absent p j [] h = refl
  keys_where_absent p j ((k, v) ∷ d) h = elim (Bool-cases (p v)) [
    | inl e ↦ ground (arith, keys_where_absent p j d, h, e)
    | inr e ↦ ground (arith, keys_where_absent p j d, h, e)
  ]

  pub keys_where_present :
      (p : V → Bool) (j : String) (v : V) (d : Dict V)
      → IsDistinct d
      → get j d ≡ some v
      → contains j (keys_where p d) ≡ p v
  unfolding keys_where get IsDistinct
  keys_where_present p j v [] u h = ground arith
  keys_where_present p j v ((k, w) ∷ d) u h = elim (Bool-cases (k == j)) [
    | inl same ↦
        let absent : get j d ≡ none =
          ap (λ (x : String). get x d) (sym ((eq_iff k j).0 same)) ∙ u.0 in
        let one : w ≡ v = some-inj (ground (arith, same, h)) in
        let rest = keys_where_absent p j d absent in
        rw (sym one) (elim (Bool-cases (p w)) [
          | inl e ↦ ground (arith, e, same)
          | inr e ↦ ground (arith, rest, e, same)
        ])
    | inr other ↦ elim (Bool-cases (p w)) [
      | inl e ↦ ground (arith, keys_where_present p j v d u.1, other, h, e)
      | inr e ↦ ground (arith, keys_where_present p j v d u.1, other, h, e)
    ]
  ]

  -- Sweeping leaves exactly the entries that do not satisfy the test.
  pub get-sweep :
      (p : V → Bool) (j : String) (d : Dict V)
      → IsDistinct d
      → get j (remove_all (keys_where p d) d)
        ≡ elim (get j d) [ none ↦ none | some v ↦ if p v then none else some v ]
  get-sweep p j d u = elim (Option-cases (get j d)) [
    | inl e ↦ ground (arith, get-remove_all j (keys_where p d) d, keys_where_absent p j d e, e)
    | inr (v, e) ↦
        ground (arith, get-remove_all j (keys_where p d) d, keys_where_present p j v d u e, e)
  ]
