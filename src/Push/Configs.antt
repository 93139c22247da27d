-- ===== src/Push/Configs.antt =====
-- hermes_agent_a2a/push_delivery.py: the life of a push configuration in the store.
use hermes_agent_a2a.Prelude.{
  String, ◌≡◌, ◌≢◌, ap, ◌∙◌, false, Option, none, some, arith, eq_iff, eq_refl, ◌==◌,
}
use hermes_agent_a2a.Dict.{get, put, remove}
use hermes_agent_a2a.Dict.Laws.{get-put, get-remove}
use hermes_agent_a2a.Json.{Fields}
use hermes_agent_a2a.Push.{
  AuthenticationInfo, TaskPushNotificationConfig, ConfigStore, create_push_config, get_push_config,
  delete_push_config,
}

lookup_absent :
    (task c : String) (s : ConfigStore) → get c s ≡ none → get_push_config task c s ≡ none
unfolding get_push_config
lookup_absent task c s h = ground (arith, h)

lookup_same :
    (task c : String) (s s' : ConfigStore)
    → get c s' ≡ get c s
    → get_push_config task c s' ≡ get_push_config task c s
unfolding get_push_config
lookup_same task c s s' h = ground (arith, h)

module _ (c task url : String) (auth : Option AuthenticationInfo) (meta : Option Fields)
    (s : ConfigStore) where
  pub own_config :
      let (s', cfg) = create_push_config c task url auth meta s in
      (get_push_config task c s' ≡ some cfg)
      × (delete_push_config task c s' ≡ (remove c s', some c))
      × (get_push_config task c (remove c s') ≡ none)
  unfolding create_push_config get_push_config delete_push_config
  own_config =
      let cfg : TaskPushNotificationConfig = (create_push_config c task url auth meta s).1 in
      let found : get c (put c cfg s) ≡ some cfg = ground (arith, get-put c c cfg s, eq_refl c) in
      let gone : get c (remove c (put c cfg s)) ≡ none =
        ground (arith, get-remove c c (put c cfg s), eq_refl c) in
      let same = eq_refl task in
      (
        ground (arith, found, same),
        ground (arith, found, same),
        lookup_absent task c (remove c (put c cfg s)) gone,
      )

  -- A configuration created under an id is found with its task, and with no other task; it is deleted
  -- with its task, and with no other, and is then gone. What the task finds under other ids does not
  -- change.
  pub config_lifecycle :
      (other j : String)
      → other ≢ task
      → j ≢ c
      → let (s', cfg) = create_push_config c task url auth meta s in
        let (s'', deleted) = delete_push_config task c s' in
        (get_push_config task c s' ≡ some cfg)
        × (get_push_config other c s' ≡ none)
        × (delete_push_config other c s' ≡ (s', none))
        × (deleted ≡ some c)
        × (get_push_config task c s'' ≡ none)
        × (get_push_config task j s' ≡ get_push_config task j s)
        × (get_push_config task j s'' ≡ get_push_config task j s)
  unfolding create_push_config get_push_config delete_push_config
  config_lifecycle other j strange differs =
      let cfg : TaskPushNotificationConfig = (create_push_config c task url auth meta s).1 in
      let found : get c (put c cfg s) ≡ some cfg = ground (arith, get-put c c cfg s, eq_refl c) in
      let same = eq_refl task in
      let not_other : task == other ≡ false = ground (arith, eq_iff task other, strange) in
      let kept : get j (put c cfg s) ≡ get j s =
        ground (arith, get-put c j cfg s, eq_iff c j, differs) in
      let gone : get c (remove c (put c cfg s)) ≡ none =
        ground (arith, get-remove c c (put c cfg s), eq_refl c) in
      let kept' : get j (remove c (put c cfg s)) ≡ get j s =
        ground (arith, kept, get-remove c j (put c cfg s), eq_iff c j, differs) in
      let removed : delete_push_config task c (put c cfg s) ≡ (remove c (put c cfg s), some c) =
        ground (arith, found, same) in
      let left : (delete_push_config task c (put c cfg s)).0 ≡ remove c (put c cfg s) =
        ap (λ (x : ConfigStore × Option String). x.0) removed in
      (
        ground (arith, found, same),
        ground (arith, found, not_other),
        ground (arith, found, not_other),
        ground (arith, found, same),
        ap (get_push_config task c) left ∙ lookup_absent task c (remove c (put c cfg s)) gone,
        lookup_same task j s (put c cfg s) kept,
        ap (get_push_config task j) left ∙ lookup_same task j s (remove c (put c cfg s)) kept',
      )
