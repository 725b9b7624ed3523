-- ===== src/Gateway/RouterState/Binding.antt =====
-- To which route a key is bound.
use synth_agent_runtime.Prelude.{
  Bool-cases, Option, String, if_elim, if◌then◌else◌, inl, inr, list_eq, lookup, lookup-insert,
  nat_eq, none, option_eq, pair_eq, refl, some, string_eq, ℕ, ◌==◌, ◌≡◌,
}
use synth_agent_runtime.Gateway.RouterState.{
  Affinity, RouterStateStore, get_affinity, get_found, has_expired, put_affinity,
}

get_found_lem :
    (s : RouterStateStore) (key : String) (now : ℕ) (o : Option Affinity)
    → (get_found s key now o).0 ≡ elim o [
      | none ↦ none
      | some a ↦ if has_expired a.expires_at now then none else some a.route_id
    ]
unfolding get_found
get_found_lem s key now none = refl
get_found_lem s key now (some a) =
    if_elim
      (λ (r : Option String × RouterStateStore).
        r.0 ≡ (if has_expired a.expires_at now then none else some a.route_id))
      (has_expired a.expires_at now) _ _ (λ t. rw t refl) (λ f. rw f refl)

-- A key that was bound to a route is given that route until it expires, and none from then on; every
-- other key is given what it was given before.
pub get_affinity-put_affinity :
    (s : RouterStateStore) (key other route_id : String) (expires_at : Option ℕ) (now : ℕ)
    → (get_affinity (put_affinity s key route_id expires_at) other now).0 ≡ (
        if key == other
        then (if has_expired expires_at now then none else some route_id)
        else (get_affinity s other now).0)
unfolding get_affinity put_affinity
get_affinity-put_affinity s key other route_id expires_at now =
    let new : Affinity = record { route_id = route_id; expires_at = expires_at } in
    let s' = put_affinity s key route_id expires_at in
    rw
      (
        get_found_lem s' other now (lookup other s'.affinity),
        get_found_lem s other now (lookup other s.affinity),
        lookup-insert key other new s.affinity,
      )
      (elim (Bool-cases (key == other)) [ inl t ↦ rw t refl | inr f ↦ rw f refl ])
