-- ===== src/Gateway/RouterState.antt =====
-- src/inference/gateway/router-state.ts: `InMemoryRouterStateStore`. The clock is the argument `now`.
pub mod Binding
mod Tests
use synth_agent_runtime.Prelude.{
  Bool, Map, Option, String, erase, false, if◌then◌else◌, insert, leb, list_eq, lookup, nat_eq,
  none, option_eq, pair_eq, some, string_eq, ℕ,
}

pub record SharedRouteHealth : Type 0 where
  pub route_key : String
  pub cooldown_until : Option ℕ
  pub successes : ℕ
  pub failures : ℕ
  pub last_status : Option ℕ
  pub updated_at : ℕ

pub record Affinity : Type 0 where
  pub route_id : String
  pub expires_at : Option ℕ

pub record RouterStateStore : Type 0 where
  pub health : Map String SharedRouteHealth
  pub affinity : Map String Affinity

abbrev pub get_route_health : RouterStateStore → String → Option SharedRouteHealth
get_route_health s route_key = lookup route_key s.health

abbrev pub put_route_health : RouterStateStore → SharedRouteHealth → RouterStateStore
put_route_health s h = record s { health = insert h.route_key h s.health }

-- `value.expiresAt !== undefined && value.expiresAt <= Date.now()`
unfoldable pub has_expired : Option ℕ → ℕ → Bool
has_expired none now = false
has_expired (some at_ms) now = leb at_ms now

unfoldable pub get_found :
    RouterStateStore → String → ℕ → Option Affinity → Option String × RouterStateStore
unfolding has_expired
get_found s key now none = (none, s)
get_found s key now (some a) =
    if has_expired a.expires_at now
    then (none, record s { affinity = erase key s.affinity })
    else (some a.route_id, s)

unfoldable pub get_affinity : RouterStateStore → String → ℕ → Option String × RouterStateStore
unfolding get_found
get_affinity s key now = get_found s key now (lookup key s.affinity)

unfoldable pub put_affinity : RouterStateStore → String → String → Option ℕ → RouterStateStore
put_affinity s key route_id expires_at =
    let a : Affinity = record { route_id = route_id; expires_at = expires_at } in
    record s { affinity = insert key a s.affinity }

unfoldable pub delete_affinity : RouterStateStore → String → RouterStateStore
delete_affinity s key = record s { affinity = erase key s.affinity }
