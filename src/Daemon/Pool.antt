-- ===== src/Daemon/Pool.antt =====
-- pool.rs: the permits of every provider. tokio's semaphore is the parameter `tokio`: its operations
-- and what its documentation says of them. A semaphore behind an `Arc` is the state kept in the map.
mod Examples
pub mod Balanced
pub mod Limits
use auto_ai.Common.{
  suc, [], ◌∷◌, none, some, ◌+◌, ◌-◌, ◌≡◌, String, List, Option, ℕ, string_eq, unwrap_or, ◌>>=◌,
}
use auto_ai.Common.HashMap
use auto_ai.Common.HashMap.{HashMap}
use auto_ai.Config.Provider.{ProviderConfig, DaemonConfig}

-- `try_acquire` is what `acquire_owned` does once it does not wait: `none` while no permit is free.
pub record Semaphore : Type 1 where
  pub Sem : Type 0
  pub new : ℕ → Sem
  pub available_permits : Sem → ℕ
  pub try_acquire : Sem → Option Sem
  pub release : Sem → Sem
  pub available-new : (n : ℕ) → available_permits (new n) ≡ n
  pub available-try_acquire :
      (s s' : Sem) → try_acquire s ≡ some s' → suc (available_permits s') ≡ available_permits s
  pub try_acquire-none : (s : Sem) → try_acquire s ≡ none → available_permits s ≡ 0
  pub available-release : (s : Sem) → available_permits (release s) ≡ suc (available_permits s)

module _ (tokio : Semaphore) where
  pub record ConcurrencyManager : Type 0 where
    pub pools : HashMap String tokio.Sem
    pub limits : HashMap String ℕ

  abbrev pub add_provider : String → ProviderConfig → ConcurrencyManager → ConcurrencyManager
  add_provider name provider m =
      let cap = unwrap_or provider.max_concurrency 4 in
      record {
        pools = HashMap.insert name (tokio.new cap) m.pools;
        limits = HashMap.insert name cap m.limits;
      }

  unfoldable pub add_providers :
      HashMap String ProviderConfig → ConcurrencyManager → ConcurrencyManager
  add_providers [] m = m
  add_providers ((name, provider) ∷ providers) m =
      add_providers providers (add_provider name provider m)

  unfoldable pub from_config : DaemonConfig → ConcurrencyManager
  unfolding add_providers
  from_config config = add_providers config.providers (record { pools = []; limits = [] })

  abbrev pub take_permit :
      String → Option tokio.Sem → ConcurrencyManager → Option ConcurrencyManager
  take_permit provider none m = none
  take_permit provider (some sem) m =
      some (record m { pools = HashMap.insert provider sem m.pools })

  -- `acquire` and `acquire_with_timeout`, from the state in which they no longer wait: the manager after a
  -- permit is taken, or `none` where there is no pool or the wait ran out with no permit free.
  unfoldable pub acquire : String → ConcurrencyManager → Option ConcurrencyManager
  acquire provider m = do
    sem ← HashMap.get provider m.pools
    take_permit provider (tokio.try_acquire sem) m

  abbrev pub give_permit : String → Option tokio.Sem → ConcurrencyManager → ConcurrencyManager
  give_permit provider none m = m
  give_permit provider (some sem) m = record m {
    pools = HashMap.insert provider (tokio.release sem) m.pools;
  }

  -- Dropping a guard.
  unfoldable pub drop_permit : String → ConcurrencyManager → ConcurrencyManager
  drop_permit provider m = give_permit provider (HashMap.get provider m.pools) m

  unfoldable pub limit : String → ConcurrencyManager → ℕ
  limit provider m = HashMap.get_or provider 0 m.limits

  unfoldable pub in_use : String → ConcurrencyManager → Option ℕ
  unfolding limit
  in_use provider m = do
    sem ← HashMap.get provider m.pools
    some (limit provider m - tokio.available_permits sem)

  abbrev status_of : ConcurrencyManager → HashMap String tokio.Sem → List (String × (ℕ × ℕ))
  status_of m [] = []
  status_of m ((name, sem) ∷ pools) =
      (name, (tokio.available_permits sem, HashMap.get_or name 0 m.limits)) ∷ status_of m pools

  unfoldable pub status : ConcurrencyManager → List (String × (ℕ × ℕ))
  status m = status_of m m.pools
