-- ===== src/Daemon/Pool/Limits.antt =====
-- Histories of a configured manager, and a provider's limit.
use mathlib.Core.Option.{some-injective}
use auto_ai.Common.{
  suc, [], ◌∷◌, none, some, inl, inr, refl, sym, ap, ◌∙◌, subst, ◌+◌, ◌-◌, string_eq, ◌≤◌, arith,
  List, String, ◌≡◌, ◌<◌, Option-cases, Option, ◌>>=◌, beq-true_self, ℕ, unwrap_or, Bool-cases,
  ◌==◌,
}
use auto_ai.Common.HashMap
use auto_ai.Common.HashMap.{get-insert, HashMap}
use auto_ai.Config.Provider.{DaemonConfig, ProviderConfig}
use auto_ai.Daemon.Pool.{
  Semaphore, ConcurrencyManager, acquire, drop_permit, from_config, add_providers, in_use,
  take_permit, give_permit, limit, add_provider,
}
use auto_ai.Daemon.Pool.Balanced.{
  State, Step, Steps, Balanced, held_by, without, held_by-without, Balanced-put, free,
}

none-some : {A : Type 0} {a : A} → none ≡ some a → ⊥
none-some h = cc

module _ (tokio : Semaphore) where
  Balanced-acquired :
      (m new : ConcurrencyManager tokio) (held : List String) (p : String)
      → acquire tokio p m ≡ some new
      → Balanced tokio (m, held)
      → Balanced tokio (new, p ∷ held)
  unfolding acquire
  Balanced-acquired m new held p h balanced = elim (Option-cases (HashMap.get p m.pools)) [
    | inl e ↦ absurd (no_pool e)
    | inr (sem, e) ↦ elim (Option-cases (tokio.try_acquire sem)) [
      | inl full ↦ absurd (no_permit sem e full)
      | inr (taken, got) ↦
          subst (λ m. Balanced tokio (m, p ∷ held)) (same sem taken e got)
            (Balanced-put tokio p sem taken m held (p ∷ held) e
              (rw (beq-true_self p) (omega (arith, tokio.available-try_acquire sem taken got)))
              (λ q differs. rw differs refl) balanced)
    ]
  ]
    where
      from_pool :
          (o : Option tokio.Sem)
          → HashMap.get p m.pools ≡ o
          → (o >>= (λ sem. take_permit tokio p (tokio.try_acquire sem) m)) ≡ some new
      from_pool o e =
          subst (λ o. (o >>= (λ sem. take_permit tokio p (tokio.try_acquire sem) m)) ≡ some new) e h

      no_pool : HashMap.get p m.pools ≡ none → ⊥
      no_pool e = none-some (from_pool none e)

      taken_from :
          (sem : tokio.Sem) (o : Option tokio.Sem)
          → HashMap.get p m.pools ≡ some sem
          → tokio.try_acquire sem ≡ o
          → take_permit tokio p o m ≡ some new
      taken_from sem o e got =
          subst (λ o. take_permit tokio p o m ≡ some new) got (from_pool (some sem) e)

      no_permit :
          (sem : tokio.Sem) → HashMap.get p m.pools ≡ some sem → tokio.try_acquire sem ≡ none → ⊥
      no_permit sem e full = none-some (taken_from sem none e full)

      same :
          (sem taken : tokio.Sem)
          → HashMap.get p m.pools ≡ some sem
          → tokio.try_acquire sem ≡ some taken
          → record m { pools = HashMap.insert p taken m.pools } ≡ new
      same sem taken e got = some-injective _ _ (taken_from sem (some taken) e got)

  Balanced-released :
      (m : ConcurrencyManager tokio) (held : List String) (p : String)
      → 0 < held_by p held
      → Balanced tokio (m, held)
      → Balanced tokio (drop_permit tokio p m, without p held)
  unfolding drop_permit
  Balanced-released m held p h balanced = elim (Option-cases (HashMap.get p m.pools)) [
    | inl e ↦ absurd (omega (arith, (balanced p).0, (balanced p).1 e, h))
    | inr (sem, e) ↦
        subst (λ o. Balanced tokio (give_permit tokio p o m, without p held)) (sym e)
          (Balanced-put tokio p sem (tokio.release sem) m held (without p held) e
            (omega (arith, tokio.available-release sem, one_less))
            (λ q differs. sym (held_by-without tokio p q held h ∙ rw differs refl)) balanced)
  ]
    where
      one_less : held_by p held ≡ suc (held_by p (without p held))
      one_less = held_by-without tokio p p held h ∙ rw (beq-true_self p) refl

  pub Balanced-Steps : {s t : State tokio} → Steps tokio s t → Balanced tokio s → Balanced tokio t
  Balanced-Steps Steps.done h = h
  Balanced-Steps (Steps.then (Step.acquired {m} {m'} {held} p q) rest) h =
      Balanced-Steps rest (Balanced-acquired m m' held p q h)
  Balanced-Steps (Steps.then (Step.released {m} {held} p q) rest) h =
      Balanced-Steps rest (Balanced-released m held p q h)

  Balanced-add_providers :
      (providers : HashMap String ProviderConfig) (m : ConcurrencyManager tokio)
      → Balanced tokio (m, [])
      → Balanced tokio (add_providers tokio providers m, [])
  unfolding add_providers limit
  Balanced-add_providers [] m h = h
  Balanced-add_providers ((name, pc) ∷ providers) m h =
      Balanced-add_providers providers (add_provider tokio name pc m) added
    where
      cap : ℕ
      cap = unwrap_or pc.max_concurrency 4

      added : Balanced tokio (add_provider tokio name pc m, [])
      added q = elim (Bool-cases (name == q)) [
        | inl same ↦
            rw (get-insert name q (tokio.new cap) m.pools, get-insert name q cap m.limits, same)
              (omega (arith, tokio.available-new cap), λ e. cc)
        | inr differs ↦
            rw (get-insert name q (tokio.new cap) m.pools, get-insert name q cap m.limits, differs)
              (h q)
      ]

  -- A request waits only where every permit is held.
  acquire-full :
      (m : ConcurrencyManager tokio) (held : List String) (provider : String)
      → Balanced tokio (m, held)
      → acquire tokio provider m ≡ none
      → held_by provider held ≡ limit tokio provider m
  unfolding acquire
  acquire-full m held provider balanced h = elim (Option-cases (HashMap.get provider m.pools)) [
    | inl e ↦ omega (arith, no_permit_at none e, (balanced provider).0)
    | inr (sem, e) ↦ elim (Option-cases (tokio.try_acquire sem)) [
      | inl full ↦
          omega (
            arith,
            no_permit_at (some sem) e,
            tokio.try_acquire-none sem full,
            (balanced provider).0,
          )
      | inr (taken, got) ↦ absurd (none-some (sym (refused sem taken e got)))
    ]
  ]
    where
      no_permit_at :
          (o : Option tokio.Sem)
          → HashMap.get provider m.pools ≡ o
          → free tokio (HashMap.get provider m.pools) ≡ free tokio o
      no_permit_at o e = ap (free tokio) e

      refused :
          (sem taken : tokio.Sem)
          → HashMap.get provider m.pools ≡ some sem
          → tokio.try_acquire sem ≡ some taken
          → some (record m { pools = HashMap.insert provider taken m.pools }) ≡ none
      refused sem taken e got =
          subst (λ o. take_permit tokio provider o m ≡ none) got
            (subst
              (λ o. (o >>= (λ sem. take_permit tokio provider (tokio.try_acquire sem) m)) ≡ none) e
              h)

  -- From a configured manager, by any sequence of acquired and dropped guards: the guards held for a
  -- provider and its free permits make up its limit, so in_use is the number of guards held, and never
  -- more than the limit are held; and a request waits only where all of them are held.
  pub Steps-limit :
      (config : DaemonConfig) (m : ConcurrencyManager tokio) (held : List String)
      (provider : String)
      → Steps tokio (from_config tokio config, []) (m, held)
      → (held_by provider held ≤ limit tokio provider m)
        × ((n : ℕ) → in_use tokio provider m ≡ some n → n ≡ held_by provider held)
        × (acquire tokio provider m ≡ none → held_by provider held ≡ limit tokio provider m)
  unfolding from_config in_use limit HashMap.get
  Steps-limit config m held provider steps =
      let balanced : Balanced tokio (m, held) =
        Balanced-Steps steps
          (Balanced-add_providers config.providers (record { pools = []; limits = [] }) empty) in
      let (sum, _) = balanced provider in
      (
        omega (arith, sum),
        λ n h. elim (Option-cases (HashMap.get provider m.pools)) [
          | inl e ↦ absurd (none-some (of_pool none e n h))
          | inr (sem, e) ↦
              omega (arith, balance sem e sum, some-injective _ _ (of_pool (some sem) e n h))
        ],
        acquire-full m held provider balanced,
      )
    where
      empty : Balanced tokio (record { pools = []; limits = [] }, [])
      empty q = (refl, λ e. refl)

      balance :
          (sem : tokio.Sem)
          → HashMap.get provider m.pools ≡ some sem
          → held_by provider held + free tokio (HashMap.get provider m.pools)
            ≡ limit tokio provider m
          → held_by provider held + tokio.available_permits sem ≡ limit tokio provider m
      balance sem e sum = ap (λ o. held_by provider held + free tokio o) (sym e) ∙ sum

      of_pool :
          (o : Option tokio.Sem)
          → HashMap.get provider m.pools ≡ o
          → (n : ℕ) → in_use tokio provider m ≡ some n
          → (o >>= (λ sem. some (limit tokio provider m - tokio.available_permits sem))) ≡ some n
      of_pool o e n h =
          subst
            (λ o.
              (o >>= (λ sem. some (limit tokio provider m - tokio.available_permits sem))) ≡ some n)
            e h
