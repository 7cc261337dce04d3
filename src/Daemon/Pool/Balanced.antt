-- ===== src/Daemon/Pool/Balanced.antt =====
-- The permits of a provider that are held, those that are free, and its limit.
use auto_ai.Common.{
  none, some, suc, suc, [], ◌∷◌, none, some, ◌+◌, string_eq, if◌then◌else◌, Option, List, String,
  ◌==◌, ◌≡◌, ℕ, ◌<◌, false, arith, eq_of_beq, beq-true_self, ◌∙◌, ap, sym, Bool-cases, inl, subst,
  inr,
}
use auto_ai.Common.HashMap
use auto_ai.Common.HashMap.{get-insert}
use auto_ai.Daemon.Pool.{Semaphore, ConcurrencyManager, acquire, limit, drop_permit}

-- How many guards of the provider are held.
abbrev pub held_by : String → List String → ℕ
held_by provider [] = 0
held_by provider (p ∷ held) =
    if p == provider then suc (held_by provider held) else held_by provider held

-- A guard is dropped once.
abbrev pub without : String → List String → List String
without provider [] = []
without provider (p ∷ held) = if p == provider then held else p ∷ without provider held

module _ (tokio : Semaphore) where
  -- The manager and the guards that are held.
  abbrev pub State : Type 0
  State = ConcurrencyManager tokio × List String

  -- A guard is taken from a pool with a free permit, or one that is held is dropped.
  pub data Step : State → State → Type 0 where
    acquired :
        {m m' : ConcurrencyManager tokio} {held : List String} (provider : String)
        → acquire tokio provider m ≡ some m'
        → Step (m, held) (m', provider ∷ held)
    released :
        {m : ConcurrencyManager tokio} {held : List String} (provider : String)
        → 0 < held_by provider held
        → Step (m, held) (drop_permit tokio provider m, without provider held)

  pub data Steps : State → State → Type 0 where
    done : {s : State} → Steps s s
    then : {s t u : State} → Step s t → Steps t u → Steps s u

  abbrev pub free : Option tokio.Sem → ℕ
  free none = 0
  free (some sem) = tokio.available_permits sem

  -- Permits held and free make up the limit, and a provider without a pool has none.
  abbrev pub BalancedAt : String → State → Type 0
  BalancedAt provider (m, held) =
      (held_by provider held + free (HashMap.get provider m.pools) ≡ limit tokio provider m)
      × (HashMap.get provider m.pools ≡ none → limit tokio provider m ≡ 0)

  abbrev pub Balanced : State → Type 0
  Balanced s = (provider : String) → BalancedAt provider s

  abbrev put : String → tokio.Sem → ConcurrencyManager tokio → ConcurrencyManager tokio
  put provider sem m = record m { pools = HashMap.insert provider sem m.pools }

  get-put :
      (p q : String) (sem : tokio.Sem) (m : ConcurrencyManager tokio)
      → HashMap.get q (put p sem m).pools ≡ (if p == q then some sem else HashMap.get q m.pools)
  get-put p q sem m = get-insert p q sem m.pools

  -- A pool changes with the guards of its provider.
  pub Balanced-put :
      (p : String) (sem new_sem : tokio.Sem) (m : ConcurrencyManager tokio)
      (held new_held : List String)
      → HashMap.get p m.pools ≡ some sem
      → held_by p new_held + tokio.available_permits new_sem
        ≡ held_by p held + tokio.available_permits sem
      → ((q : String) → (p == q) ≡ false → held_by q new_held ≡ held_by q held)
      → Balanced (m, held)
      → Balanced (put p new_sem m, new_held)
  unfolding limit
  Balanced-put p sem new_sem m held new_held at_p moved others h q = elim (Bool-cases (p == q)) [
    | inl same ↦ subst (λ q. BalancedAt q (put p new_sem m, new_held)) (eq_of_beq p q same) (own)
    | inr differs ↦ rw (get-put p q new_sem m, differs, others q differs) (h q)
  ]
    where
      own : BalancedAt p (put p new_sem m, new_held)
      own =
          rw (get-put p p new_sem m, beq-true_self p)
            (moved ∙ ap (λ o. held_by p held + free o) (sym at_p) ∙ (h p).0, λ e. cc)

  pub held_by-without :
      (p q : String) (held : List String)
      → 0 < held_by p held
      → held_by q held
        ≡ (if p == q then suc (held_by q (without p held)) else held_by q (without p held))
  held_by-without p q [] h = absurd (omega arith)
  held_by-without p q (x ∷ held) h = ground (
    arith,
    eq_of_beq x p,
    eq_of_beq x q,
    eq_of_beq p q,
    beq-true_self p,
    beq-true_self q,
    held_by-without p q held,
  )
