-- ===== src/Daemon/Tracker/Isolated.antt =====
-- The usage of an application, and its own requests.
use auto_ai.Common.{
  [], ◌∷◌, true, false, refl, sym, ap, suc, subst, ◌∙◌, ◌+◌, ◌%◌, string_eq, filter, if◌then◌else◌,
  u64_mod, List, ℕ, String, ◌==◌, ◌≡◌, length, arith, add64, Bool,
}
use auto_ai.Common.HashMap
use auto_ai.Common.HashMap.{get_or-modify, get}
use auto_ai.Daemon.Tracker.{
  UsageTracker, Charge, no_usage, record_full, AppUsage, charge, new_usage, usage_of,
}

abbrev pub record_all : List Charge → UsageTracker → UsageTracker
record_all [] t = t
record_all (c ∷ cs) t = record_all cs (record_full c t)

abbrev charge_all : List Charge → AppUsage → AppUsage
charge_all [] u = u
charge_all (c ∷ cs) u = charge_all cs (charge c u)

abbrev pub own : String → List Charge → List Charge
own app cs = filter (λ c. c.app == app) cs

usage_of-record_full :
    (app : String) (c : Charge) (t : UsageTracker)
    → usage_of app (record_full c t)
      ≡ (if c.app == app then charge c (usage_of app t) else usage_of app t)
unfolding usage_of record_full
usage_of-record_full app c t = get_or-modify c.app app no_usage (charge c) t.apps

usage_of-record_all :
    (app : String) (cs : List Charge) (t : UsageTracker)
    → usage_of app (record_all cs t) ≡ charge_all (own app cs) (usage_of app t)
usage_of-record_all app [] t = refl
usage_of-record_all app (c ∷ cs) t =
    usage_of-record_all app cs (record_full c t)
    ∙ ap (charge_all (own app cs)) (usage_of-record_full app c t)
    ∙ branch (c.app == app)
  where
    branch :
        (mine : Bool)
        → charge_all (own app cs) (if mine then charge c (usage_of app t) else usage_of app t)
          ≡ charge_all (if mine then c ∷ own app cs else own app cs) (usage_of app t)
    branch true = refl
    branch false = refl

abbrev pub sum : (Charge → ℕ) → List Charge → ℕ
sum f [] = 0
sum f (c ∷ cs) = f c + sum f cs

-- The sums that the fields stand for.
abbrev pub Sums : List Charge → AppUsage → AppUsage → Type 0
Sums cs old new =
    (new.total_input_tokens % u64_mod ≡ (old.total_input_tokens + sum (λ c. c.input) cs) % u64_mod)
    × (new.total_output_tokens % u64_mod
        ≡ (old.total_output_tokens + sum (λ c. c.output) cs) % u64_mod)
    × (new.total_cache_read_tokens % u64_mod
        ≡ (old.total_cache_read_tokens + sum (λ c. c.cache_read) cs) % u64_mod)
    × (new.total_cache_write_tokens % u64_mod
        ≡ (old.total_cache_write_tokens + sum (λ c. c.cache_write) cs) % u64_mod)
    × (new.request_count % u64_mod ≡ (old.request_count + length cs) % u64_mod)

add64-sum :
    (new old step rest : ℕ)
    → new % u64_mod ≡ (add64 old step + rest) % u64_mod
    → new % u64_mod ≡ (old + (step + rest)) % u64_mod
add64-sum new old step rest h = omega (arith, h)

Sums-charge_all : (cs : List Charge) (u : AppUsage) → Sums cs u (charge_all cs u)
Sums-charge_all [] u = (omega arith, omega arith, omega arith, omega arith, omega arith)
Sums-charge_all (c ∷ cs) u =
    let new = charge_all cs (charge c u) in
    let (a, b, d, e, n) = Sums-charge_all cs (charge c u) in
    (
      add64-sum new.total_input_tokens u.total_input_tokens c.input (sum (λ c. c.input) cs) a,
      add64-sum new.total_output_tokens u.total_output_tokens c.output (sum (λ c. c.output) cs) b,
      add64-sum new.total_cache_read_tokens u.total_cache_read_tokens c.cache_read
          (sum (λ c. c.cache_read) cs) d,
      add64-sum new.total_cache_write_tokens u.total_cache_write_tokens c.cache_write
          (sum (λ c. c.cache_write) cs) e,
      count_step new.request_count u.request_count (length cs) n,
    )
  where
    count_step :
        (new old n : ℕ)
        → new % u64_mod ≡ (add64 old 1 + n) % u64_mod
        → new % u64_mod ≡ (old + suc n) % u64_mod
    count_step new old n h = omega (arith, h)

-- After any requests, the usage of an application is the sum of what its own requests reported, on
-- 64 bits; those of other applications do not count.
pub usage_of-Sums :
    (app : String) (cs : List Charge)
    → Sums (own app cs) no_usage (usage_of app (record_all cs new_usage))
unfolding usage_of HashMap.get
usage_of-Sums app cs =
    subst (Sums (own app cs) no_usage) (sym (usage_of-record_all app cs new_usage))
      (Sums-charge_all (own app cs) no_usage)
