-- ===== src/Agent/Run/Book.antt =====
-- The book that the cycle guard keeps: counts per key, the corrections given, and the calls that ran.
use auto_ai.Common.{
  suc, true, false, refl, string_eq, arith, Bool, ◌≡◌, String, ℕ, ◌&&◌, if◌then◌else◌, leb, ◌≤◌,
  List, ◌∷◌, ◌+◌, ◌==◌, not, Bool-cases, ◌++◌, inl, eq_of_beq, [], inr, beq-true_self,
}
use auto_ai.Common.HashMap
use auto_ai.Common.HashMap.{HashMap}
use auto_ai.Agent.Run.{Setup, State}
use auto_ai.Agent.Repair.{loop_detect_threshold, loop_terminate_threshold}
use auto_ai.Agent.Run.Batch.{key_of}
use auto_ai.Common.BTreeSet.{mem}
use auto_ai.Orchestration.Driver.{ToolCallRecord}

and_false : (b : Bool) {c : Bool} → c ≡ false → (b && c) ≡ false
and_false true h = h
and_false false h = refl

module _ (u : Setup) where
  -- How many of the recorded calls are of this tool, with this key.
  abbrev pub runs : String → String → List (ToolCallRecord u.json.Value) → ℕ
  runs tool key [] = 0
  runs tool key (r ∷ rs) =
      (if r.tool == tool && key_of u r.tool r.args == key then 1 else 0) + runs tool key rs

  runs-append :
      (tool key : String) (rs : List (ToolCallRecord u.json.Value))
      (r : ToolCallRecord u.json.Value)
      → (r.tool == tool && key_of u r.tool r.args == key) ≡ true
      → runs tool key (rs ++ r ∷ []) ≡ runs tool key rs + 1
  runs-append tool key [] r h = rw h (omega arith)
  runs-append tool key (r' ∷ rs) r h = omega (arith, runs-append tool key rs r h)

  runs-append_other :
      (tool key : String) (rs : List (ToolCallRecord u.json.Value))
      (r : ToolCallRecord u.json.Value)
      → (r.tool == tool && key_of u r.tool r.args == key) ≡ false
      → runs tool key (rs ++ r ∷ []) ≡ runs tool key rs
  runs-append_other tool key [] r h = rw h (omega arith)
  runs-append_other tool key (r' ∷ rs) r h = omega (arith, runs-append_other tool key rs r h)

  -- The book of the guard: how the counts of a key bound the calls that were run.
  abbrev pub Guarded : ℕ → ℕ → Bool → ℕ → Type 0
  Guarded limit count corrected n =
      (n ≤ count)
      × (n + 2 ≤ limit)
      × (corrected ≡ true → n + 1 ≤ count)
      × (corrected ≡ false → count ≤ 2)

  unfoldable pub IsGuardedBook :
      HashMap String ℕ → List String → List (ToolCallRecord u.json.Value) → Type 0
  IsGuardedBook seen corrected calls =
      (tool key : String)
      → Guarded (loop_terminate_threshold tool) (HashMap.get_or key 0 seen) (mem key corrected)
          (runs tool key calls)

  abbrev pub IsGuarded : State u → Type 0
  IsGuarded s = IsGuardedBook s.seen s.corrected s.result.tool_calls

  threshold-ge : (tool : String) → 4 ≤ loop_terminate_threshold tool
  threshold-ge tool = ground arith

  Guarded-hint :
      (limit count n : ℕ) (corrected : Bool)
      → Guarded limit count corrected n
      → Guarded limit (suc count) true n
  Guarded-hint limit count n corrected g = (omega arith, g.1, λ _. omega arith, λ h. cc)

  Guarded-count :
      (limit count n : ℕ) (corrected : Bool)
      → Guarded limit count corrected n
      → (leb loop_detect_threshold (suc count) && not corrected) ≡ false
      → Guarded limit (suc count) corrected n
  Guarded-count limit count n true g no_hint = (omega arith, g.1, λ h. omega arith, λ h. cc)
  Guarded-count limit count n false g no_hint = (omega arith, g.1, λ h. cc, λ h. ground arith)

  Guarded-run :
      (limit count n : ℕ) (corrected : Bool)
      → 4 ≤ limit
      → Guarded limit count corrected n
      → (leb loop_detect_threshold (suc count) && not corrected) ≡ false
      → leb limit (suc count) ≡ false
      → Guarded limit (suc count) corrected (n + 1)
  Guarded-run limit count n true low g no_hint under =
      (omega arith, ground (arith, g.2 refl), λ h. omega (arith, g.2 refl), λ h. cc)
  Guarded-run limit count n false low g no_hint under =
      (omega arith, ground arith, λ h. cc, λ h. ground arith)

  get_or-insert :
      (k key : String) (n : ℕ) (seen : HashMap String ℕ)
      → HashMap.get_or key 0 (HashMap.insert k n seen)
        ≡ (if k == key then n else HashMap.get_or key 0 seen)
  get_or-insert k key n seen = elim (Bool-cases (k == key)) [
    | inl same ↦ rw (HashMap.get-insert k key n seen) (rw same)
    | inr other ↦ rw (HashMap.get-insert k key n seen) (rw other)
  ]

  -- A correction in place of a call.
  pub IsGuardedBook-correct :
      (k : String) (seen : HashMap String ℕ) (corrected : List String)
      (calls : List (ToolCallRecord u.json.Value))
      → IsGuardedBook seen corrected calls
      → IsGuardedBook (HashMap.insert k (suc (HashMap.get_or k 0 seen)) seen) (k ∷ corrected) calls
  unfolding IsGuardedBook
  IsGuardedBook-correct k seen corrected calls g tool key = elim (Bool-cases (k == key)) [
    | inl same ↦
        rw (get_or-insert k key (suc (HashMap.get_or k 0 seen)) seen, same, eq_of_beq k key same)
          (Guarded-hint (loop_terminate_threshold tool) (HashMap.get_or key 0 seen)
            (runs tool key calls) (mem key corrected) (g tool key))
    | inr other ↦ rw (get_or-insert k key (suc (HashMap.get_or k 0 seen)) seen, other) (g tool key)
  ]

  -- A call that is run below the threshold.
  pub IsGuardedBook-run :
      (r : ToolCallRecord u.json.Value) (seen : HashMap String ℕ) (corrected : List String)
      (calls : List (ToolCallRecord u.json.Value))
      → IsGuardedBook seen corrected calls
      → (leb loop_detect_threshold (suc (HashMap.get_or (key_of u r.tool r.args) 0 seen))
          && not (mem (key_of u r.tool r.args) corrected))
        ≡ false
      → leb (loop_terminate_threshold r.tool) (suc (HashMap.get_or (key_of u r.tool r.args) 0 seen))
        ≡ false
      → IsGuardedBook
          (HashMap.insert
            (key_of u r.tool r.args)
            (suc (HashMap.get_or (key_of u r.tool r.args) 0 seen))
            seen)
          corrected
          (calls ++ r ∷ [])
  unfolding IsGuardedBook
  IsGuardedBook-run r seen corrected calls g no_hint under tool key =
      let k = key_of u r.tool r.args in
      let n = HashMap.get_or k 0 seen in
      rw (get_or-insert k key (suc n) seen) (elim (Bool-cases (k == key)) [
        | inl same ↦ rw same (
            rw (← eq_of_beq k key same) (elim (Bool-cases (r.tool == tool)) [
              | inl mine ↦ rw (← eq_of_beq r.tool tool mine) (
                  rw (runs-append r.tool k calls r (own k)) (
                    Guarded-run (loop_terminate_threshold r.tool) n (runs r.tool k calls)
                      (mem k corrected) (threshold-ge r.tool) (g r.tool k) no_hint under))
              | inr another ↦ rw (runs-append_other tool k calls r (rw another)) (
                  Guarded-count (loop_terminate_threshold tool) n (runs tool k calls)
                    (mem k corrected) (g tool k) no_hint)
            ]))
        | inr other ↦
            rw (other, runs-append_other tool key calls r (and_false (r.tool == tool) other))
              (g tool key)
      ])
    where
      own : (k : String) → (r.tool == r.tool && k == k) ≡ true
      own k = rw (beq-true_self r.tool, beq-true_self k)
