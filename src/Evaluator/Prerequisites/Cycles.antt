-- ===== src/Evaluator/Prerequisites/Cycles.antt =====
-- Prerequisites that are missing, and cycles of them.
use mathlib.Core.Option.{some-injective}
use checkgate.Common.{ℕ, suc, ◌≡◌, sym, ◌∙◌, ◌⊎◌, inl, inr, false, none, some, List, In, Bool-cases}
use checkgate.External.{External}
use checkgate.Types.{Prerequisite, Flag, UserContext}
use checkgate.Store.{FlagStore, get_flag}
use checkgate.Evaluator.Evaluate.{evaluate}
use checkgate.Evaluator.Prerequisites.{Granted, AllGranted, leaf, node, done, more, evaluate_iff}

module _ (ext : External) (ctx : UserContext) (store : FlagStore ext) where
  -- A flag that is required is in the store, and granted.
  required :
      {n : ℕ} {ps : List (Prerequisite ext.Value)} (p : Prerequisite ext.Value)
      → AllGranted ext ctx store n ps
      → In p ps
      → (g : Flag ext.Value) × (get_flag ext store p.flag_key ≡ some g) × Granted ext ctx store n g
  required p done h = absurd h
  required p (more g found granted met rest) (inl e) = (g, rw (← e) found, granted)
  required p (more g found granted met rest) (inr h) = required p rest h

  -- The flag requires one that is not in the store, or one of `P`.
  abbrev pub Leads : (Flag ext.Value → Type 0) → Flag ext.Value → Type 0
  Leads P f =
      (p : Prerequisite ext.Value) × In p f.prerequisites
      × ((get_flag ext store p.flag_key ≡ none)
          ⊎ ((g : Flag ext.Value) × (get_flag ext store p.flag_key ≡ some g) × P g))

  module _ (P : Flag ext.Value → Type 0) (stuck : (f : Flag ext.Value) → P f → Leads P f) where
    lead_not-Granted :
        (n : ℕ) (f : Flag ext.Value)
        → Leads P f
        → AllGranted ext ctx store n f.prerequisites
        → (g : Flag ext.Value) × P g × Granted ext ctx store n g
    lead_not-Granted n f (p, listed, inl missing) met =
        let (g, found, granted) = required p met listed in cc (missing, found)
    lead_not-Granted n f (p, listed, inr (h, at, holds)) met =
        let (g, found, granted) = required p met listed in
        (h, holds, rw (some-injective h g (sym at ∙ found)) granted)

    not-Granted : (n : ℕ) (f : Flag ext.Value) → P f → ¬ Granted ext ctx store n f
    not-Granted n f holds (leaf on empty serves) =
        let (p, listed, next) = stuck f holds in rw empty at listed
    not-Granted (suc n) f holds (node on met serves) =
        let (g, next, granted) = lead_not-Granted n f (stuck f holds) met in
        not-Granted n g next granted

    -- Prerequisites fail closed: if each flag of a set requires a flag that is not in the store, or
    -- a flag of the set, as in a cycle of any length, no flag of the set is enabled for any user.
    pub evaluate-stuck : (f : Flag ext.Value) → P f → evaluate ext f ctx store ≡ false
    evaluate-stuck f holds = elim (Bool-cases (evaluate ext f ctx store)) [
      | inl on ↦ absurd (not-Granted 10 f holds ((evaluate_iff ext ctx store f).0 on))
      | inr off ↦ off
    ]
