-- ===== src/Agent/Rule/Loop.antt =====
-- The loop over the rules of a request: how far it gets, and which calls of the driver it makes.
use mathlib.Core.Path.{subst, fun_ext}
use esnet_smartnic_fw.Base.{
  Option, none, some, ◌≡◌, ◌≢◌, refl, sym, ap, ◌∙◌, ◌↔◌, ◌⊎◌, inl, inr, Bool, List, [], ◌∷◌, ◌++◌,
  arith,
}
use esnet_smartnic_fw.Agent.Errors.{ErrorCode}
use esnet_smartnic_fw.Agent.Info.{PipelineInfo}
use esnet_smartnic_fw.Agent.Driver.{Driver}
use esnet_smartnic_fw.Agent.Rule.{TableRule, next_rule, process_rule, process_rules}

next_rule-ok :
    {Hw : Type 0} (r : Option (ErrorCode × Hw)) (rest : Hw → Option (ErrorCode × Hw)) (hw' : Hw)
    → next_rule r rest ≡ some (ErrorCode.ok, hw')
    → (hw : Hw) × (r ≡ some (ErrorCode.ok, hw)) × (rest hw ≡ some (ErrorCode.ok, hw'))
unfolding next_rule
next_rule-ok none rest hw' e = absurd cc
next_rule-ok (some (ErrorCode.ok, hw)) rest hw' e = (hw, refl, e)
next_rule-ok (some (err, hw)) rest hw' e = absurd (ground arith)

next_rule_assoc :
    {Hw : Type 0} (r : Option (ErrorCode × Hw)) (f g : Hw → Option (ErrorCode × Hw))
    → next_rule (next_rule r f) g ≡ next_rule r (λ hw. next_rule (f hw) g)
unfolding next_rule
next_rule_assoc none f g = refl
next_rule_assoc (some (ErrorCode.ok, hw)) f g = refl
next_rule_assoc (some (err, hw)) f g = refl

-- A step that answers an error is where the loop ended, or what came after it.
next_rule-err :
    {Hw : Type 0} (r : Option (ErrorCode × Hw)) (f : Hw → Option (ErrorCode × Hw)) (err : ErrorCode)
    (hw' : Hw)
    → err ≢ ErrorCode.ok
    → next_rule r f ≡ some (err, hw')
    → (r ≡ some (err, hw')) ⊎ ((hw : Hw) × (r ≡ some (ErrorCode.ok, hw)) × (f hw ≡ some (err, hw')))
unfolding next_rule
next_rule-err none f err hw' ne e = absurd cc
next_rule-err (some (ErrorCode.ok, hw)) f err hw' ne e = inr (hw, refl, e)
next_rule-err (some (_, hw)) f err hw' ne e = inl e

module _ {Handle Mpz Hw : Type 0} (drv : Driver Handle Mpz Hw) (do_insert : Bool)
    (pi : PipelineInfo) (handle : Handle) where
  -- The rules were all accepted, one after the other, and led the hardware from one state to
  -- another.
  pub data Accepted : List TableRule → Hw → Hw → Type 0 where
    done : {hw : Hw} → Accepted [] hw hw
    accept :
        {rule : TableRule} {rules : List TableRule} {hw hw' hw'' : Hw}
        → process_rule drv do_insert pi handle rule hw ≡ some (ErrorCode.ok, hw')
        → Accepted rules hw' hw''
        → Accepted (rule ∷ rules) hw hw''

  ok-Accepted :
      (rules : List TableRule) (hw hw' : Hw)
      → process_rules drv do_insert pi handle rules hw ≡ some (ErrorCode.ok, hw')
      → Accepted rules hw hw'
  unfolding process_rules
  ok-Accepted [] hw hw' e = let same : hw ≡ hw' = cc in subst (λ h. Accepted [] hw h) same done
  ok-Accepted (rule ∷ rules) hw hw' e =
      let (hw1, e1, e2) = next_rule-ok (process_rule drv do_insert pi handle rule hw) _ hw' e in
      accept e1 (ok-Accepted rules hw1 hw' e2)

  Accepted-ok :
      (rules : List TableRule) (hw hw' : Hw)
      → Accepted rules hw hw'
      → process_rules drv do_insert pi handle rules hw ≡ some (ErrorCode.ok, hw')
  unfolding process_rules next_rule
  Accepted-ok [] hw hw' done = refl
  Accepted-ok (rule ∷ rules) hw hw'' (accept e steps) =
      ap (λ r. next_rule r (process_rules drv do_insert pi handle rules)) e
      ∙ Accepted-ok rules _ hw'' steps

  -- The loop answers EC_OK, with the hardware in some state, exactly when each rule in turn was
  -- accepted on the way to that state.
  pub process_rules-ok_iff :
      (rules : List TableRule) (hw hw' : Hw)
      → (process_rules drv do_insert pi handle rules hw ≡ some (ErrorCode.ok, hw'))
        ↔ Accepted rules hw hw'
  process_rules-ok_iff rules hw hw' = (ok-Accepted rules hw hw', Accepted-ok rules hw hw')

  -- A loop over one list and then another goes on with the second only if the first was accepted.
  pub process_rules-++ :
      (xs ys : List TableRule) (hw : Hw)
      → process_rules drv do_insert pi handle (xs ++ ys) hw
        ≡ next_rule
            (process_rules drv do_insert pi handle xs hw)
            (process_rules drv do_insert pi handle ys)
  unfolding process_rules next_rule
  process_rules-++ [] ys hw = refl
  process_rules-++ (x ∷ xs) ys hw =
      ap (next_rule (process_rule drv do_insert pi handle x hw))
        (fun_ext λ hw'. process_rules-++ xs ys hw')
      ∙ sym (next_rule_assoc (process_rule drv do_insert pi handle x hw) _ _)

  -- Where a request fails: the rules before were accepted and stay in effect, one rule answered the
  -- error, and no rule after it was looked at.
  abbrev pub FailsAt : List TableRule → Hw → ErrorCode → Hw → Type 0
  FailsAt rules hw err hw' =
      (before : List TableRule) × (rule : TableRule) × (after : List TableRule) × (hw1 : Hw)
      × (rules ≡ before ++ rule ∷ after)
      × Accepted before hw hw1
      × (process_rule drv do_insert pi handle rule hw1 ≡ some (err, hw'))

  -- If the loop answers an error, then there is a rule before which all were accepted, which
  -- answered this error, and after which the hardware is as the request leaves it.
  pub process_rules-FailsAt :
      (rules : List TableRule) (hw : Hw) (err : ErrorCode) (hw' : Hw)
      → err ≢ ErrorCode.ok
      → process_rules drv do_insert pi handle rules hw ≡ some (err, hw')
      → FailsAt rules hw err hw'
  unfolding process_rules
  process_rules-FailsAt [] hw err hw' ne e = let same : err ≡ ErrorCode.ok = cc in absurd (ne same)
  process_rules-FailsAt (rule ∷ rules) hw err hw' ne e =
      elim (next_rule-err (process_rule drv do_insert pi handle rule hw) _ err hw' ne e) [
        | inl here ↦ ([], rule, rules, hw, refl, done, here)
        | inr (hw1, e1, e2) ↦
            let (before, bad, after, hw2, split, steps, fails) =
              process_rules-FailsAt rules hw1 err hw' ne e2 in
            (rule ∷ before, bad, after, hw2, ap (λ l. rule ∷ l) split, accept e1 steps, fails)
      ]
