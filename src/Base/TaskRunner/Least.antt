-- ===== src/Base/TaskRunner/Least.antt =====
-- The task that `RecalcNextTimeout` finds.
use gxmpp.Prelude.{
  ℕ, ◌≤◌, ◌<◌, ◌≡◌, refl, ap, ◌∙◌, sym, subst, true, false, ◌&&◌, ◌||◌, Option, none, some, List,
  [], ◌∷◌, ◌++◌, append_assoc, append-nil, All, All-append, All-mono, arith, if-rule, leb, ◌==◌,
}
use gxmpp.Base.TaskRunner.{Job, may_time_out, recalc_loop}

-- The earliest of the tasks that may time out, and the last of those with this time.
pub record Earliest (exclude : Option ℕ) (ts : List Job) (time id : ℕ) : Type 0 where
  pub before : List Job
  pub job : Job
  pub after : List Job
  pub parts : ts ≡ before ++ job ∷ after
  pub may : may_time_out exclude job ≡ true
  pub its_id : job.unique_id ≡ id
  pub its_time : job.timeout_time ≡ time
  pub no_earlier : All (λ t. may_time_out exclude t ≡ true → time ≤ t.timeout_time) before
  pub all_later : All (λ t. may_time_out exclude t ≡ true → time < t.timeout_time) after

abbrev pub Chosen : Option ℕ → List Job → ℕ → Option ℕ → Type 0
Chosen exclude ts time none = (time ≡ 0) × All (λ t. may_time_out exclude t ≡ false) ts
Chosen exclude ts time (some id) = Earliest exclude ts time id

abbrev NoEarlier : Option ℕ → ℕ → Job → Type 0
NoEarlier exclude time t = may_time_out exclude t ≡ true → time ≤ t.timeout_time

may_time_out-positive :
    (exclude : Option ℕ) (t : Job) → may_time_out exclude t ≡ true → 0 < t.timeout_time
unfolding may_time_out
may_time_out-positive exclude t may = ground arith

Earliest-All :
    (exclude : Option ℕ) (ts : List Job) (time id : ℕ)
    → Earliest exclude ts time id
    → All (NoEarlier exclude time) ts
Earliest-All exclude ts time id c = subst (All (NoEarlier exclude time)) (sym c.parts) (
    All-append (NoEarlier exclude time) c.before (c.job ∷ c.after) c.no_earlier (
      λ may. omega (arith, c.its_time),
      All-mono (λ t later may. omega (arith, later may)) c.after c.all_later,
    ))

Chosen-NoEarlier :
    (exclude : Option ℕ) (ts : List Job) (time : ℕ) (next : Option ℕ) (bound : ℕ)
    → ((time == 0) || leb bound time) ≡ true
    → Chosen exclude ts time next
    → All (NoEarlier exclude bound) ts
Chosen-NoEarlier exclude ts time none bound b c = All-mono (λ t k may. absurd (cc)) ts c.1
Chosen-NoEarlier exclude ts time (some id) bound b c =
    let positive = may_time_out-positive exclude c.job c.may in
    let within : bound ≤ time = ground (arith, b, positive, c.its_time) in
    All-mono (λ t later may. omega (arith, later may, within)) ts
      (Earliest-All exclude ts time id c)

take_task :
    (exclude : Option ℕ) (ts : List Job) (time : ℕ) (next : Option ℕ) (t : Job)
    → (may_time_out exclude t && (time == 0 || leb t.timeout_time time)) ≡ true
    → Chosen exclude ts time next
    → Chosen exclude (ts ++ t ∷ []) t.timeout_time (some t.unique_id)
take_task exclude ts time next t b c = record {
  before = ts;
  job = t;
  after = [];
  parts = refl;
  may = ground (arith, b);
  its_id = refl;
  its_time = refl;
  no_earlier = Chosen-NoEarlier exclude ts time next t.timeout_time (ground (arith, b)) c;
  all_later = tt;
}

pass_task :
    (exclude : Option ℕ) (ts : List Job) (time : ℕ) (next : Option ℕ) (t : Job)
    → (may_time_out exclude t && (time == 0 || leb t.timeout_time time)) ≡ false
    → Chosen exclude ts time next
    → Chosen exclude (ts ++ t ∷ []) time next
pass_task exclude ts time none t b c =
    (c.0, All-append _ ts (t ∷ []) c.1 (ground (arith, b, c.0), tt))
pass_task exclude ts time (some id) t b c = record {
  before = c.before;
  job = c.job;
  after = c.after ++ t ∷ [];
  parts = ap (λ us. us ++ t ∷ []) c.parts ∙ append_assoc c.before (c.job ∷ c.after) (t ∷ []);
  may = c.may;
  its_id = c.its_id;
  its_time = c.its_time;
  no_earlier = c.no_earlier;
  all_later = All-append _ c.after (t ∷ []) c.all_later (λ may. ground (arith, b, may), tt);
}

recalc_loop-Chosen :
    (exclude : Option ℕ) (seen ts : List Job) (time : ℕ) (next : Option ℕ)
    → Chosen exclude seen time next
    → (found : ℕ) × Chosen exclude (seen ++ ts) found (recalc_loop exclude ts time next)
unfolding recalc_loop
recalc_loop-Chosen exclude seen [] time next c =
    (time, subst (λ us. Chosen exclude us time next) (sym (append-nil seen)) c)
recalc_loop-Chosen exclude seen (t ∷ ts) time next c =
    if-rule (λ next'. (found : ℕ) × Chosen exclude (seen ++ t ∷ ts) found next')
      (may_time_out exclude t && (time == 0 || leb t.timeout_time time))
      (λ b.
        subst
          (λ us.
            (found : ℕ) × Chosen exclude us found
              (recalc_loop exclude ts t.timeout_time (some t.unique_id)))
          (append_assoc seen (t ∷ []) ts)
          (recalc_loop-Chosen exclude (seen ++ t ∷ []) ts t.timeout_time (some t.unique_id)
            (take_task exclude seen time next t b c)))
      (λ b.
        subst (λ us. (found : ℕ) × Chosen exclude us found (recalc_loop exclude ts time next))
          (append_assoc seen (t ∷ []) ts)
          (recalc_loop-Chosen exclude (seen ++ t ∷ []) ts time next
            (pass_task exclude seen time next t b c)))

-- RecalcNextTimeout chooses, of the tasks that are not done, not excluded and have a timeout,
-- one with the least time and the last of these, and none just if there is no such task.
pub recalc-Chosen :
    (exclude : Option ℕ) (ts : List Job)
    → (found : ℕ) × Chosen exclude ts found (recalc_loop exclude ts 0 none)
recalc-Chosen exclude ts = recalc_loop-Chosen exclude [] ts 0 none (refl, tt)
