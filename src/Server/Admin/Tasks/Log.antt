-- ===== src/Server/Admin/Tasks/Log.antt =====
-- The log of the admin requests that are handled at the same time.
use vestirust.Prelude.{
  ℕ, String, List, [], ◌∷◌, ◌≡◌, ◌≢◌, ◌⊎◌, refl, sym, ap, ◌∙◌, ok, err, inl, inr, All, All-mono,
  Bool-cases, ◌==◌, ==_iff, eq→==,
}
use vestirust.Model.{StatusCode, Config}
use vestirust.Configuration.{Reply}
use vestirust.Configuration.Interface.{Backend}
use vestirust.Configuration.Laws.{save_failed}
use vestirust.Server.Admin.Keys.{is_write}
use vestirust.Server.Admin.Tasks.{
  Sent, Task, holding, answered, System, moved, handled, finished, Step, extract, finish, Reach,
  start, later,
}

-- The task has ended with a success.
abbrev IsDone : (ℕ → Task) → ℕ → Type 0
IsDone tasks j = (r : StatusCode × String) × (tasks j ≡ answered (ok r))

-- No task has ended because the file could not be written.
abbrev pub AllSaved : (ℕ → Task) → Type 0
AllSaved tasks = (j : ℕ) → tasks j ≢ answered (err save_failed)

abbrev HasNoRepeats : List ℕ → Type 0
HasNoRepeats [] = Unit
HasNoRepeats (i ∷ l) = All (λ j. j ≢ i) l × HasNoRepeats l

-- The requests of the log have succeeded, and each stands in it once.
pub record IsLog {World : Type 0} (s : System World) : Type 0 where
  pub done : All (IsDone s.tasks) s.log
  pub once : HasNoRepeats s.log

module _ (tasks : ℕ → Task) (i : ℕ) (t : Task) where
  pub moved_self : moved tasks i t i ≡ t
  moved_self = rw (eq→== i i refl) refl

  moved-other : (j : ℕ) (u : Task) → tasks i ≢ u → tasks j ≡ u → moved tasks i t j ≡ u
  moved-other j u other e = elim (Bool-cases (i == j)) [
    | inl same ↦ absurd (other (ap tasks ((==_iff i j).0 same) ∙ e))
    | inr apart ↦ rw apart e
  ]

  pub moved-cases : (j : ℕ) (u : Task) → moved tasks i t j ≡ u → (t ≡ u) ⊎ (tasks j ≡ u)
  moved-cases j u e = elim (Bool-cases (i == j)) [
    | inl same ↦ inl (rw same at e)
    | inr apart ↦ inr (rw apart at e)
  ]

  module _ (running : (r : Reply) → tasks i ≢ answered r) where
    done-moved : (l : List ℕ) → All (IsDone tasks) l → All (IsDone (moved tasks i t)) l
    done-moved = All-mono (λ j d. (d.0, moved-other j _ (running (ok d.0)) d.1))

    AllSaved-before : AllSaved (moved tasks i t) → AllSaved tasks
    AllSaved-before saved j e = saved j (moved-other j _ (running _) e)

    not_done : (l : List ℕ) → All (IsDone tasks) l → All (λ j. j ≢ i) l
    not_done = All-mono (λ j d. λ (p : j ≡ i). running (ok d.0) (ap tasks (sym p) ∙ d.1))

module _ {World : Type 0} (backend : Backend World) (config_file : String) (sent : ℕ → Sent) where
  finish-IsLog :
      (s : System World) (i : ℕ) (config : Config)
      → s.tasks i ≡ holding config
      → IsLog s
      → IsLog (finished backend config_file sent i config s)
  finish-IsLog s i config e inv = by_reply _ refl
    where
      running : (r : Reply) → s.tasks i ≢ answered r
      running r a = cc

      kept : (r : Reply) → All (IsDone (moved s.tasks i (answered r))) s.log
      kept r = done-moved s.tasks i (answered r) running s.log inv.done

      by_reply :
          (r : Reply)
          → (handled backend config_file sent i config s.world).1 ≡ r
          → IsLog (finished backend config_file sent i config s)
      by_reply (err refusal) h = rw h (record { done = kept (err refusal); once = inv.once })
      by_reply (ok done) h = elim (Bool-cases (is_write (sent i).request)) [
        | inl writes ↦
            rw (h, writes)
              (record {
                done = ((done, moved_self s.tasks i _), kept (ok done));
                once = (not_done s.tasks i (answered (ok done)) running s.log inv.done, inv.once);
              })
        | inr reads ↦ rw (h, reads) (record { done = kept (ok done); once = inv.once })
      ]

module _ {World : Type 0} {backend : Backend World} {config_file : String} {sent : ℕ → Sent} where
  pub Step-AllSaved :
      {s t : System World} → Step backend config_file sent s t → AllSaved t.tasks → AllSaved s.tasks
  Step-AllSaved {s} (extract i e) = AllSaved-before s.tasks i _ (λ r a. cc)
  Step-AllSaved {s} (finish i config e) = AllSaved-before s.tasks i _ (λ r a. cc)

  Step-IsLog : {s t : System World} → Step backend config_file sent s t → IsLog s → IsLog t
  Step-IsLog {s} (extract i e) inv = record {
    done = done-moved s.tasks i _ (λ r a. cc) s.log inv.done;
    once = inv.once;
  }
  Step-IsLog {s} (finish i config e) inv = finish-IsLog backend config_file sent s i config e inv

  pub Reach-IsLog : {w : World} {s : System World} → Reach backend config_file sent w s → IsLog s
  Reach-IsLog start = record { done = tt; once = tt }
  Reach-IsLog (later r st) = Step-IsLog st (Reach-IsLog r)
