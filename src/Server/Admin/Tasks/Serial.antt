-- ===== src/Server/Admin/Tasks/Serial.antt =====
-- What admin requests that are handled at the same time come to.
use vestirust.Prelude.{
  ℕ, some, String, List, [], ◌∷◌, ◌≡◌, refl, ap, ok, err, inl, inr, ◌∙◌, Option-cases, Result-cases,
}
use vestirust.Model.{StatusCode, Config}
use vestirust.Configuration.{Reply, from_file}
use vestirust.Configuration.Interface.{Backend, IsStorage}
use vestirust.Users.Accounts.{admin_from_request}
use vestirust.Server.Admin.Failures.{admin_handler-IsHarmless}
use vestirust.Server.Admin.Keys.{HasUniqueKeys, Writes, Writes-HoldsUniqueKeys, write_or_read}
use vestirust.Server.Admin.Promises.{Promised, Writes-Keeps}
use vestirust.Server.Admin.Tasks.Log.{
  IsLog, AllSaved, moved_self, moved-cases, Step-AllSaved, Reach-IsLog,
}
use vestirust.Server.Admin.Tasks.{
  Sent, holding, answered, System, moved, extracted, handled, finished, Step, extract, finish,
  Reach, start, later,
}

-- A list with some entries of another left out.
pub data Within : List ℕ → List ℕ → Type 0 where
  nothing : Within [] []
  left_out : {l log : List ℕ} (i : ℕ) → Within l log → Within l (i ∷ log)
  kept : {l log : List ℕ} (i : ℕ) → Within l log → Within (i ∷ l) (i ∷ log)

-- Both lists are empty, or have the same first entry.
abbrev pub StartAlike : List ℕ → List ℕ → Type 0
StartAlike [] [] = Unit
StartAlike (i ∷ l) (j ∷ log) = i ≡ j
StartAlike _ _ = ⊥

module _ {World : Type 0} {backend : Backend World} (storage : IsStorage backend)
    (config_file : String) (sent : ℕ → Sent) (first : Config) where
  -- What the requests of a list promise of `first`, one after another, the last one in front.
  pub data Serial : List ℕ → Config → Type 0 where
    none_yet : Serial [] first
    next :
        {l : List ℕ} {before after : Config} (i : ℕ)
        → Serial l before
        → Promised backend (sent i).salt (sent i).request before after
        → Serial (i ∷ l) after

  -- A configuration with unique keys that some of the requests of the log make of `first`.
  abbrev pub IsSerial : List ℕ → Config → Type 0
  IsSerial log config = HasUniqueKeys config × (l : List ℕ) × Within l log × Serial l config

  -- The file holds such a configuration, which the last request of the log has made, and so is each
  -- configuration that a handler has.
  pub record AreSerial (s : System World) : Type 0 where
    pub file :
        (config : Config) × (from_file backend s.world config_file ≡ some config)
        × HasUniqueKeys config
        × (l : List ℕ) × Within l s.log
        × StartAlike l s.log
        × Serial l config
    pub held : (i : ℕ) (config : Config) → s.tasks i ≡ holding config → IsSerial s.log config

  -- What an extractor gives was in the file.
  extracted-holding :
      (i : ℕ) (w : World) (config : Config)
      → extracted backend config_file sent i w ≡ holding config
      → from_file backend w config_file ≡ some config
  unfolding extracted
  extracted-holding i w config e = elim (Option-cases (from_file backend w config_file)) [
    | inl n ↦ cc (rw (n, extracted) at e)
    | inr (c, read) ↦ elim (Result-cases (admin_from_request backend (sent i).cookie)) [
      | inl (admin, a) ↦ cc (rw (read, extracted, a) at e)
      | inr (status, a) ↦ cc (rw (read, extracted, a) at e)
    ]
  ]

  extract-AreSerial :
      (s : System World) (i : ℕ)
      → AreSerial s
      → AreSerial
          (record s { tasks = moved s.tasks i (extracted backend config_file sent i s.world) })
  extract-AreSerial s i inv =
      let (config, read, u, l, within, alike, serial) = inv.file in
      record {
        file = inv.file;
        held = λ j c e. elim (moved-cases s.tasks i _ j _ e) [
          | inl here ↦
              let same : config ≡ c = cc (extracted-holding i s.world c here) in
              rw (← same) (u, l, within, serial)
          | inr before ↦ inv.held j c before
        ];
      }

  module _ (s : System World) (i : ℕ) (config : Config) (e : s.tasks i ≡ holding config)
      (inv : AreSerial s) where
    abbrev next_s : System World
    next_s = finished backend config_file sent i config s

    -- The other handlers keep their configurations, whatever is logged.
    held-AreSerial :
        ((c : Config) → IsSerial s.log c → IsSerial next_s.log c)
        → (j : ℕ) (c : Config) → next_s.tasks j ≡ holding c
        → IsSerial next_s.log c
    held-AreSerial over j c h = elim (moved-cases s.tasks i _ j _ h) [
      | inl here ↦ cc
      | inr before ↦ over c (inv.held j c before)
    ]

    unwritten : next_s.world ≡ s.world → next_s.log ≡ s.log → AreSerial next_s
    unwritten same log = record {
      file = rw (same, log) inv.file;
      held = held-AreSerial (λ c h. rw log h);
    }

    written :
        (done : StatusCode × String)
        → Writes (sent i).request
        → (handled backend config_file sent i config s.world).1 ≡ ok done
        → next_s.log ≡ i ∷ s.log
        → AreSerial next_s
    written done writes h log =
        let (u, l, within, serial) = inv.held i config e in
        let answer : handled backend config_file sent i config s.world
            ≡ ((handled backend config_file sent i config s.world).0, ok done) =
          ap (λ r. ((handled backend config_file sent i config s.world).0, r)) h in
        let (after, now, promised) =
          Writes-Keeps storage (sent i).salt config_file config (sent i).request s.world _ done
            writes u answer in
        let (after', now', u') =
          Writes-HoldsUniqueKeys storage (sent i).salt config_file config (sent i).request s.world _
            done writes u answer in
        let same : after' ≡ after = cc in
        record {
          file =
              rw log
                (after, now, rw (← same) u', i ∷ l, kept i within, refl, next i serial promised);
          held =
              held-AreSerial
                (λ c (v, l', within', serial'). rw log (v, l', left_out i within', serial'));
        }

    finish-AreSerial : AllSaved next_s.tasks → AreSerial next_s
    finish-AreSerial saved = by_reply _ refl
      where
        by_reply :
            (r : Reply)
            → (handled backend config_file sent i config s.world).1 ≡ r
            → AreSerial next_s
        by_reply (ok done) h =
            elim (write_or_read storage (sent i).salt config_file config (sent i).request s.world) [
              | inl writes ↦ written done writes h (rw (h, writes) refl)
              | inr (reads, same) ↦ unwritten same (rw (h, reads) refl)
            ]
        by_reply (err refusal) h =
            elim (admin_handler-IsHarmless backend (sent i).salt config_file config (sent i).request
              s.world _ refusal
              (ap (λ r. ((handled backend config_file sent i config s.world).0, r)) h)) [
                | inl same ↦ unwritten same (rw h refl)
                | inr failed ↦
                    absurd
                      (saved i (moved_self s.tasks i _ ∙ ap answered (h ∙ ap (λ x. err x) failed)))
              ]

  Step-AreSerial :
      {s t : System World}
      → Step backend config_file sent s t
      → AllSaved t.tasks
      → AreSerial s
      → AreSerial t
  Step-AreSerial {s} (extract i e) saved inv = extract-AreSerial s i inv
  Step-AreSerial {s} (finish i config e) saved inv = finish-AreSerial s i config e inv saved

  -- Where the file holds a configuration with unique keys at the start, and any number of admin
  -- requests are handled at the same time, with their steps in any order and none answered that the
  -- file could not be written: the requests of the log have succeeded, each stands in it once, and the
  -- file holds a configuration with unique keys that some of them make one after another, of which
  -- the last is the last of the log. Each configuration that a handler has is one that some of them
  -- make, too.
  pub Reach-AreSerial :
      {w : World} {s : System World}
      → from_file backend w config_file ≡ some first
      → HasUniqueKeys first
      → Reach backend config_file sent w s
      → AllSaved s.tasks
      → IsLog s × AreSerial s
  Reach-AreSerial {w} {s} read u reach saved = (Reach-IsLog reach, all reach saved)
    where
      all : {s : System World} → Reach backend config_file sent w s → AllSaved s.tasks → AreSerial s
      all start saved = record {
        file = (first, read, u, [], nothing, tt, none_yet);
        held = λ i config e. cc;
      }
      all (later r st) saved = Step-AreSerial st saved (all r (Step-AllSaved st saved))
